-- ===== src/Setconf/Set.antt =====
-- tunnel/tools/wireguard-tools/src/set.c: `wg set`, from its arguments to the device that is sent.
use wireguard_android_expres.Base.{ℕ, some, List, [], ◌∷◌, Bytes}
use wireguard_android_expres.Containers.{WgDevice}
use wireguard_android_expres.Host.{Host}
use wireguard_android_expres.Config.Endpoint.{Parsed, ok, err, exited, still_waiting}
use wireguard_android_expres.Config.Cmd.{config_read_cmd}
use wireguard_android_expres.Config.Valid.{OnSome, OnOk, IsDevice, HasBytePorts}
use wireguard_android_expres.Config.Valid.Args.{config_read_cmd-IsDevice}
use wireguard_android_expres.Setconf.Main.{MainEnd, Program, failed, send, named}

abbrev pub set_device_end : Program → Bytes → Parsed WgDevice → Parsed MainEnd
set_device_end w iface (ok device) = ok (send w (some (named iface device)))
set_device_end w iface err = ok failed
set_device_end w iface exited = exited
set_device_end w iface still_waiting = still_waiting

unfoldable pub set_main : Host → ℕ → Program → List Bytes → Parsed MainEnd
set_main h fuel w [] = ok failed
set_main h fuel w (command ∷ []) = ok failed
set_main h fuel w (command ∷ iface ∷ []) = ok failed
set_main h fuel w (command ∷ iface ∷ arg ∷ argv) =
    set_device_end w iface (config_read_cmd h fuel (arg ∷ argv))

end-IsDevice :
    (w : Program) (iface : Bytes) (r : Parsed WgDevice)
    → OnOk IsDevice r
    → OnOk (λ e. OnSome IsDevice e.sent) (set_device_end w iface r)
unfolding send named
end-IsDevice w iface (ok d) v = v
end-IsDevice w iface err v = tt
end-IsDevice w iface exited v = tt
end-IsDevice w iface still_waiting v = tt

-- Whatever arguments `wg set` is given, on a host whose ports are two bytes, a device that set_main
-- hands to ipc_set_device has keys of 32 bytes, a mark, a port and intervals in their ranges and
-- prefixes no longer than an address.
pub set_main-IsDevice :
    (h : Host) (fuel : ℕ) (w : Program) (argv : List Bytes)
    → HasBytePorts h
    → OnOk (λ e. OnSome IsDevice e.sent) (set_main h fuel w argv)
unfolding set_main
set_main-IsDevice h fuel w [] bytes = tt
set_main-IsDevice h fuel w (command ∷ []) bytes = tt
set_main-IsDevice h fuel w (command ∷ iface ∷ []) bytes = tt
set_main-IsDevice h fuel w (command ∷ iface ∷ arg ∷ argv) bytes =
    end-IsDevice w iface (config_read_cmd h fuel (arg ∷ argv))
      (config_read_cmd-IsDevice h fuel (arg ∷ argv) bytes)
