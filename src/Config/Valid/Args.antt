-- ===== src/Config/Valid/Args.antt =====
-- The whole argument list of `wg set`, as `config_read_cmd` reads it.
use wireguard_android_expres.Base.{
  ℕ, ◌≡◌, refl, arith, Bool, true, false, ◌&&◌, List, [], ◌∷◌, Bytes, codes, bytes_eq,
}
use wireguard_android_expres.Containers.{new_device, set_flag, wgpeer_remove_me}
use wireguard_android_expres.Host.{Host}
use wireguard_android_expres.Config.Endpoint.{Parsed, ok, err, exited, still_waiting}
use wireguard_android_expres.Config.Line.{map_parsed}
use wireguard_android_expres.Config.Number.Digits.{false-ne-true}
use wireguard_android_expres.Config.Cmd.{
  CmdState, cmd_peer, cmd_pair, cmd_remove, cmd_loop, config_read_cmd,
}
use wireguard_android_expres.Config.Valid.{OnOk, either, IsDevice, HasBytePorts}
use wireguard_android_expres.Config.Valid.Cmd.{IsCmd, put_peer, cmd_peer-IsLinkedPeer, pair-IsCmd}

and-right : (a b : Bool) → (a && b) ≡ true → b ≡ true
and-right true b h = h
and-right false b h = absurd (false-ne-true h)

remove-IsCmd : (st : CmdState) → IsCmd st → st.has_peer ≡ true → IsCmd (cmd_remove st)
remove-IsCmd st v e =
    put_peer st (record (cmd_peer st) { flags = set_flag (cmd_peer st).flags wgpeer_remove_me })
      st.has_allowedip v e (cmd_peer-IsLinkedPeer st v)

-- What follows a pair, where `next` is the loop behind it.
after_pair :
    (r : Parsed CmdState) (next : CmdState → Parsed CmdState)
    → OnOk IsCmd r
    → ((st' : CmdState) → IsCmd st' → OnOk IsCmd (next st'))
    → OnOk IsCmd (elim r [ ok st' ↦ next st' | e ↦ e ])
after_pair (ok st') next v h = h st' v
after_pair err next v h = tt
after_pair exited next v h = tt
after_pair still_waiting next v h = tt

loop-IsCmd :
    (h : Host) (fuel : ℕ) (st : CmdState) (argv : List Bytes)
    → HasBytePorts h
    → IsCmd st
    → OnOk IsCmd (cmd_loop h fuel st argv)
unfolding cmd_loop
loop-IsCmd h fuel st [] bytes v = v
loop-IsCmd h fuel st (arg ∷ []) bytes v =
    either (OnOk IsCmd) (bytes_eq arg (codes "remove") && st.has_peer) _ _
      (λ e. remove-IsCmd st v (and-right (bytes_eq arg (codes "remove")) st.has_peer e)) (λ _. tt)
loop-IsCmd h fuel st (arg ∷ value ∷ rest) bytes v =
    either (OnOk IsCmd) (bytes_eq arg (codes "remove") && st.has_peer) _ _
      (λ e.
        loop-IsCmd h fuel (cmd_remove st) (value ∷ rest) bytes
          (remove-IsCmd st v (and-right (bytes_eq arg (codes "remove")) st.has_peer e)))
      (λ _.
        after_pair (cmd_pair h fuel st arg value) (λ st'. cmd_loop h fuel st' rest)
          (pair-IsCmd h fuel st arg value bytes v) (λ st' v'. loop-IsCmd h fuel st' rest bytes v'))

take_device :
    (r : Parsed CmdState)
    → OnOk IsCmd r
    → OnOk IsDevice (map_parsed (λ (st : CmdState). st.device) r)
take_device (ok st) v = v.0
take_device err v = tt
take_device exited v = tt
take_device still_waiting v = tt

-- Whatever arguments `wg set` is given, a device that `config_read_cmd` makes of them, on a host
-- whose ports are two bytes, has keys of 32 bytes, numbers in their ranges and prefixes no longer
-- than an address.
pub config_read_cmd-IsDevice :
    (h : Host) (fuel : ℕ) (argv : List Bytes)
    → HasBytePorts h
    → OnOk IsDevice (config_read_cmd h fuel argv)
unfolding config_read_cmd
config_read_cmd-IsDevice h fuel argv bytes =
    let start : CmdState = record {
      device = new_device;
      has_peer = false;
      has_allowedip = false;
    } in
    take_device (cmd_loop h fuel start argv)
      (loop-IsCmd h fuel start argv bytes ((refl, omega arith, omega arith, tt), refl, refl))
