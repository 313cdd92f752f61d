-- ===== src/Setconf/Valid.antt =====
-- What sync_conf keeps of a device, and what setconf_main hands to ipc_set_device.
use wireguard_android_expres.Base.{
  ℕ, zero, suc, ◌≡◌, refl, ◌∙◌, arith, Bool, false, not, ◌&&◌, ◌==◌, if◌then◌else◌, Option, none,
  some, List, [], ◌∷◌, Bytes, length, codes, bytes_eq, All, All-append, any, any-perm, IsSort,
}
use wireguard_android_expres.Containers.{WgPeer, WgDevice}
use wireguard_android_expres.Host.{Host}
use wireguard_android_expres.Config.Endpoint.{Parsed, ok, err, exited, still_waiting}
use wireguard_android_expres.Config.Line.{
  ConfigCtx, config_read_init, config_read_lines, config_read_finish, all_have_public_key,
}
use wireguard_android_expres.Config.Valid.{
  OnSome, OnOk, either, IsPeer, IsDevice, IsValid, HasBytePorts,
}
use wireguard_android_expres.Config.Valid.File.{config_read_lines-IsValid}
use wireguard_android_expres.Setconf.{
  PeerOrigin, peer_le, key_eq, SyncState, sync_runtime, sync_loop, sync_reset, sync_remove,
  reset_peer, reset_keepalive, reset_preshared_key, update_at, origins, sync_peers, sync_with,
  runs_preshared_key, runs_keepalive,
}
use wireguard_android_expres.Setconf.Origins.{runtime_origins}
use wireguard_android_expres.Setconf.Main.{
  Program, send, named, finished, setconf_lines, setconf_file, setconf_main,
}

reset_preshared_key-IsPeer : (b : Bool) (p : WgPeer) → IsPeer p → IsPeer (reset_preshared_key b p)
unfolding reset_preshared_key
reset_preshared_key-IsPeer b p v = either IsPeer _ _ p (λ _. (v.0, refl, v.2, v.3)) (λ _. v)

reset_keepalive-IsPeer : (b : Bool) (p : WgPeer) → IsPeer p → IsPeer (reset_keepalive b p)
unfolding reset_keepalive
reset_keepalive-IsPeer b p v = either IsPeer _ _ p (λ _. (v.0, v.1, omega arith, v.3)) (λ _. v)

reset_peer-IsPeer : (r p : WgPeer) → IsPeer p → IsPeer (reset_peer r p)
reset_peer-IsPeer r p v =
    reset_keepalive-IsPeer (runs_keepalive r) (reset_preshared_key (runs_preshared_key r) p)
      (reset_preshared_key-IsPeer (runs_preshared_key r) p v)

update_at-All :
    (i : ℕ) (f : WgPeer → WgPeer) (ps : List WgPeer)
    → ((p : WgPeer) → IsPeer p → IsPeer (f p))
    → All IsPeer ps
    → All IsPeer (update_at i f ps)
unfolding update_at
update_at-All i f [] h a = tt
update_at-All zero f (p ∷ ps) h a = (h p a.0, a.1)
update_at-All (suc i) f (p ∷ ps) h a = (a.0, update_at-All i f ps h a.1)

abbrev HasKey : PeerOrigin → Type 0
HasKey o = length o.peer.public_key ≡ 32

-- Both parts of the loop's state are good.
abbrev IsSync : SyncState → Type 0
IsSync st = All IsPeer st.removed × All IsPeer st.file_peers

runtime-IsSync :
    (o : PeerOrigin) (rest : List PeerOrigin) (st : SyncState)
    → HasKey o
    → IsSync st
    → IsSync (sync_runtime o rest st)
unfolding sync_runtime
runtime-IsSync o [] st k v = (((k, refl, omega arith, tt), v.0), v.1)
runtime-IsSync o (n ∷ ns) st k v =
    either IsSync (n.from_file && key_eq o n) (sync_reset o n st) (sync_remove o st)
      (λ _. (
        v.0,
        update_at-All n.place (reset_peer o.peer) st.file_peers (reset_peer-IsPeer o.peer) v.1,
      ))
      (λ _. (((k, refl, omega arith, tt), v.0), v.1))

-- An element that runs with a key of another length.
abbrev bad_key : PeerOrigin → Bool
bad_key o = not o.from_file && not (length o.peer.public_key == 32)

loop-IsSync :
    (l : List PeerOrigin) (st : SyncState)
    → any bad_key l ≡ false
    → IsSync st
    → IsSync (sync_loop l st)
unfolding sync_loop any
loop-IsSync [] st k v = v
loop-IsSync (o ∷ rest) st k v =
    loop-IsSync rest (if o.from_file then st else sync_runtime o rest st) (ground (arith, k)) (
      either IsSync o.from_file st (sync_runtime o rest st) (λ _. v)
        (λ e. runtime-IsSync o rest st (ground (arith, e, k)) v))

abbrev HasKeys : WgDevice → Type 0
HasKeys d = All (λ p. length p.public_key ≡ 32) d.peers

runtime_keys :
    (rs : List WgPeer)
    → All (λ p. length p.public_key ≡ 32) rs
    → any (λ p. not (length p.public_key == 32)) rs ≡ false
unfolding any
runtime_keys [] a = refl
runtime_keys (r ∷ rs) a = ground (arith, a.0, runtime_keys rs a.1)

peers-IsDevice :
    (qsort : List PeerOrigin → List PeerOrigin) (file : WgDevice) (fs rs : List WgPeer)
    → IsSort peer_le qsort
    → All (λ p. length p.public_key ≡ 32) rs
    → All IsPeer fs
    → IsDevice file
    → IsDevice (sync_peers qsort file fs rs)
unfolding sync_peers
peers-IsDevice qsort file [] [] sorts k a v = v
peers-IsDevice qsort file [] (r ∷ rs) sorts k a v = v
peers-IsDevice qsort file (p ∷ fs) [] sorts k a v = v
peers-IsDevice qsort file (p ∷ fs) (r ∷ rs) sorts k a v =
    let keys_lem =
      any-perm bad_key (sorts (origins (p ∷ fs) (r ∷ rs))).0
      ∙ runtime_origins bad_key (λ q. not (length q.public_key == 32)) (p ∷ fs) (r ∷ rs)
          (λ q j. refl) (λ q j. refl)
      ∙ runtime_keys (r ∷ rs) k in
    let st : SyncState = record { removed = []; file_peers = p ∷ fs } in
    let both = loop-IsSync (qsort (origins (p ∷ fs) (r ∷ rs))) st keys_lem (tt, a) in
    let l = sync_loop (qsort (origins (p ∷ fs) (r ∷ rs))) st in
    (v.0, v.1, v.2, All-append IsPeer l.removed l.file_peers both.0 both.1)

with-IsDevice :
    (qsort : List PeerOrigin → List PeerOrigin) (file : WgDevice) (fs : List WgPeer)
    (answer : Option WgDevice)
    → IsSort peer_le qsort
    → OnSome HasKeys answer
    → All IsPeer fs
    → IsDevice file
    → OnSome IsDevice (sync_with qsort file fs answer)
unfolding sync_with
with-IsDevice qsort file [] none sorts k a v = v
with-IsDevice qsort file [] (some d) sorts k a v = v
with-IsDevice qsort file (p ∷ fs) none sorts k a v = tt
with-IsDevice qsort file (p ∷ fs) (some d) sorts k a v =
    peers-IsDevice qsort file (p ∷ fs) d.peers sorts k a v

read_finish-IsDevice : (ctx : ConfigCtx) → IsValid ctx → OnSome IsDevice (config_read_finish ctx)
unfolding config_read_finish
read_finish-IsDevice ctx v =
    either (OnSome IsDevice) (all_have_public_key ctx.device.peers) _ _ (λ _. v.0) (λ _. tt)

send-IsDevice :
    (w : Program) (d : Option WgDevice) → OnSome IsDevice d → OnSome IsDevice (send w d).sent
unfolding send
send-IsDevice w none v = tt
send-IsDevice w (some d) v = v

module _ (w : Program) (sorts : IsSort peer_le w.qsort)
    (keys_lem : (name : Bytes) → OnSome HasKeys (w.ipc_get_device name)) where
  finished-IsDevice :
      (command iface : Bytes) (d : Option WgDevice)
      → OnSome IsDevice d
      → OnSome IsDevice (finished w command iface d).sent
  unfolding finished named
  finished-IsDevice command iface none v = tt
  finished-IsDevice command iface (some d) v = send-IsDevice w _ (
      either (OnSome IsDevice) (bytes_eq command (codes "syncconf")) _ _
        (λ _.
          with-IsDevice w.qsort (named iface d) d.peers (w.ipc_get_device (named iface d).name)
            sorts (keys_lem (named iface d).name) v.3 v)
        (λ _. v))

  module _ (h : Host) (fuel : ℕ) (bytes : HasBytePorts h) where
    lines_end :
        (command iface : Bytes) (r : Parsed ConfigCtx)
        → OnOk IsValid r
        → OnOk
            (λ e. OnSome IsDevice e.sent)
            (elim r [
              | ok ctx ↦ ok (finished w command iface (config_read_finish ctx))
              | err ↦ ok (record { ret = 1; sent = none })
              | exited ↦ exited
              | still_waiting ↦ still_waiting
            ])
    lines_end command iface (ok ctx) v =
        finished-IsDevice command iface (config_read_finish ctx) (read_finish-IsDevice ctx v)
    lines_end command iface err v = tt
    lines_end command iface exited v = tt
    lines_end command iface still_waiting v = tt

    file_end :
        (command iface : Bytes) (file : Option (List Bytes))
        → OnOk (λ e. OnSome IsDevice e.sent) (setconf_file h fuel w command iface file)
    unfolding setconf_file setconf_lines
    file_end command iface none = tt
    file_end command iface (some lines) =
        let append = bytes_eq command (codes "addconf") in
        lines_end command iface (config_read_lines h fuel (config_read_init append) lines)
          (config_read_lines-IsValid h fuel append lines bytes)

    -- Whatever setconf, addconf or syncconf is given, a device that setconf_main hands to
    -- ipc_set_device has keys of 32 bytes, a mark, a port and intervals in their ranges and
    -- prefixes no longer than an address, where the keys of the peers that run have 32 bytes, ports
    -- are two bytes and `qsort` sorts.
    pub setconf_main-IsDevice :
        (argv : List Bytes) → OnOk (λ e. OnSome IsDevice e.sent) (setconf_main h fuel w argv)
    unfolding setconf_main
    setconf_main-IsDevice [] = tt
    setconf_main-IsDevice (command ∷ []) = tt
    setconf_main-IsDevice (command ∷ iface ∷ []) = tt
    setconf_main-IsDevice (command ∷ iface ∷ path ∷ []) = file_end command iface (w.open_file path)
    setconf_main-IsDevice (command ∷ iface ∷ path ∷ more ∷ argv) = tt
