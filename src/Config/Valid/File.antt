-- ===== src/Config/Valid/File.antt =====
-- A whole configuration file, from `config_read_init` on, and what `config_read_finish` gives.
use wireguard_android_expres.Base.{
  ℕ, ◌≡◌, ◌↔◌, refl, arith, Bool, true, false, ◌==◌, ◌&&◌, Option, none, List, [], ◌∷◌, Bytes,
  length, All, codes, caseless_eq,
}
use wireguard_android_expres.Containers.{WgPeer, WgDevice, has_flag, wgpeer_has_public_key}
use wireguard_android_expres.Host.{Host}
use wireguard_android_expres.Config.Endpoint.{Parsed, ok, err, exited, still_waiting}
use wireguard_android_expres.Config.Line.{
  ConfigCtx, process_line, strip_spaces, uncomment, config_read_line, config_read_init,
  config_read_lines, config_read_finish, all_have_public_key,
}
use wireguard_android_expres.Config.Number.Digits.{false-ne-true}
use wireguard_android_expres.Config.Valid.{OnSome, OnOk, either, IsDevice, IsValid, HasBytePorts}
use wireguard_android_expres.Config.Valid.Lines.{
  begin_peer-IsValid, device_line-IsValid, peer_line-IsValid,
}

process_line-IsValid :
    (h : Host) (fuel : ℕ) (ctx : ConfigCtx) (line : Bytes)
    → HasBytePorts h
    → IsValid ctx
    → OnOk IsValid (process_line h fuel ctx line)
unfolding process_line
process_line-IsValid h fuel ctx line bytes v =
    either (OnOk IsValid) (caseless_eq line (codes "[Interface]")) _ _
      (λ _. (v.0, (v.1.0, v.1.1, λ e. absurd (false-ne-true e))))
      (λ _.
        either (OnOk IsValid) (caseless_eq line (codes "[Peer]")) _ _
          (λ _. begin_peer-IsValid ctx v)
          (λ _.
            either (OnOk IsValid) ctx.is_device_section _ _
              (λ _. device_line-IsValid h ctx line bytes v)
              (λ _.
                either (OnOk IsValid) ctx.is_peer_section _ _
                  (λ e. peer_line-IsValid h fuel ctx line v (v.1.2 e)) (λ _. tt))))

-- One line of the file, whatever it is, keeps the promises of the context: keys of 32 bytes,
-- numbers in their ranges, prefixes no longer than an address, and pointers that are set exactly
-- where there is a peer or an entry to point to.
pub config_read_line-IsValid :
    (h : Host) (fuel : ℕ) (ctx : ConfigCtx) (input : Bytes)
    → HasBytePorts h
    → IsValid ctx
    → OnOk IsValid (config_read_line h fuel ctx input)
unfolding config_read_line
config_read_line-IsValid h fuel ctx input bytes v =
    either (OnOk IsValid) (length (strip_spaces h.signed_char (uncomment input)) == 0) _ _ (λ _. v)
      (λ _. process_line-IsValid h fuel ctx (strip_spaces h.signed_char (uncomment input)) bytes v)

config_read_init-IsValid : (append : Bool) → IsValid (config_read_init append)
unfolding config_read_init
config_read_init-IsValid append =
    ((refl, omega arith, omega arith, tt), (refl, refl, λ e. absurd (false-ne-true e)))

lines_turn :
    (h : Host) (fuel : ℕ) (ctx : ConfigCtx) (l : Bytes) (ls : List Bytes) (r : Parsed ConfigCtx)
    → config_read_line h fuel ctx l ≡ r
    → OnOk IsValid r
    → ((ctx' : ConfigCtx) → IsValid ctx' → OnOk IsValid (config_read_lines h fuel ctx' ls))
    → OnOk IsValid (config_read_lines h fuel ctx (l ∷ ls))
unfolding config_read_lines
lines_turn h fuel ctx l ls (ok ctx') e v k = rw (e, config_read_lines) (k ctx' v)
lines_turn h fuel ctx l ls err e v k = rw (e, config_read_lines) tt
lines_turn h fuel ctx l ls exited e v k = rw (e, config_read_lines) tt
lines_turn h fuel ctx l ls still_waiting e v k = rw (e, config_read_lines) tt

lines-IsValid :
    (h : Host) (fuel : ℕ) (ctx : ConfigCtx) (ls : List Bytes)
    → HasBytePorts h
    → IsValid ctx
    → OnOk IsValid (config_read_lines h fuel ctx ls)
unfolding config_read_lines
lines-IsValid h fuel ctx [] bytes v = v
lines-IsValid h fuel ctx (l ∷ ls) bytes v =
    lines_turn h fuel ctx l ls (config_read_line h fuel ctx l) refl
      (config_read_line-IsValid h fuel ctx l bytes v)
      (λ ctx' v'. lines-IsValid h fuel ctx' ls bytes v')

-- Whatever lines a file has, where each of them is taken the context that they leave keeps its
-- promises, on a host whose ports are two bytes: keys of 32 bytes, numbers in their ranges,
-- prefixes no longer than an address, and pointers that are set exactly where there is a peer or
-- an entry to point to.
pub config_read_lines-IsValid :
    (h : Host) (fuel : ℕ) (append : Bool) (ls : List Bytes)
    → HasBytePorts h
    → OnOk IsValid (config_read_lines h fuel (config_read_init append) ls)
config_read_lines-IsValid h fuel append ls bytes =
    lines-IsValid h fuel (config_read_init append) ls bytes (config_read_init-IsValid append)

and-true : (a b : Bool) → (a && b) ≡ true → (a ≡ true) × (b ≡ true)
and-true true b h = (refl, h)
and-true false b h = absurd (false-ne-true h)

all_have_public_key_lem :
    (ps : List WgPeer)
    → (all_have_public_key ps ≡ true) ↔ All (λ p. has_flag p.flags wgpeer_has_public_key ≡ true) ps
all_have_public_key_lem [] = ((λ e. tt), λ a. refl)
all_have_public_key_lem (p ∷ ps) = (
  (λ a.
      let both = and-true (has_flag p.flags wgpeer_has_public_key) (all_have_public_key ps) a in
      (both.0, (all_have_public_key_lem ps).0 both.1)),
  λ a. rw (a.0, (all_have_public_key_lem ps).1 a.1) refl,
)

-- What `config_read_lines` and then `config_read_finish` give for a file.
abbrev pub read_file : Host → ℕ → Bool → List Bytes → Option WgDevice
read_file h fuel append ls = elim (config_read_lines h fuel (config_read_init append) ls) [
  | ok ctx ↦ config_read_finish ctx
  | _ ↦ none
]

pub finish-OnSome :
    (r : Parsed ConfigCtx)
    → OnOk IsValid r
    → OnSome
        (λ d. IsDevice d × All (λ p. has_flag p.flags wgpeer_has_public_key ≡ true) d.peers)
        (elim r [ ok ctx ↦ config_read_finish ctx | _ ↦ none ])
unfolding config_read_finish
finish-OnSome (ok ctx) v =
    either
      (OnSome (λ d. IsDevice d × All (λ p. has_flag p.flags wgpeer_has_public_key ≡ true) d.peers))
      (all_have_public_key ctx.device.peers) _ _
      (λ e. (v.0, (all_have_public_key_lem ctx.device.peers).0 e)) (λ _. tt)
finish-OnSome err v = tt
finish-OnSome exited v = tt
finish-OnSome still_waiting v = tt

-- A device that a configuration file gives, on a host whose ports are two bytes, has keys of 32
-- bytes, numbers in their ranges, prefixes no longer than an address, and the flag of a public key
-- on each of its peers.
pub read_file-IsDevice :
    (h : Host) (fuel : ℕ) (append : Bool) (ls : List Bytes)
    → HasBytePorts h
    → OnSome
        (λ d. IsDevice d × All (λ p. has_flag p.flags wgpeer_has_public_key ≡ true) d.peers)
        (read_file h fuel append ls)
read_file-IsDevice h fuel append ls bytes =
    finish-OnSome (config_read_lines h fuel (config_read_init append) ls)
      (config_read_lines-IsValid h fuel append ls bytes)
