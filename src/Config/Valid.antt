-- ===== src/Config/Valid.antt =====
-- What the configuration reader promises of the device that it builds: the sizes of its keys, the
-- ranges of its numbers, and pointers that agree with the lists they point into.
pub mod Parsers
pub mod Lines
pub mod File
pub mod Cmd
pub mod Args
use wireguard_android_expres.Base.{
  ℕ, ◌≤◌, ◌<◌, ◌≡◌, refl, Bool, true, false, not, ◌==◌, Option, none, some, List, [], ◌∷◌, Bytes,
  length, char_at, All, if◌then◌else◌,
}
use wireguard_android_expres.Containers.{WgAllowedIp, WgPeer, WgDevice}
use wireguard_android_expres.Host.{Host, Addrinfo, found}
use wireguard_android_expres.Config.Endpoint.{Parsed, ok, err, exited, still_waiting}
use wireguard_android_expres.Config.AllowedIps.{max_cidr}
use wireguard_android_expres.Config.Line.{ConfigCtx, last_peer}

-- A property of the value that a parser gives, where it gives one.
abbrev pub OnSome {ℓ κ} : {A : Type ℓ} → (A → Type κ) → Option A → Type κ
OnSome P none = Unit
OnSome P (some a) = P a

abbrev pub OnOk {ℓ κ} : {A : Type ℓ} → (A → Type κ) → Parsed A → Type κ
OnOk P (ok a) = P a
OnOk P _ = Unit

pub either {ℓ κ} :
    {A : Type ℓ} (P : A → Type κ) (b : Bool) (x y : A)
    → (b ≡ true → P x)
    → (b ≡ false → P y)
    → P (if b then x else y)
either P true x y h k = h refl
either P false x y h k = k refl

abbrev pub IsEntry : WgAllowedIp → Type 0
IsEntry a = a.cidr ≤ max_cidr a.family

abbrev pub IsPeer : WgPeer → Type 0
IsPeer p =
    (length p.public_key ≡ 32)
    × (length p.preshared_key ≡ 32)
    × (p.persistent_keepalive_interval ≤ 65535)
    × All IsEntry p.allowedips

abbrev pub IsDevice : WgDevice → Type 0
IsDevice d =
    (length d.private_key ≡ 32)
    × (d.fwmark ≤ 0xffff_ffff)
    × (d.listen_port ≤ 65535)
    × All IsPeer d.peers

abbrev pub non_empty {ℓ} : {A : Type ℓ} → List A → Bool
non_empty [] = false
non_empty (x ∷ xs) = true

-- The pointers of the context: set exactly where there is something to point to.
abbrev pub IsLinked : ConfigCtx → Type 0
IsLinked ctx =
    (ctx.has_last_peer ≡ non_empty ctx.device.peers)
    × (ctx.has_last_allowedip ≡ non_empty (last_peer ctx).allowedips)
    × (ctx.is_peer_section ≡ true → ctx.has_last_peer ≡ true)

abbrev pub IsValid : ConfigCtx → Type 0
IsValid ctx = IsDevice ctx.device × IsLinked ctx

-- The two bytes of a port that `getaddrinfo` answers are bytes.
abbrev pub HasBytePorts : Host → Type 0
HasBytePorts h =
    (value : Bytes) (a : Addrinfo)
    → h.getaddrinfo_port value ≡ found a
    → (char_at a.ai_addr 2 < 256) × (char_at a.ai_addr 3 < 256)
