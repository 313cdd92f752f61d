-- ===== src/Uapi/Print.antt =====
-- `printf` of the C library for the formats that the code uses, and the address functions that
-- print: `inet_ntop` and `getnameinfo`.
use wireguard_android_expres.Base.{
  ℕ, zero, suc, ◌+◌, ◌/◌, ◌%◌, if◌then◌else◌, ltb, Option, [], ◌∷◌, Bytes,
}
use wireguard_android_expres.Containers.{Family, Sockaddr}

-- Decimal digits of a number, in front of `rest`; the fuel bounds their count.
unfoldable pub decimal_loop : ℕ → ℕ → Bytes → Bytes
decimal_loop zero n rest = rest
decimal_loop (suc f) n rest =
    let more = decimal_loop f (n / 10) ((n % 10 + b'0') ∷ rest) in
    if ltb n 10 then (n + b'0') ∷ rest else more

-- `%u`, `%d` of a number that is not negative.
unfoldable pub decimal : ℕ → Bytes
decimal n = decimal_loop (suc n) n []

-- `inet_ntop`, and `getnameinfo` with numeric host and service; `none` is a failure.
pub record Names : Type 0 where
  pub inet_ntop : Family → Bytes → Option Bytes
  pub getnameinfo : Sockaddr → Option (Bytes × Bytes)
