-- ===== src/Host.antt =====
-- What the code takes from its surroundings: the target's `char` and `unsigned long`, the address
-- functions of the C library (`inet_pton`, `getaddrinfo`), the environment and the file system.
use wireguard_android_expres.Base.{ℕ, Bool, Bytes, Option}
use wireguard_android_expres.Containers.{Family}

-- `struct addrinfo`, the first of the list.
pub record Addrinfo : Type 0 where
  pub ai_family : Family
  pub ai_addrlen : ℕ
  pub ai_addr : Bytes

-- `getaddrinfo` returns 0 with an address, or a code; these are the ones that the code tells apart.
pub data Resolved : Type 0 where
  found : Addrinfo → Resolved
  eai_noname eai_fail eai_nodata : Resolved
  eai_other : ℕ → Resolved

-- An open file: its bytes, and whether a read error ends them.
pub record OpenFile : Type 0 where
  pub contents : Bytes
  pub ferror : Bool

pub record Host : Type 0 where
  pub signed_char : Bool
  pub ulong_max : ℕ
  -- the address, where `inet_pton` returns 1
  pub inet_pton : Family → Bytes → Option Bytes
  -- `getaddrinfo(NULL, port, …)`
  pub getaddrinfo_port : Bytes → Resolved
  -- `getaddrinfo(host, service, …)`, at each attempt
  pub getaddrinfo : ℕ → Bytes → Bytes → Resolved
  pub getenv_retries : Option Bytes
  pub fopen : Bytes → Option OpenFile
