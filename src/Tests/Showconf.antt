-- ===== src/Tests/Showconf.antt =====
-- showconf.c on a concrete device, and the file that it prints.
use wireguard_android_expres.Base.{
  ◌≡◌, refl, arith, false, Option, some, [], ◌∷◌, Bytes, codes, bytes_eq, replicate, length,
  split_first,
}
use wireguard_android_expres.Containers.{af_inet, WgDevice, new_peer, new_device}
use wireguard_android_expres.Host.{Host, found}
use wireguard_android_expres.Config.Fields.{has_char}
use wireguard_android_expres.Config.Endpoint.{parse_dns_retries}
use wireguard_android_expres.Config.Valid.File.{read_file}
use wireguard_android_expres.Uapi.Print.{Names}
use wireguard_android_expres.Uapi.Set.{print_named}
use wireguard_android_expres.Showconf.{showconf, showconf_main, show_peer, show_peers}
use wireguard_android_expres.Showconf.Endpoints.{IsReading, IsNamed}
use wireguard_android_expres.Showconf.Entries.{IsPrinted}
use wireguard_android_expres.Showconf.RoundTrip.{
  IsShownDevice, device_as_read, showconf_main-read_file,
}
use wireguard_android_expres.Tests.Config.{test_host, here}

abbrev address : Bytes
address = codes "10.0.0.0"

abbrev names : Names
names = record {
  inet_ntop = λ family ip. some address;
  getnameinfo = λ e. some (codes "10.0.0.1", codes "51820");
}

-- A machine with a long of 32 bits that resolves an address at once.
abbrev reading_host : Host
reading_host = record test_host {
  ulong_max = 0xffff_ffff;
  getaddrinfo = λ attempt host service. found here;
}

abbrev device : WgDevice
device = record new_device {
  flags = 2;
  private_key = replicate 32 7;
  fwmark = 0x2a;
  listen_port = 51820;
  peers =
      record new_peer {
        flags = 12;
        public_key = replicate 32 1;
        preshared_key = replicate 32 2;
        endpoint = record { sa_family = af_inet; sa_bytes = here.ai_addr };
        persistent_keepalive_interval = 25;
        allowedips =
            record { family = af_inet; ip = 10 ∷ 0 ∷ 0 ∷ 0 ∷ []; cidr = 8; flags = 0 } ∷ [];
      }
      ∷ record new_peer { public_key = replicate 32 3 }
      ∷ [];
}

abbrev get : Bytes → Option WgDevice
get iface = some device

reading_host-IsReading : IsReading reading_host
unfolding parse_dns_retries
reading_host-IsReading = (omega arith, λ e. cc)

abbrev five : Bytes
five = codes "51820"

endpoint-IsNamed :
    IsNamed reading_host names (record { sa_family = af_inet; sa_bytes = here.ai_addr })
unfolding has_char split_first
endpoint-IsNamed = (
  codes "10.0.0.1",
  five,
  here,
  refl,
  refl,
  (refl, refl, refl),
  (ground arith, ground arith),
  (refl, refl),
  (refl, λ e. cc),
)

entry-IsPrinted :
    IsPrinted reading_host names
      (record { family = af_inet; ip = 10 ∷ 0 ∷ 0 ∷ 0 ∷ []; cidr = 8; flags = 0 })
unfolding has_char split_first bytes_eq
entry-IsPrinted = (address, refl, ground arith, refl, refl, omega arith, refl)

device-IsShownDevice : IsShownDevice reading_host names device
device-IsShownDevice = (
  (refl, omega arith),
  omega arith,
  (here, refl, refl, refl),
  (
    (
      (refl, omega arith),
      (refl, omega arith),
      omega arith,
      (entry-IsPrinted, tt),
      endpoint-IsNamed,
    ),
    (((refl, omega arith), (refl, omega arith), omega arith, tt, tt), tt),
  ),
)

-- The count of the lines, the headings and the empty line between the peers among them.
showconf_run : length (showconf names device) ≡ 14
unfolding showconf show_peers show_peer print_named has_char split_first
showconf_run = refl

showconf_main-read_file_example :
    ((showconf_main names get (codes "showconf" ∷ codes "wg0" ∷ [])).ret ≡ 0)
    × (read_file reading_host 1 false
          (showconf_main names get (codes "showconf" ∷ codes "wg0" ∷ [])).printed
        ≡ some (device_as_read device))
showconf_main-read_file_example =
    showconf_main-read_file reading_host names 0 get (codes "showconf") (codes "wg0") device
      reading_host-IsReading refl device-IsShownDevice
