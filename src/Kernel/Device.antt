-- ===== src/Kernel/Device.antt =====
-- kernel_get_device, and what it promises of the device.
use wireguard_android_expres.Base.{
  ℕ, ◌==◌, leb, if◌then◌else◌, Option, none, some, List, [], ◌∷◌, Bytes, length,
}
use wireguard_android_expres.Containers.{WgPeer, WgDevice, new_device}
use wireguard_android_expres.Uapi.Get.{ifnamsiz}
use wireguard_android_expres.Kernel.Get.{
  Attr, Reader, Cb, cb_error, cb_stop, cb_ok, go_on, mnl_attr_parse, parse_device,
}
use wireguard_android_expres.Kernel.Coalesce.{coalesce_peers}

-- One attempt: no socket, a message that is not sent, a reply that is not received, or the
-- messages of a reply, with `errno` behind them in case a callback says to stop.
pub data Attempt : Type 0 where
  not_opened : ℕ → Attempt
  not_sent : ℕ → Attempt
  not_received : ℕ → Attempt
  received : ℕ → List (List Attr) → Attempt

-- How the function ends: an error number, 0 for none, and the device; with a NULL pointer used; or
-- not yet, for want of further attempts.
pub data Retrieved : Type 0 where
  returned : ℕ → Option WgDevice → Retrieved
  crashed : Retrieved
  still_trying : Retrieved

abbrev pub eintr : ℕ
eintr = 4

abbrev pub einval : ℕ
einval = 22

abbrev pub enametoolong : ℕ
enametoolong = 36

-- `mnlg_socket_recv_run` with `read_device_cb`: message by message, until a callback says to stop.
-- The message that ends a dump stops it without an error.
unfoldable pub read_messages : Reader → List (List Attr) → WgDevice → Cb × WgDevice
read_messages r [] d = (cb_stop, d)
read_messages r (msg ∷ msgs) d =
    go_on (mnl_attr_parse (parse_device r) msg d) (λ d'. read_messages r msgs d')

abbrev pub coalesced : WgDevice → Option (List WgPeer) → Retrieved
coalesced d none = crashed
coalesced d (some ps) = returned 0 (some (record d { peers = ps }))

-- At `out`, with an error: try again where a signal came.
abbrev pub retry : ℕ → Retrieved → Retrieved
retry e again = if e == eintr then again else returned e none

-- At `out`, with `ret`.
abbrev pub leave : ℕ → WgDevice → Retrieved → Retrieved
leave ret d again = if ret == 0 then returned 0 (some d) else retry ret again

abbrev pub error_or : ℕ → ℕ → ℕ
error_or errno otherwise = if errno == 0 then otherwise else errno

abbrev pub read_end : ℕ → Cb × WgDevice → Retrieved → Retrieved
read_end errno (cb_error, d) again = retry (error_or errno einval) again
read_end errno (cb_stop, d) again = coalesced d (coalesce_peers d.peers)
read_end errno (cb_ok, d) again = coalesced d (coalesce_peers d.peers)

unfoldable pub try_again : Reader → List Attempt → Retrieved
try_again r [] = still_trying
try_again r (not_opened errno ∷ rest) = returned errno none
try_again r (not_sent errno ∷ rest) = leave errno new_device (try_again r rest)
try_again r (not_received errno ∷ rest) = retry (error_or errno einval) (try_again r rest)
try_again r (received errno msgs ∷ rest) =
    read_end errno (read_messages r msgs new_device) (try_again r rest)

unfoldable pub kernel_get_device : Reader → List Attempt → Bytes → Retrieved
kernel_get_device r attempts iface =
    if leb ifnamsiz (length iface) then returned enametoolong none else try_again r attempts
