-- ===== src/Uapi.antt =====
-- tunnel/tools/wireguard-tools/src/ipc-uapi.h: the text protocol with a userspace implementation.
pub mod Print
pub mod Set
pub mod Get
pub mod Endpoints
pub mod Numbers
pub mod Reply
pub mod Cidr
pub mod Valid
