-- ===== src/Highlighter.antt =====
-- tunnel/tools/wireguard-tools/contrib/highlighter/highlighter.c, built without
-- MOBILE_WGQUICK_SUBSET: the coloured spans of a configuration file.
pub mod Span
pub mod Address
pub mod Value
pub mod Field
pub mod Spans
pub mod Config
pub mod Ordered
pub mod Values
pub mod Machine
pub mod Keys
pub mod Accepted
pub mod HostNames
