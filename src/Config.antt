-- ===== src/Config.antt =====
-- tunnel/tools/wireguard-tools/src/config.c: the configuration file and the command line of `wg`.
-- Every `bool` parser that writes through pointers returns the changed record; allocations succeed.
pub mod Number
pub mod Fields
pub mod Endpoint
pub mod AllowedIps
pub mod Netmask
pub mod Decimal
pub mod Mark
pub mod Valid
pub mod Blanks
pub mod Incremental
pub mod Line
pub mod Cmd
