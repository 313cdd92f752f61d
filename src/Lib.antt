-- ===== src/Lib.antt =====
-- The C code of the WireGuard tools that the Android application builds, and its contributions.
-- Paths are from the repository's root; T stands for tunnel/tools/wireguard-tools.
--
-- Parts, and how they work together:
--   T/src/ctype.h (Ctype): character classes without branches, used by every parser.
--   T/src/encoding.c (Encoding, its laws in Encoding/Hex, Encoding/Base64 and their children): keys
--     as hexadecimal text for the userspace protocol and as base64 text for people.
--   T/src/containers.h (Containers): devices, peers and allowed addresses. A linked list is a list
--     in link order. A pointer to the end of such a list is a truth value, whether it is set.
--   T/src/config.c (Config): Config/Number is strtoul; Config/Fields the single values
--     (get_value, parse_port, parse_fwmark, parse_key, parse_keyfile, parse_ip and
--     parse_persistent_keepalive); Config/Endpoint parse_endpoint with its retries;
--     Config/AllowedIps parse_allowedips and validate_netmask; Config/Line the state of the file
--     reader (process_line, config_read_line, config_read_init, config_read_finish); Config/Cmd
--     config_read_cmd. The loop of setconf_main (T/src/setconf.c) is config_read_lines, and with
--     config_read_finish read_file. The laws are in Config/Number/Digits, Config/Decimal and
--     Config/Mark (numbers), Config/Netmask, Config/Endpoint/Resolve (the retries), Config/Blanks
--     (comments and spaces), Config/Incremental (entries with + and -) and Config/Valid (the
--     invariants of both readers' states).
--   T/src/ipc-uapi.h (Uapi): Uapi/Set writes a device as the request of userspace_set_device and
--     reads its reply; Uapi/Get, with the single lines in Uapi/Get/Lines, reads a device from the
--     reply of userspace_get_device. Uapi/Endpoints, Uapi/Numbers and Uapi/Reply relate the two,
--     Uapi/Cidr is about the prefix length of an allowed_ip line, and Uapi/Valid has the invariant
--     of the reading loop.
--   T/src/setconf.c (Setconf): sync_conf, which turns a file into the changes of a running device, as
--     the two stages of its code: the order of peers (peer_cmp) and the loop over the sorted peers
--     of both. Setconf/Main is setconf_main for its three commands; the files, qsort and the
--     transport are the parameters of its Program. Setconf/Sorted has the order, Setconf/Turns,
--     Setconf/Removed, Setconf/Resets and Setconf/Origins the loop, Setconf/Sync the whole
--     against a description by keys, and Setconf/Valid the devices that are sent. Setconf/Set is
--     set_main of T/src/set.c.
--   T/src/ipc-linux.h (Kernel): Kernel/Fill cuts a device into the messages of kernel_set_device,
--     Kernel/Get has kernel_get_device with its callbacks, and Kernel/Coalesce coalesce_peers. How
--     much room an attribute takes (Mnl), how attributes nest (Reader) and what the kernel answers
--     are parameters. Kernel/Room, Kernel/Progress, Kernel/Bounds, Kernel/Split and Kernel/Stops
--     are about the messages and Kernel/Sent compares them with the device; Kernel/Device and
--     Kernel/Valid, with Kernel/Callbacks, are about what is read, and Kernel/Joined about the
--     parts of a peer that are put together.
--   T/src/showconf.c (Showconf): the lines that showconf_main prints. Showconf/Text, Showconf/Values
--     and Showconf/Keys are about single lines and their values, Showconf/Entries and Showconf/Lists
--     about the list of addresses, Showconf/Endpoints, Showconf/Peers and Showconf/Sections about
--     peers, Showconf/Device about the device, and Showconf/RoundTrip about the whole file and the
--     reader of T/src/config.c.
--   T/src/ipc.c (Ipc): string_list_add and ipc_list_devices, and the loop of T/src/show.c over their
--     block, as Ipc.print_interfaces. Memory is a block of bytes, and an access beyond it is a
--     result of its own. Ipc/Room is about the block and Ipc/Names about the names in it.
--   T/src/show.c (Show): peer_cmp and sort_peers, with qsort as a parameter, for a time_t of 32 and
--     of 64 bits; Show/Recent describes the order.
--   T/contrib/highlighter/highlighter.c (Highlighter): Highlighter/Address and Highlighter/Value
--     are the validators, Highlighter/Field the names, Highlighter/Spans what is appended, and
--     Highlighter/Config the state machine of highlight_config, whose laws are in
--     Highlighter/Ordered, Highlighter/Values and Highlighter/Machine. Highlighter/Keys and
--     Highlighter/Accepted compare its keys with the decoder's, and Highlighter/HostNames
--     describes its host names.
--   Host holds what the code takes from its surroundings, as parameters: whether char is signed,
--     the largest unsigned long, inet_pton, getaddrinfo, getenv and files. Uapi/Print.Names holds
--     inet_ntop and getnameinfo. Base has the shared lists, words, bits and C strings, and Base/Sort
--     sorted lists and what is asked of qsort.
--
-- Machine integers are natural numbers: an int or unsigned is its 32-bit pattern, bytes are below
-- 256 and casts are written out. Loops over arrays and lists are structural recursions. The loop
-- of is_valid_ipv6 has as many rounds as the span has characters, and each round moves on by one
-- at least. The loop of parse_endpoint is given a number of attempts, and says so where they are
-- used up; a bounded number of retries ends it within that many and one more. The loop over
-- netlink messages has one round more than the device has peers and addresses, and each message
-- that is sent moves on by one of them at least. %x has one digit at most for each unit of its
-- number and one more.
-- The loop over a block of names has one round more than the block has bytes.
--
-- Not modelled: freeing memory and failing allocations (a failed operation gives no device), the
-- messages on the standard error, sockets and system calls, the elliptic curve (a copy of
-- generated code, a parameter of Uapi/Get), the printers of show.c, the netlink library of netlink.h
-- (a copy of libmnl) and the bytes of its messages, the listing of interfaces, the transports of
-- other platforms, and the Kotlin and Java application.
pub mod Base
pub mod Ctype
pub mod Encoding
pub mod Containers
pub mod Host
pub mod Config
pub mod Setconf
pub mod Kernel
pub mod Showconf
pub mod Ipc
pub mod Show
pub mod Uapi
pub mod Highlighter
mod Tests
