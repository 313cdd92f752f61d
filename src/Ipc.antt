-- ===== src/Ipc.antt =====
-- tunnel/tools/wireguard-tools/src/ipc.c: the list of the names of all interfaces, and the loop of
-- show.c that prints it.
pub mod Room
pub mod Names
use wireguard_android_expres.Base.{
  ℕ, zero, suc, ◌+◌, ◌-◌, ◌*◌, ◌%◌, ◌^◌, Bool, ◌==◌, ltb, leb, if◌then◌else◌, Option, none, some,
  List, [], ◌∷◌, ◌++◌, Bytes, length, take, drop, split_first,
}

-- One more than the largest `size_t`, of 64 bits.
abbrev pub size_limit : ℕ
size_limit = 2 ^ 64

-- `struct string_list`, with all the bytes of the block that `buffer` points to.
pub record StringList : Type 0 where
  pub buffer : Bytes
  pub len : ℕ
  pub cap : ℕ

abbrev pub empty_list : StringList
empty_list = record { buffer = []; len = 0; cap = 0 }

-- How string_list_add ends; a write beyond the block is told apart.
pub data Added : Type 0 where
  added : StringList → Added
  failed out_of_bounds : Added

-- Bytes stored at an offset of a block.
unfoldable pub write : Bytes → ℕ → Bytes → Option Bytes
write block at bytes =
    if leb (at + length bytes) (length block)
    then some (take at block ++ (bytes ++ drop (at + length bytes) block))
    else none

unfoldable pub new_cap : StringList → ℕ → ℕ
new_cap list n =
    let doubled = list.cap * 2 % size_limit in
    let needed = (list.len + n + 1) % size_limit in if ltb doubled needed then needed else doubled

-- With what `realloc` gives.
abbrev pub resized : StringList → ℕ → Option Bytes → Option StringList
resized list cap none = none
resized list cap (some block) = some (record list { buffer = block; cap = cap })

unfoldable pub make_room : (Bytes → ℕ → Option Bytes) → StringList → ℕ → Option StringList
make_room realloc list n =
    if leb ((list.cap + size_limit - list.len) % size_limit) n
    then resized list (new_cap list n) (realloc list.buffer (new_cap list n))
    else some list

abbrev pub ended : StringList → ℕ → Option Bytes → Added
ended list n none = out_of_bounds
ended list n (some block) = added (record list { buffer = block; len = list.len + n })

abbrev pub terminated : StringList → ℕ → Option Bytes → Added
terminated list n none = out_of_bounds
terminated list n (some block) = ended list n (write block (list.len + n) (0 ∷ []))

abbrev pub stored : Bytes → Option StringList → Added
stored text none = failed
stored text (some list) = terminated list (length text) (write list.buffer list.len text)

unfoldable pub string_list_add : (Bytes → ℕ → Option Bytes) → StringList → Bytes → Added
string_list_add realloc list str =
    if length str + 1 == 1
    then added list
    else stored (str ++ (0 ∷ [])) (make_room realloc list (length str + 1))

-- The names that a transport gives, added one after the other; an error ends it.
unfoldable pub add_names : (Bytes → ℕ → Option Bytes) → Added → List Bytes → Added
add_names realloc (added list) (s ∷ ss) = add_names realloc (string_list_add realloc list s) ss
add_names realloc r _ = r

-- `list.buffer ?: strdup("\0")`; strdup copies up to the first NUL, which is one byte.
abbrev pub list_block : StringList → Bytes
list_block list = if list.cap == 0 then 0 ∷ [] else list.buffer

-- What ipc_list_devices gives.
pub data Listed : Type 0 where
  listed : Bytes → Listed
  not_listed overrun : Listed

abbrev pub listed_end : Added → Listed
listed_end (added list) = listed (list_block list)
listed_end failed = not_listed
listed_end out_of_bounds = overrun

-- With the names of `kernel_get_wireguard_interfaces` and `userspace_get_wireguard_interfaces`; an
-- error of theirs ends it as one of realloc does.
unfoldable pub ipc_list_devices : (Bytes → ℕ → Option Bytes) → List Bytes → List Bytes → Listed
ipc_list_devices realloc kernel userspace =
    listed_end (add_names realloc (add_names realloc (added empty_list) kernel) userspace)

-- The loop of `wg show interfaces`: a name and what follows it, a space where there is a next name;
-- none where it reads beyond the block.
abbrev pub next_name : Option (Bytes × Bytes) → Option ℕ
next_name none = none
next_name (some ([], rest)) = some b'\n'
next_name (some (c ∷ name, rest)) = some b' '

abbrev pub print_name : Bytes → Option ℕ → Option Bytes → Option Bytes
print_name name (some c) (some more) = some (name ++ (c ∷ more))
print_name name _ _ = none

abbrev pub print_turn : Option (Bytes × Bytes) → Option ℕ → Option Bytes → Option Bytes
print_turn none c more = none
print_turn (some ([], rest)) c more = some []
print_turn (some (b ∷ name, rest)) c more = print_name (b ∷ name) c more

abbrev pub behind : Option (Bytes × Bytes) → Bytes
behind none = []
behind (some (name, rest)) = rest

unfoldable pub print_interfaces : ℕ → Bytes → Option Bytes
print_interfaces zero block = none
print_interfaces (suc f) block =
    let now = split_first 0 block in
    print_turn now (next_name (split_first 0 (behind now))) (print_interfaces f (behind now))
