-- ===== src/Tests/Ipc.antt =====
-- The list of the names of all interfaces, on two names.
use wireguard_android_expres.Base.{
  ℕ, suc, ◌-◌, ◌≡◌, ◌⊎◌, refl, sym, ap, arith, Option, none, some, [], ◌∷◌, ◌++◌, Bytes, length,
  length-append, replicate, length-replicate, codes,
}
use wireguard_android_expres.Ipc.{
  StringList, empty_list, added, failed, string_list_add, add_names, listed, not_listed,
  ipc_list_devices, print_interfaces, write, make_room, new_cap,
}
use wireguard_android_expres.Ipc.Room.{IsRealloc, Holds, with_name, string_list_add-Holds}
use wireguard_android_expres.Ipc.Names.{joined_names, named_ones, ipc_list_devices_lem}

-- A realloc that fills the new bytes with 170.
abbrev grow : Bytes → ℕ → Option Bytes
grow block n = some (block ++ replicate (n - length block) 170)

abbrev bytes_of : Option Bytes → Bytes
bytes_of none = []
bytes_of (some b) = b

grow-IsRealloc : IsRealloc grow
grow-IsRealloc block n r h e =
    let fresh : Bytes = replicate (n - length block) 170 in
    let same : r ≡ block ++ fresh = sym (ap bytes_of e) in
    (
      fresh,
      same,
      omega (
        arith,
        h,
        ap length same,
        length-append block fresh,
        length-replicate {A = ℕ} (n - length block) 170,
      ),
    )

list_run :
    (ipc_list_devices grow (codes "wg0" ∷ []) (codes "tun1" ∷ [] ∷ [])
      ≡ listed (codes "wg0" ++ (0 ∷ (codes "tun1" ++ (0 ∷ 0 ∷ [])))))
unfolding ipc_list_devices add_names string_list_add make_room new_cap write
list_run = refl

string_list_add-Holds_example :
    (string_list_add grow empty_list (codes "wg0") ≡ failed)
    ⊎ ((l : StringList) × (string_list_add grow empty_list (codes "wg0") ≡ added l)
        × Holds (with_name [] (codes "wg0")) l)
string_list_add-Holds_example =
    string_list_add-Holds grow [] empty_list (codes "wg0") grow-IsRealloc
      ([], refl, refl, refl, omega arith, refl) (omega arith)

ipc_list_devices_lem_example :
    (ipc_list_devices grow (codes "wg0" ∷ []) (codes "tun1" ∷ [] ∷ []) ≡ not_listed)
    ⊎ ((block : Bytes) × (ipc_list_devices grow (codes "wg0" ∷ []) (codes "tun1" ∷ [] ∷ [])
          ≡ listed block)
        × (print_interfaces (suc (length block)) block
            ≡ some (joined_names (named_ones (codes "wg0" ∷ codes "tun1" ∷ [] ∷ [])))))
ipc_list_devices_lem_example =
    ipc_list_devices_lem grow (codes "wg0" ∷ []) (codes "tun1" ∷ [] ∷ []) grow-IsRealloc
      (ground arith) (omega arith)
