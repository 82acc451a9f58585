-- ===== src/GrpMng/Creation.antt =====
-- `GrpMngCreate` of grp_mng.c.
use mathlib.Core.Path.{fun_ext}
use ipc_project.Containers.Entries.{lookup_by}
use ipc_project.Base.{
  length-map, map-append, ℕ, zero, suc, ◌+◌, ◌<◌, ◌≤◌, ◌≡◌, refl, sym, ap, ◌∙◌, Bool, true, Option,
  none, some, List, [], ◌∷◌, ◌++◌, length, map, All, arith, ok, lt→ltb, length-append, length-drop,
  append_assoc, append-nil, drop,
}
use ipc_project.CLib.{Block, Text, c_string, copy_string}
use ipc_project.CLib.Strings.{c_string-append}
use ipc_project.Containers.HashMap.{HashMapLib}
use ipc_project.Containers.HashMap
use ipc_project.Containers.Queue.{QueueLib}
use ipc_project.Containers.Queue
use ipc_project.Containers.Objects.{object_of}
use ipc_project.Group.{AddressPointer, owned}
use ipc_project.GrpMng.Decimal.{integer_length}
use ipc_project.GrpMng.Numbers.{
  decimal, length-fixed_digits, fixed_digits-IsText, my_ito_a-decimal, integer_length_le,
  without_digits,
}
use ipc_project.GrpMng.Groups.{
  GrpMng, ip_prefix, fill_queue, grp_mng_create, grp_mng_hash_function, grp_mng_equality_function,
}
use ipc_project.GrpMng.Directory.{group_of, IsValid}

-- The addresses 224.0.0.i of so many numbers, from `i` on.
unfoldable pub addresses : ℕ → ℕ → List Text
addresses zero i = []
addresses (suc rounds) i = (ip_prefix ++ decimal i) ∷ addresses rounds (i + 1)

short : (i : ℕ) → i < 1000 → integer_length i ≤ 3
unfolding without_digits
short i h = integer_length_le 3 i (omega arith)

address-length : (i : ℕ) → i < 1000 → length (ip_prefix ++ decimal i) < 15
address-length i h = omega (
  arith,
  length-append ip_prefix (decimal i),
  length-fixed_digits (integer_length i) i,
  short i h,
)

addresses-All : (rounds i : ℕ) → rounds + i < 1000 → All (λ ip. length ip < 15) (addresses rounds i)
unfolding addresses
addresses-All zero i h = tt
addresses-All (suc rounds) i h =
    (address-length i (omega arith), addresses-All rounds (i + 1) (omega arith))

module _ (Q : QueueLib) (K : Queue.IsLawful Q) (L : HashMapLib) where
  -- The rounds of the loop add the addresses, if the array `uniqueIP` holds a string at first.
  fill_queue-addresses :
      (memory : ℕ → Bool) (rounds i : ℕ) (unique : Block) (old : Text)
      (queue : Q.Queue AddressPointer) (done : List Text)
      → ((j : ℕ) → memory j ≡ true)
      → rounds + i < 1000
      → length unique ≡ 5
      → c_string unique ≡ ok old
      → Q.items AddressPointer queue ≡ map owned done
      → length done + rounds ≤ Q.capacity AddressPointer queue
      → (queue' : Q.Queue AddressPointer) × (fill_queue L Q memory rounds i unique queue
          ≡ ok (some queue'))
        × (Q.items AddressPointer queue' ≡ map owned (done ++ addresses rounds i))
  unfolding fill_queue addresses copy_string
  fill_queue-addresses memory zero i unique old queue done always small size e at room =
      (queue, refl, at ∙ ap (map owned) (sym (append-nil done)))
  fill_queue-addresses memory (suc rounds) i unique old queue done always small size e at room =
      let k = integer_length i in
      let fits : k < length unique = omega (arith, short i (omega arith), size) in
      let unique' = decimal i ++ (0 ∷ drop (suc k) unique) in
      let text : c_string unique' ≡ ok (decimal i) =
        c_string-append (decimal i) (drop (suc k) unique) (fixed_digits-IsText k i) in
      let size' : length unique' ≡ 5 = omega (
        arith,
        length-append (decimal i) (0 ∷ drop (suc k) unique),
        length-fixed_digits k i,
        length-drop (suc k) unique,
        fits,
      ) in
      let count : length (Q.items AddressPointer queue) ≡ length done =
        ap length at ∙ length-map owned done in
      let wide : length (ip_prefix ++ decimal i) < 30 =
        omega (arith, address-length i (omega arith)) in
      let (queue', inserted, items, capacity) =
        K.insert_room AddressPointer queue (owned (ip_prefix ++ decimal i)) (omega arith) in
      let done' = done ++ ((ip_prefix ++ decimal i) ∷ []) in
      let at' : Q.items AddressPointer queue' ≡ map owned done' =
        items ∙ rw at (sym (map-append owned done ((ip_prefix ++ decimal i) ∷ []))) in
      let room' : length done' + rounds ≤ Q.capacity AddressPointer queue' =
        omega (arith, capacity, length-append done ((ip_prefix ++ decimal i) ∷ [])) in
      let (filled, ran, all) =
        fill_queue-addresses memory rounds (i + 1) unique' (decimal i) queue' done' always
          (omega arith) size' text at' room' in
      (
        filled,
        rw
            (
              always i,
              my_ito_a-decimal i unique old e fits,
              text,
              lt→ltb (length (ip_prefix ++ decimal i)) 30 wide,
              inserted,
            )
            ran,
        all
            ∙ ap (map owned)
                (append_assoc done ((ip_prefix ++ decimal i) ∷ []) (addresses rounds (i + 1))),
      )

  -- A manager is created with no groups, with the addresses 224.0.0.1 to 224.0.0.100 free in that
  -- order, and valid, where every allocation succeeds and the uninitialised array `uniqueIP` of five
  -- bytes happens to hold a string.
  pub grp_mng_create-addresses :
      (H : HashMap.IsLawful L) (memory : ℕ → Bool) (unique : Block) (old : Text)
      → ((j : ℕ) → memory j ≡ true)
      → length unique ≡ 5
      → c_string unique ≡ ok old
      → (m : GrpMng L Q) × (grp_mng_create L Q true true true memory unique ≡ ok (some m))
        × IsValid L H Q m (addresses 100 1)
        × ((name : Text) → group_of L Q m name ≡ none)
  unfolding grp_mng_create grp_mng_equality_function object_of lookup_by
  grp_mng_create-addresses H memory unique old always size e =
      let (queue, filled, items) =
        fill_queue-addresses memory 100 1 unique old (Q.create AddressPointer 100) [] always
          (omega arith) size e (K.items-create AddressPointer 100)
          (omega (arith, K.capacity-create AddressPointer 100)) in
      let groups : L.Map (Option ℕ) =
        L.create (Option ℕ) 100 grp_mng_hash_function grp_mng_equality_function in
      let nothing : L.entries (Option ℕ) groups ≡ [] =
        H.entries-create (Option ℕ) 100 grp_mng_hash_function grp_mng_equality_function in
      (
        record { group_map = groups; groups_id = queue; heap = [] },
        rw filled refl,
        record {
          sound = record {
            keyed =
                H.create-Keyed (Option ℕ) 100 grp_mng_hash_function grp_mng_equality_function
                  (fun_ext λ s. fun_ext λ t. ground arith);
            points = λ name pointer at. absurd (ground (arith, at, nothing));
          };
          queued = items;
          free_fit = addresses-All 100 1 (omega arith);
        },
        λ name. rw nothing refl,
      )
