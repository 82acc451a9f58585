-- ===== src/GrpMng/Groups.antt =====
-- The group manager of grp_mng.c: its records, its creation, and the groups it makes and deletes.
pub mod Membership
pub mod Listing
use Prim.Native.String.{String}
use Prim.Native.Char.{code}
use ipc_project.Base.{
  ℕ, zero, suc, ◌+◌, Bool, true, false, Option, none, some, List, [], ◌∷◌, ◌++◌, length, get_elem?,
  set, not, ◌||◌, if◌then◌else◌, Exec, ok, ◌>>=◌, or_fault,
}
use ipc_project.CLib.{Block, Text, strcmp_eq, copy_string, c_string, strcat}
use ipc_project.CLib.Atoi.{atoi, remainder_size}
use ipc_project.Containers.HashMap.{
  HashMapLib, MapResult, map_success, map_key_duplicate_error, map_key_not_found_error,
}
use ipc_project.Containers.Queue.{QueueLib, QueueResult, queue_success}
use ipc_project.Containers.Vector.{VectorLib}
use ipc_project.Group.{
  Group, GroupMemory, GroupResult, group_success, group_user_already_exists, group_user_not_found,
  AddressPointer, owned, dangling, read_address, group_create, add_user, remove_user,
}
use ipc_project.GrpMng.Decimal.{my_ito_a}

abbrev pub map_capacity : ℕ
map_capacity = 100

abbrev pub queue_size : ℕ
queue_size = 100

abbrev pub ip_string_size : ℕ
ip_string_size = 30

pub data GroupMngResult : Type 0 where
  groupmng_success groupmng_uninitialized groupmng_group_name_uninitialized : GroupMngResult
  groupmng_user_name_uninitialized groupmng_groupipout_uninitialized : GroupMngResult
  groupmng_duplicate groupmng_group_does_not_exist groupmng_user_does_not_exist : GroupMngResult
  groupmng_general_error : GroupMngResult

unfoldable pub grp_mng_hash_function : Text → ℕ
grp_mng_hash_function key = remainder_size (atoi key) map_capacity

unfoldable pub grp_mng_equality_function : Text → Text → Bool
grp_mng_equality_function first second = if strcmp_eq first second then true else false

abbrev pub is_map_success : MapResult → Bool
is_map_success map_success = true
is_map_success _ = false

abbrev pub is_queue_success : QueueResult → Bool
is_queue_success queue_success = true
is_queue_success _ = false

abbrev pub find_error : MapResult → GroupMngResult
find_error map_key_not_found_error = groupmng_group_does_not_exist
find_error _ = groupmng_general_error

abbrev pub codes : String → List ℕ
codes String.[] = []
codes (String.◌∷◌ c s) = code c ∷ codes s

-- The local array `IP`.
abbrev pub ip_prefix : Text
ip_prefix = codes "224.0.0."

module _ (L : HashMapLib) (Q : QueueLib) where
  pub record GrpMng : Type 0 where
    pub group_map : L.Map (Option ℕ)
    pub groups_id : Q.Queue AddressPointer
    pub heap : List (Option (Group L))

  -- The loop that fills the queue, `rounds` of them from `i` on. The array `uniqueIP` is `unique`,
  -- and the flags are the outcomes of `malloc`, one for each round. `none` is a failure.
  unfoldable pub fill_queue :
      (ℕ → Bool) → ℕ → ℕ → Block → Q.Queue AddressPointer → Exec (Option (Q.Queue AddressPointer))
  fill_queue memory zero i unique queue = ok (some queue)
  fill_queue memory (suc rounds) i unique queue = if not (memory i) then ok none else (do
    unique ← my_ito_a i unique
    digits ← c_string unique
    multi_cast_ip ← copy_string ip_string_size (ip_prefix ++ digits)
    let (status, queue) = Q.insert AddressPointer queue (owned multi_cast_ip)
    let rest = fill_queue memory rounds (i + 1) unique queue
    if is_queue_success status then rest else ok none)

  -- The flags say whether the manager, the map and the queue are allocated. The array `uniqueIP` has
  -- the bytes `unique` when it is declared.
  unfoldable pub grp_mng_create : Bool → Bool → Bool → (ℕ → Bool) → Block → Exec (Option GrpMng)
  grp_mng_create for_manager for_map for_queue memory unique =
      if not for_manager || not for_map || not for_queue then ok none else (do
        filled ← fill_queue memory queue_size 1 unique (Q.create AddressPointer queue_size)
        ok (elim filled [
          | none ↦ none
          | some queue ↦ some (record {
            group_map =
                L.create (Option ℕ) map_capacity grp_mng_hash_function grp_mng_equality_function;
            groups_id = queue;
            heap = [];
          })
        ]))

  unfoldable pub grp_mng_destroy : Option (Option GrpMng) → Option (Option GrpMng)
  grp_mng_destroy none = none
  grp_mng_destroy (some none) = some none
  grp_mng_destroy (some (some manager)) = some none

  -- The group behind a pointer. A freed or a wild one is a fault.
  unfoldable pub deref : List (Option (Group L)) → Option ℕ → Exec (Option (Group L))
  deref heap none = ok none
  deref heap (some address) = do
    object ← or_fault (get_elem? heap address)
    group ← or_fault object
    ok (some group)

  abbrev pub assign :
      List (Option (Group L)) → Option ℕ → Option (Group L) → List (Option (Group L))
  assign heap none group = heap
  assign heap (some address) group = set heap address group

  -- The steps after `HashMapInsert`. A group that is not inserted is not freed, and its address is
  -- not put back.
  unfoldable pub finish_add_group :
      MapResult → GrpMng → Text → ℕ → Exec (GroupMngResult × Option Text × Option GrpMng)
  finish_add_group map_success manager ip size = do
    address ← copy_string size ip
    ok (groupmng_success, some address, some manager)
  finish_add_group map_key_duplicate_error manager ip size =
      ok (groupmng_duplicate, none, some manager)
  finish_add_group _ manager ip size = ok (groupmng_general_error, none, some manager)

  -- `AddNewGroup` from the call of `GroupCreate` on, with the group that it returned.
  unfoldable pub insert_new_group :
      Bool
      → GrpMng
      → Text
      → AddressPointer
      → ℕ
      → Option (Group L)
      → Exec (GroupMngResult × Option Text × Option GrpMng)
  insert_new_group for_key manager name ip size none =
      ok (groupmng_general_error, none, some manager)
  insert_new_group for_key manager name ip size (some group) =
      let heap = manager.heap ++ (some group ∷ []) in
      if not for_key
      then ok (groupmng_general_error, none, some (record manager { heap = heap }))
      else (do
        key ← copy_string ip_string_size name
        let (status, groups) =
            L.insert (Option ℕ) manager.group_map key (some (length manager.heap))
        ip_text ← read_address ip
        finish_add_group status (record manager { group_map = groups; heap = heap }) ip_text size)

  -- The first arguments are the outcomes of the allocations. The last is the size of the array for
  -- the address, and the second result what is written to it.
  unfoldable pub add_new_group :
      GroupMemory
      → Bool
      → Option GrpMng
      → Option Text
      → Option ℕ
      → Exec (GroupMngResult × Option Text × Option GrpMng)
  unfolding insert_new_group
  add_new_group memory for_key none name out = ok (groupmng_uninitialized, none, none)
  add_new_group memory for_key (some manager) none out =
      ok (groupmng_group_name_uninitialized, none, some manager)
  add_new_group memory for_key (some manager) (some name) none =
      ok (groupmng_groupipout_uninitialized, none, some manager)
  add_new_group memory for_key (some manager) (some name) (some size) =
      let r = Q.remove AddressPointer manager.groups_id in
      let manager' = record manager { groups_id = r.2 } in
      if not (is_queue_success r.0) then ok (groupmng_general_error, none, some manager') else (do
        ip ← or_fault r.1
        group ← group_create L memory (some name) (some ip)
        insert_new_group for_key manager' name ip size group)

  -- `GroupDestroy`: the address that it hands out lies in the group that it frees. A NULL group
  -- leaves the caller's variable as it was, which is not initialised.
  unfoldable pub group_destroy :
      List (Option (Group L)) → Option ℕ → Exec (List (Option (Group L)) × Option AddressPointer)
  unfolding deref
  group_destroy heap pointer = do
    group ← deref heap pointer
    ok (elim group [ none ↦ (heap, none) | some g ↦ (assign heap pointer none, some dangling) ])

  unfoldable pub delete_group : Option GrpMng → Option Text → Exec (GroupMngResult × Option GrpMng)
  unfolding group_destroy
  delete_group none name = ok (groupmng_uninitialized, none)
  delete_group (some manager) none = ok (groupmng_group_name_uninitialized, some manager)
  delete_group (some manager) (some name) =
      let r = L.remove (Option ℕ) manager.group_map name in
      if not (is_map_success r.0)
      then ok (find_error r.0, some (record manager { group_map = r.2 }))
      else (do
        pair ← or_fault r.1
        freed ← group_destroy manager.heap pair.1
        group_ip ← or_fault freed.1
        let (status, queue) = Q.insert AddressPointer manager.groups_id group_ip
        ok (
          if is_queue_success status then groupmng_success else groupmng_general_error,
          some (record { group_map = r.2; groups_id = queue; heap = freed.0 }),
        ))
