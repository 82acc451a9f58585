-- ===== src/UsrMng.antt =====
-- usr_mng.h and usr_mng.c: the registered users by name.
--
-- The map holds a `User*` for each name, and the functions change the user behind the pointer. So
-- the users stand in a heap, a pointer is NULL (`none`) or an address in it, and a freed user leaves
-- `none` at its address. The manager that a function is given may be NULL too.
pub mod Directory
pub mod Creation
pub mod Spec
pub mod Sessions
pub mod Registration
pub mod Groups
use ipc_project.Base.{
  ℕ, Bool, true, false, Option, none, some, List, [], ◌∷◌, ◌++◌, length, get_elem?, set, not,
  if◌then◌else◌, Exec, ok, fault, ◌>>=◌, or_fault,
}
use ipc_project.CLib.{Text, strcmp_eq, copy_string}
use ipc_project.CLib.Atoi.{atoi, remainder_size}
use ipc_project.Containers.HashMap.{
  HashMapLib, MapResult, map_success, map_key_duplicate_error, map_key_not_found_error,
}
use ipc_project.User.{
  User, UserMemory, UserResult, user_success, user_group_already_exists, user_group_not_found,
  user_create, activate_user, deactivate_user, get_password, add_group, remove_group,
  remove_all_groups,
}

abbrev pub map_capacity : ℕ
map_capacity = 100

abbrev pub key_size : ℕ
key_size = 30

pub data UserMngResult : Type 0 where
  usermng_success usermng_general_error usermng_duplicate usermng_uninitialized : UserMngResult
  usermng_username_uninitialized usermng_password_uninitialized : UserMngResult
  usermng_groupname_uninitialized usermng_allocation_failed usermng_user_not_found : UserMngResult
  usermng_group_not_found usermng_wrong_password : UserMngResult

unfoldable pub usr_mng_hash_function : Text → ℕ
usr_mng_hash_function key = remainder_size (atoi key) map_capacity

unfoldable pub usr_mng_equality_function : Text → Text → Bool
usr_mng_equality_function first second = if strcmp_eq first second then true else false

abbrev pub is_map_success : MapResult → Bool
is_map_success map_success = true
is_map_success _ = false

-- The error of a failed `HashMapFind`.
abbrev pub find_error : MapResult → UserMngResult
find_error map_key_not_found_error = usermng_user_not_found
find_error _ = usermng_general_error

module _ (L : HashMapLib) where
  pub record UsrMng : Type 0 where
    pub user_map : L.Map (Option ℕ)
    pub heap : List (Option (User L))

  -- The flags are the outcomes of `malloc` and of `HashMapCreate`.
  unfoldable pub usr_mng_create : Bool → Bool → Option UsrMng
  usr_mng_create false created = none
  usr_mng_create true false = none
  usr_mng_create true true = some (record {
    user_map = L.create (Option ℕ) map_capacity usr_mng_hash_function usr_mng_equality_function;
    heap = [];
  })

  -- What the caller's pointer is afterwards, if there is one.
  unfoldable pub usr_mng_destroy : Option (Option UsrMng) → Option (Option UsrMng)
  usr_mng_destroy none = none
  usr_mng_destroy (some none) = some none
  usr_mng_destroy (some (some manager)) = some none

  -- The user behind a pointer. A freed or a wild one is a fault.
  unfoldable pub deref : List (Option (User L)) → Option ℕ → Exec (Option (User L))
  deref heap none = ok none
  deref heap (some address) = do
    object ← or_fault (get_elem? heap address)
    user ← or_fault object
    ok (some user)

  -- The heap once the user behind the pointer is changed.
  abbrev pub assign : List (Option (User L)) → Option ℕ → Option (User L) → List (Option (User L))
  assign heap none user = heap
  assign heap (some address) user = set heap address user

  -- A user that `UserCreate` returned, in the heap, and the pointer to it.
  abbrev pub allocate : List (Option (User L)) → Option (User L) → List (Option (User L)) × Option ℕ
  allocate heap none = (heap, none)
  allocate heap (some user) = (heap ++ (some user ∷ []), some (length heap))

  -- `UserDestroy(&user)`
  abbrev pub user_destroy : List (Option (User L)) → Option ℕ → List (Option (User L))
  user_destroy heap pointer = assign heap pointer none

  -- The steps after `HashMapInsert`, by its status.
  unfoldable pub finish_register :
      List (Option (User L)) → Option ℕ → MapResult → L.Map (Option ℕ) → UserMngResult × UsrMng
  finish_register heap user map_success users =
      (usermng_success, record { user_map = users; heap = heap })
  finish_register heap user map_key_duplicate_error users =
      (usermng_duplicate, record { user_map = users; heap = user_destroy heap user })
  finish_register heap user _ users =
      (usermng_general_error, record { user_map = users; heap = user_destroy heap user })

  -- The first argument gives the allocations of `UserCreate`, the second that of the key.
  unfoldable pub register_new_user :
      UserMemory
      → Bool
      → Option UsrMng
      → Option Text
      → Option Text
      → Exec (UserMngResult × Option UsrMng)
  unfolding finish_register
  register_new_user memory for_key none name password = ok (usermng_uninitialized, none)
  register_new_user memory for_key (some manager) none password =
      ok (usermng_username_uninitialized, some manager)
  register_new_user memory for_key (some manager) (some name) none =
      ok (usermng_password_uninitialized, some manager)
  register_new_user memory for_key (some manager) (some name) (some password) = do
    user ← user_create L memory (some name) (some password)
    let (heap, pointer) = allocate manager.heap user
    if not for_key then ok (usermng_general_error, some (record manager { heap = heap })) else (do
      key ← copy_string key_size name
      let (status, users) = L.insert (Option ℕ) manager.user_map key pointer
      let (result, manager') = finish_register heap pointer status users
      ok (result, some manager'))

  -- `HashMapFind` for a name, its error, and what is done with the user that it gives.
  unfoldable pub with_user :
      UsrMng
      → Text
      → (Option ℕ → Exec (UserMngResult × Option UsrMng))
      → Exec (UserMngResult × Option UsrMng)
  with_user manager name action =
      let (status, user) = L.find (Option ℕ) manager.user_map name in
      if is_map_success status
      then (or_fault user >>= action)
      else ok (find_error status, some manager)

  -- `passwordCopy` is read whether or not `GetPassword` wrote to it.
  unfoldable pub log_in_user :
      Option UsrMng → Option Text → Option Text → Exec (UserMngResult × Option UsrMng)
  unfolding with_user
  log_in_user none name password = ok (usermng_uninitialized, none)
  log_in_user (some manager) none password = ok (usermng_username_uninitialized, some manager)
  log_in_user (some manager) (some name) none = ok (usermng_password_uninitialized, some manager)
  log_in_user (some manager) (some name) (some password) = with_user manager name λ pointer. do
    user ← deref manager.heap pointer
    got ← get_password L user (some 30)
    password_copy ← or_fault got.1
    if strcmp_eq password password_copy
        then ok (
          usermng_success,
          some (record manager { heap = assign manager.heap pointer (activate_user L user).1 }),
        )
        else ok (usermng_wrong_password, some manager)

  unfoldable pub log_out_user : Option UsrMng → Option Text → Exec (UserMngResult × Option UsrMng)
  unfolding with_user
  log_out_user none name = ok (usermng_uninitialized, none)
  log_out_user (some manager) none = ok (usermng_username_uninitialized, some manager)
  log_out_user (some manager) (some name) = with_user manager name λ pointer. do
    user ← deref manager.heap pointer
    ok (
      usermng_success,
      some (record manager { heap = assign manager.heap pointer (deactivate_user L user).1 }),
    )

  abbrev pub add_group_result : UserResult → UserMngResult
  add_group_result user_success = usermng_success
  add_group_result user_group_already_exists = usermng_duplicate
  add_group_result _ = usermng_general_error

  unfoldable pub add_group_to_user :
      Option UsrMng → Option Text → Option Text → Exec (UserMngResult × Option UsrMng)
  unfolding with_user
  add_group_to_user none group name = ok (usermng_uninitialized, none)
  add_group_to_user (some manager) none name = ok (usermng_groupname_uninitialized, some manager)
  add_group_to_user (some manager) (some group) none =
      ok (usermng_username_uninitialized, some manager)
  add_group_to_user (some manager) (some group) (some name) = with_user manager name λ pointer. do
    user ← deref manager.heap pointer
    let (status, user') = add_group L user (some group)
    ok (add_group_result status, some (record manager { heap = assign manager.heap pointer user' }))

  abbrev pub remove_group_result : UserResult → UserMngResult
  remove_group_result user_success = usermng_success
  remove_group_result user_group_not_found = usermng_group_not_found
  remove_group_result _ = usermng_general_error

  unfoldable pub remove_group_from_user :
      Option UsrMng → Option Text → Option Text → Exec (UserMngResult × Option UsrMng)
  unfolding with_user
  remove_group_from_user none group name = ok (usermng_uninitialized, none)
  remove_group_from_user (some manager) none name =
      ok (usermng_groupname_uninitialized, some manager)
  remove_group_from_user (some manager) (some group) none =
      ok (usermng_username_uninitialized, some manager)
  remove_group_from_user (some manager) (some group) (some name) = with_user manager name λ pointer.
      do
        user ← deref manager.heap pointer
        let (status, user') = remove_group L user (some group)
        ok (
          remove_group_result status,
          some (record manager { heap = assign manager.heap pointer user' }),
        )

  -- What `RemoveAllGroups` returns is not looked at. The flag is the outcome of `HashMapCreate`.
  unfoldable pub remove_all_groups_from_user :
      Bool → Option UsrMng → Option Text → Exec (UserMngResult × Option UsrMng)
  unfolding with_user
  remove_all_groups_from_user created none name = ok (usermng_uninitialized, none)
  remove_all_groups_from_user created (some manager) none =
      ok (usermng_username_uninitialized, some manager)
  remove_all_groups_from_user created (some manager) (some name) = with_user manager name λ pointer.
      do
        user ← deref manager.heap pointer
        let (status, user') = remove_all_groups L created user
        ok (usermng_success, some (record manager { heap = assign manager.heap pointer user' }))
