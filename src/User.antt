-- ===== src/User.antt =====
-- user.h and user.c: a registered user with a map of groups.
--
-- A `User*` is an `Option User`, NULL being `none`; a function that changes the user returns it. The
-- outcome of each allocation is an argument. The map of groups keeps the pointers that it is given,
-- as its keys and as its values; the model keeps the texts that they point to.
use ipc_project.Base.{
  ℕ, Bool, true, false, Option, none, some, not, ◌||◌, if◌then◌else◌, Exec, ok, ◌>>=◌,
}
use ipc_project.CLib.{Text, strcmp_eq, copy_string}
use ipc_project.CLib.Atoi.{atoi, remainder_size}
use ipc_project.Containers.HashMap.{
  HashMapLib, MapResult, map_key_duplicate_error, map_key_not_found_error, map_uninitialized_error,
}

abbrev pub group_map_capacity : ℕ
group_map_capacity = 100

abbrev pub user_string_size : ℕ
user_string_size = 30

pub data UserResult : Type 0 where
  user_success user_uninitialized user_username_copy_uninitialized : UserResult
  user_password_copy_uninitialized user_isactive_copy_uninitialized : UserResult
  user_groupname_uninitialized user_group_already_exists user_group_not_found : UserResult
  user_general_error : UserResult

unfoldable pub usr_hash_function : Text → ℕ
usr_hash_function key = remainder_size (atoi key) group_map_capacity

unfoldable pub usr_equality_function : Text → Text → Bool
usr_equality_function first second = if strcmp_eq first second then true else false

-- Which of the allocations of `UserCreate` succeed; `HashMapCreate` is one of them.
pub record UserMemory : Type 0 where
  pub for_user : Bool
  pub for_name : Bool
  pub for_password : Bool
  pub for_groups : Bool

module _ (L : HashMapLib) where
  -- The pointer to the map is NULL after a failed `RemoveAllGroups`.
  pub record User : Type 0 where
    pub user_name : Text
    pub password : Text
    pub is_active : ℕ
    pub groups : Option (L.Map Text)

  abbrev pub new_groups : L.Map Text
  new_groups = L.create Text group_map_capacity usr_hash_function usr_equality_function

  unfoldable pub user_create : UserMemory → Option Text → Option Text → Exec (Option User)
  user_create memory none password = ok none
  user_create memory (some name) none = ok none
  user_create memory (some name) (some password) =
      if not memory.for_user
        || not memory.for_name
        || not memory.for_password
        || not memory.for_groups
      then ok none
      else (do
        name_copy ← copy_string user_string_size name
        password_copy ← copy_string user_string_size password
        ok (
            some (record {
              user_name = name_copy;
              password = password_copy;
              is_active = 0;
              groups = some new_groups;
            })))

  unfoldable pub activate_user : Option User → UserResult × Option User
  activate_user none = (user_uninitialized, none)
  activate_user (some user) = (user_success, some (record user { is_active = 1 }))

  unfoldable pub deactivate_user : Option User → UserResult × Option User
  deactivate_user none = (user_uninitialized, none)
  deactivate_user (some user) = (user_success, some (record user { is_active = 0 }))

  -- The copy is an array of so many bytes; the second result is what is written to it, if anything.
  unfoldable pub get_user_name : Option User → Option ℕ → Exec (UserResult × Option Text)
  get_user_name none copy = ok (user_uninitialized, none)
  get_user_name (some user) none = ok (user_username_copy_uninitialized, none)
  get_user_name (some user) (some size) = do
    text ← copy_string size user.user_name
    ok (user_success, some text)

  unfoldable pub get_password : Option User → Option ℕ → Exec (UserResult × Option Text)
  get_password none copy = ok (user_uninitialized, none)
  get_password (some user) none = ok (user_password_copy_uninitialized, none)
  get_password (some user) (some size) = do
    text ← copy_string size user.password
    ok (user_success, some text)

  -- The flag says whether the pointer to the copy is not NULL.
  unfoldable pub is_active : Option User → Bool → UserResult × Option ℕ
  is_active none copy = (user_uninitialized, none)
  is_active (some user) false = (user_isactive_copy_uninitialized, none)
  is_active (some user) true = (user_success, some user.is_active)

  -- `HashMapInsert` and `HashMapRemove` answer a NULL map with an error.
  unfoldable pub insert_user_group : Option (L.Map Text) → Text → MapResult × Option (L.Map Text)
  insert_user_group none name = (map_uninitialized_error, none)
  insert_user_group (some groups) name =
      let (status, groups') = L.insert Text groups name name in (status, some groups')

  unfoldable pub remove_group_key : Option (L.Map Text) → Text → MapResult × Option (L.Map Text)
  remove_group_key none name = (map_uninitialized_error, none)
  remove_group_key (some groups) name = let r = L.remove Text groups name in (r.0, some r.2)

  -- Of the errors only a duplicate is reported.
  abbrev pub add_group_status : MapResult → UserResult
  add_group_status map_key_duplicate_error = user_group_already_exists
  add_group_status _ = user_success

  unfoldable pub add_group : Option User → Option Text → UserResult × Option User
  unfolding insert_user_group
  add_group none name = (user_uninitialized, none)
  add_group (some user) none = (user_groupname_uninitialized, some user)
  add_group (some user) (some name) =
      let (status, groups') = insert_user_group user.groups name in
      (add_group_status status, some (record user { groups = groups' }))

  abbrev pub remove_group_status : MapResult → UserResult
  remove_group_status map_key_not_found_error = user_group_not_found
  remove_group_status _ = user_success

  unfoldable pub remove_group : Option User → Option Text → UserResult × Option User
  unfolding remove_group_key
  remove_group none name = (user_uninitialized, none)
  remove_group (some user) none = (user_groupname_uninitialized, some user)
  remove_group (some user) (some name) =
      let (status, groups') = remove_group_key user.groups name in
      (remove_group_status status, some (record user { groups = groups' }))

  -- The flag is the outcome of `HashMapCreate`.
  unfoldable pub remove_all_groups : Bool → Option User → UserResult × Option User
  remove_all_groups created none = (user_uninitialized, none)
  remove_all_groups false (some user) = (user_general_error, some (record user { groups = none }))
  remove_all_groups true (some user) =
      (user_success, some (record user { groups = some new_groups }))
