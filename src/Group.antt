-- ===== src/Group.antt =====
-- group.h and group.c: a group with its multicast address and a map of users.
--
-- A `Group*` is an `Option Group`, NULL being `none`; a function that changes the group returns it.
-- The map of users keeps the pointers that it is given; the model keeps the texts that they point to.
use ipc_project.Base.{
  ℕ, Bool, true, false, Option, none, some, not, ◌||◌, if◌then◌else◌, Exec, ok, ◌>>=◌,
}
use ipc_project.CLib.{Text, strcmp_eq, copy_string}
use ipc_project.CLib.Atoi.{atoi, remainder_size}
use ipc_project.Containers.HashMap.{
  HashMapLib, MapResult, map_key_duplicate_error, map_key_not_found_error,
}

abbrev pub user_map_capacity : ℕ
user_map_capacity = 100

abbrev pub group_string_size : ℕ
group_string_size = 30

pub data GroupResult : Type 0 where
  group_success group_uninitialized group_username_uninitialized : GroupResult
  group_groupnamecopy_uninitialized group_groupipout_uninitialized : GroupResult
  group_user_already_exists group_user_not_found : GroupResult

unfoldable pub grp_hash_function : Text → ℕ
grp_hash_function key = remainder_size (atoi key) user_map_capacity

unfoldable pub grp_equality_function : Text → Text → Bool
grp_equality_function first second = if strcmp_eq first second then true else false

-- A `char*` to an address: to memory of its own, or to the array inside a group that was freed,
-- which may no longer be read.
pub data AddressPointer : Type 0 where
  owned : Text → AddressPointer
  dangling : AddressPointer

abbrev pub read_address : AddressPointer → Exec Text
read_address (owned text) = ok text
read_address dangling = Exec.fault

-- Which of the allocations of `GroupCreate` succeed; `HashMapCreate` is one of them.
pub record GroupMemory : Type 0 where
  pub for_group : Bool
  pub for_users : Bool

module _ (L : HashMapLib) where
  pub record Group : Type 0 where
    pub group_name : Text
    pub group_ip : Text
    pub users : L.Map Text
    pub num_of_users : ℕ

  abbrev pub new_users : L.Map Text
  new_users = L.create Text user_map_capacity grp_hash_function grp_equality_function

  unfoldable pub group_create :
      GroupMemory → Option Text → Option AddressPointer → Exec (Option Group)
  group_create memory none ip = ok none
  group_create memory (some name) none = ok none
  group_create memory (some name) (some ip) =
      if not memory.for_group || not memory.for_users then ok none else (do
        name_copy ← copy_string group_string_size name
        ip_text ← read_address ip
        ip_copy ← copy_string group_string_size ip_text
        ok (
            some (record {
              group_name = name_copy;
              group_ip = ip_copy;
              users = new_users;
              num_of_users = 0;
            })))

  -- The last argument is the size of the array for the address, NULL being `none`; the second result
  -- is what is written to it. Of the errors of the map only a duplicate ends the call.
  abbrev pub finish_add_user :
      MapResult → Group → ℕ → Exec (GroupResult × Option Text × Option Group)
  finish_add_user map_key_duplicate_error group size =
      ok (group_user_already_exists, none, some group)
  finish_add_user _ group size = do
    address ← copy_string size group.group_ip
    ok (group_success, some address, some group)

  unfoldable pub add_user :
      Option Group → Option Text → Option ℕ → Exec (GroupResult × Option Text × Option Group)
  add_user none name out = ok (group_uninitialized, none, none)
  add_user (some group) none out = ok (group_username_uninitialized, none, some group)
  add_user (some group) (some name) none = ok (group_groupipout_uninitialized, none, some group)
  add_user (some group) (some name) (some size) =
      let (status, users) = L.insert Text group.users name name in
      finish_add_user status (record group { users = users }) size

  abbrev pub remove_user_status : MapResult → GroupResult
  remove_user_status map_key_not_found_error = group_user_not_found
  remove_user_status _ = group_success

  unfoldable pub remove_user : Option Group → Option Text → GroupResult × Option Group
  remove_user none name = (group_uninitialized, none)
  remove_user (some group) none = (group_username_uninitialized, some group)
  remove_user (some group) (some name) =
      let r = L.remove Text group.users name in
      (remove_user_status r.0, some (record group { users = r.2 }))

  unfoldable pub get_group_name : Option Group → Option ℕ → Exec (GroupResult × Option Text)
  get_group_name none copy = ok (group_uninitialized, none)
  get_group_name (some group) none = ok (group_groupnamecopy_uninitialized, none)
  get_group_name (some group) (some size) = do
    text ← copy_string size group.group_name
    ok (group_success, some text)
