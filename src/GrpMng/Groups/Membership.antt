-- ===== src/GrpMng/Groups/Membership.antt =====
-- Users who join and leave groups: `AddUserToGroup`, `RemoveUserFromGroup` and `RemoveUserFromAllGroups`.
use ipc_project.Base.{
  ℕ, Option, none, some, List, [], ◌∷◌, not, if◌then◌else◌, Exec, ok, ◌>>=◌, or_fault,
}
use ipc_project.CLib.{Text}
use ipc_project.Containers.HashMap.{HashMapLib}
use ipc_project.Containers.Queue.{QueueLib}
use ipc_project.Group.{
  Group, GroupResult, group_success, group_user_already_exists, group_user_not_found, add_user,
  remove_user,
}
use ipc_project.GrpMng.Groups.{
  GrpMng, GroupMngResult, groupmng_success, groupmng_uninitialized,
  groupmng_group_name_uninitialized, groupmng_user_name_uninitialized,
  groupmng_groupipout_uninitialized, groupmng_duplicate, groupmng_user_does_not_exist,
  groupmng_general_error, is_map_success, find_error, deref, assign,
}

module _ (L : HashMapLib) (Q : QueueLib) where
  abbrev pub add_user_result : GroupResult → GroupMngResult
  add_user_result group_success = groupmng_success
  add_user_result group_user_already_exists = groupmng_duplicate
  add_user_result _ = groupmng_general_error

  unfoldable pub add_user_to_group :
      Option (GrpMng L Q)
      → Option Text
      → Option Text
      → Option ℕ
      → Exec (GroupMngResult × Option Text × Option (GrpMng L Q))
  add_user_to_group none user name out = ok (groupmng_uninitialized, none, none)
  add_user_to_group (some manager) none name out =
      ok (groupmng_user_name_uninitialized, none, some manager)
  add_user_to_group (some manager) (some user) none out =
      ok (groupmng_group_name_uninitialized, none, some manager)
  add_user_to_group (some manager) (some user) (some name) none =
      ok (groupmng_groupipout_uninitialized, none, some manager)
  add_user_to_group (some manager) (some user) (some name) (some size) =
      let (status, pointer) = L.find (Option ℕ) manager.group_map name in
      if not (is_map_success status) then ok (find_error status, none, some manager) else (do
        address ← or_fault pointer
        group ← deref L Q manager.heap address
        r ← add_user L group (some user) (some size)
        ok (
          add_user_result r.0,
          r.1,
          some (record manager { heap = assign L Q manager.heap address r.2 }),
        ))

  abbrev pub remove_user_result : GroupResult → GroupMngResult
  remove_user_result group_success = groupmng_success
  remove_user_result group_user_not_found = groupmng_user_does_not_exist
  remove_user_result _ = groupmng_general_error

  unfoldable pub remove_user_from_group :
      Option (GrpMng L Q) → Option Text → Option Text → Exec (GroupMngResult × Option (GrpMng L Q))
  remove_user_from_group none user name = ok (groupmng_uninitialized, none)
  remove_user_from_group (some manager) none name =
      ok (groupmng_user_name_uninitialized, some manager)
  remove_user_from_group (some manager) (some user) none =
      ok (groupmng_group_name_uninitialized, some manager)
  remove_user_from_group (some manager) (some user) (some name) =
      let (status, pointer) = L.find (Option ℕ) manager.group_map name in
      if not (is_map_success status) then ok (find_error status, some manager) else (do
        address ← or_fault pointer
        group ← deref L Q manager.heap address
        let (result, group') = remove_user L group (some user)
        ok (
          remove_user_result result,
          some (record manager { heap = assign L Q manager.heap address group' }),
        ))

  -- `HashMapForEach` with `GroupRemoveUser`, which goes on whatever `RemoveUser` answers.
  unfoldable pub remove_from_each :
      Text → List (Text × Option ℕ) → List (Option (Group L)) → Exec (List (Option (Group L)))
  remove_from_each user [] heap = ok heap
  remove_from_each user ((key, pointer) ∷ rest) heap = do
    group ← deref L Q heap pointer
    let (result, group') = remove_user L group (some user)
    remove_from_each user rest (assign L Q heap pointer group')

  unfoldable pub remove_user_from_all_groups :
      Option (GrpMng L Q) → Option Text → Exec (GroupMngResult × Option (GrpMng L Q))
  unfolding remove_from_each
  remove_user_from_all_groups none user = ok (groupmng_uninitialized, none)
  remove_user_from_all_groups (some manager) none =
      ok (groupmng_user_name_uninitialized, some manager)
  remove_user_from_all_groups (some manager) (some user) = do
    heap ← remove_from_each user (L.entries (Option ℕ) manager.group_map) manager.heap
    ok (groupmng_success, some (record manager { heap = heap }))
