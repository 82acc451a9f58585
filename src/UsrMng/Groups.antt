-- ===== src/UsrMng/Groups.antt =====
-- `AddGroupToUser` and `RemoveGroupFromUser` of usr_mng.c, for a user who has a map of groups.
use ipc_project.Base.{
  ◌≡◌, ◌≢◌, refl, subst, ◌∙◌, inl, inr, true, false, Bool-cases, some, set, if◌then◌else◌,
}
use ipc_project.CLib.{Text, strcmp_eq}
use ipc_project.Containers.HashMap.{HashMapLib, IsLawful, map_allocation_error}
use ipc_project.Containers.Names.{is_in, insert-is_in, remove-is_in}
use ipc_project.User.{User, add_group, remove_group, insert_user_group, remove_group_key}
use ipc_project.UsrMng.{
  UsrMng, usermng_success, usermng_duplicate, usermng_group_not_found, add_group_to_user,
  remove_group_from_user,
}
use ipc_project.Containers.Objects.{updated, object_of-address}
use ipc_project.UsrMng.Directory.{
  GroupsKeyed, user_of, IsKept, IsValid, with_user_registered, deref_address, replaced,
}
use ipc_project.UsrMng.Spec.{Refines}

module _ (L : HashMapLib) (H : IsLawful L) (m : UsrMng L) (v : IsValid L H m) (name : Text)
    (u : User L) (groups : L.Map Text) (at : user_of L m name ≡ some u)
    (has_groups : u.groups ≡ some groups) (group : Text) where
  abbrev with_groups : L.Map Text → User L
  with_groups groups' = record u { groups = some groups' }

  with_groups-IsKept :
      (groups' : L.Map Text)
      → IsKept L H name u
      → H.Keyed Text groups'
      → IsKept L H name (with_groups groups')
  with_groups-IsKept groups' k keyed = record {
    named = k.named;
    name_fits = k.name_fits;
    password_fits = k.password_fits;
    groups_keyed = keyed;
  }

  groups-Keyed : IsKept L H name u → H.Keyed Text groups
  groups-Keyed k = subst (GroupsKeyed L H) has_groups k.groups_keyed

  -- A group is added to the groups of a user, or is one of them already, which is reported as a
  -- duplicate. No other group of the user and no other user changes, and the manager stays valid. The
  -- user has a map of groups with room for one more.
  pub add_group_to_user-Refines :
      (L.insert Text groups group group).0 ≢ map_allocation_error
      → (groups' : L.Map Text) × ((other : Text)
          → is_in L groups' other ≡ (if strcmp_eq group other then true else is_in L groups other))
        × Refines L H (add_group_to_user L (some m) (some group) (some name)) (
          if is_in L groups group then usermng_duplicate else usermng_success,
          updated (user_of L m) name (record u { groups = some groups' }),
        )
  unfolding add_group_to_user add_group insert_user_group
  add_group_to_user-Refines not_full =
      let (a, e, here, k) = object_of-address L H (IsKept L H) m.user_map m.heap name u v at in
      let (groups', inserted, keyed, law) =
        insert-is_in L H groups (groups-Keyed k) group not_full in
      let kept = with_groups-IsKept groups' k keyed in
      let user' = with_groups groups' in
      (
        groups',
        law,
        (
          record m { heap = set m.heap a (some user') },
          with_user_registered L H m name a _ v e
              ∙ rw (deref_address L H m.heap a u here, has_groups, inserted)
                  (elim (Bool-cases (is_in L groups group)) [
                    | inl present ↦ rw present refl
                    | inr absent ↦ rw absent refl
                  ]),
          (replaced L H m name a u user' v e here kept).0,
          (replaced L H m name a u user' v e here kept).1,
        ),
      )

  -- A group is removed from the groups of a user; one that is not among them is reported. No other
  -- group of the user and no other user changes, and the manager stays valid. The user has a map of
  -- groups.
  pub remove_group_from_user-Refines :
      (groups' : L.Map Text) × ((other : Text)
        → is_in L groups' other ≡ (if strcmp_eq other group then false else is_in L groups other))
      × Refines L H (remove_group_from_user L (some m) (some group) (some name)) (
        if is_in L groups group then usermng_success else usermng_group_not_found,
        updated (user_of L m) name (record u { groups = some groups' }),
      )
  unfolding remove_group_from_user remove_group remove_group_key
  remove_group_from_user-Refines =
      let (a, e, here, k) = object_of-address L H (IsKept L H) m.user_map m.heap name u v at in
      let (pair, groups', removed, keyed, law) = remove-is_in L H groups (groups-Keyed k) group in
      let kept = with_groups-IsKept groups' k keyed in
      let user' = with_groups groups' in
      (
        groups',
        law,
        (
          record m { heap = set m.heap a (some user') },
          with_user_registered L H m name a _ v e
              ∙ rw (deref_address L H m.heap a u here, has_groups, removed)
                  (elim (Bool-cases (is_in L groups group)) [
                    | inl present ↦ rw present refl
                    | inr absent ↦ rw absent refl
                  ]),
          (replaced L H m name a u user' v e here kept).0,
          (replaced L H m name a u user' v e here kept).1,
        ),
      )
