-- ===== src/Tests/Users.antt =====
-- The user manager over association lists.
use ipc_project.Base.{
  if◌then◌else◌, ℕ, ◌≡◌, inl, inr, refl, Option, some, ◌∷◌, [], true, false, Bool-cases, arith,
}
use ipc_project.CLib.{Text, strcmp_eq}
use ipc_project.CLib.Strings.{strcmp_eq_iff}
use ipc_project.Containers.Entries.{lookup_by}
use ipc_project.Containers.HashMap.Assoc.{
  assoc_map, assoc_map-IsLawful, assoc_map-Keyed, insert_item, AssocMap,
}
use ipc_project.User.{User, new_groups}
use ipc_project.UsrMng.{
  UsrMng, register_new_user, log_in_user, log_out_user, usermng_general_error, add_group_to_user,
  remove_group_from_user, usermng_duplicate, usermng_success, usermng_group_not_found,
}
use ipc_project.Containers.Objects.{Points, updated, object_of}
use ipc_project.UsrMng.Directory.{IsValid, IsKept, entry, user_of, new_groups-GroupsKeyed}
use ipc_project.UsrMng.Spec.{Refines, register, log_in, log_out}
use ipc_project.UsrMng.Sessions.{log_in_user-Refines, log_out_user-Refines}
use ipc_project.UsrMng.Registration.{plenty, register_new_user-Refines, register_new_user_no_room}
use ipc_project.Containers.Names.{is_in}
use ipc_project.UsrMng.Groups.{add_group_to_user-Refines, remove_group_from_user-Refines}
use ipc_project.Tests.Data.{codes}

abbrev pub hen : User assoc_map
hen = record {
  user_name = codes "hen";
  password = codes "group5";
  is_active = 0;
  groups = some (new_groups assoc_map);
}

-- A manager with one user.
abbrev pub one_user : UsrMng assoc_map
one_user = record {
  user_map = record { eq = strcmp_eq; items = (codes "hen", some 0) ∷ [] };
  heap = some hen ∷ [];
}

one_user-Points :
    (name : Text) (pointer : Option ℕ)
    → entry assoc_map one_user name ≡ some pointer
    → Points assoc_map assoc_map-IsLawful
        (IsKept assoc_map assoc_map-IsLawful)
        one_user.heap
        name
        pointer
unfolding lookup_by
one_user-Points name pointer e = elim (Bool-cases (strcmp_eq (codes "hen") name)) [
  | inl same ↦ (
    0,
    hen,
    ground (arith, e, same),
    refl,
    record {
      named = (strcmp_eq_iff (codes "hen") name).0 same;
      name_fits = omega arith;
      password_fits = omega arith;
      groups_keyed = new_groups-GroupsKeyed assoc_map assoc_map-IsLawful true;
    },
  )
  | inr different ↦ absurd (ground (arith, e, different))
]

pub one_user-IsValid : IsValid assoc_map assoc_map-IsLawful one_user
unfolding lookup_by
one_user-IsValid = record {
  keyed = assoc_map-Keyed (Option ℕ) one_user.user_map refl (refl, tt);
  points = one_user-Points;
}

log_in_user-Refines_example :
    Refines assoc_map assoc_map-IsLawful
      (log_in_user assoc_map (some one_user) (some (codes "hen")) (some (codes "group5")))
      (log_in assoc_map (user_of assoc_map one_user) (codes "hen") (codes "group5"))
log_in_user-Refines_example =
    log_in_user-Refines assoc_map assoc_map-IsLawful one_user (codes "hen") one_user-IsValid
      (codes "group5")

log_out_user-Refines_example :
    Refines assoc_map assoc_map-IsLawful
      (log_out_user assoc_map (some one_user) (some (codes "hen")))
      (log_out assoc_map (user_of assoc_map one_user) (codes "hen"))
log_out_user-Refines_example =
    log_out_user-Refines assoc_map assoc_map-IsLawful one_user (codes "hen") one_user-IsValid

register_new_user-Refines_example :
    Refines assoc_map assoc_map-IsLawful
      (register_new_user assoc_map plenty true
        (some one_user)
        (some (codes "dana"))
        (some (codes "1234")))
      (register assoc_map
        (user_of assoc_map one_user (codes "dana"))
        (user_of assoc_map one_user)
        (codes "dana")
        (codes "1234"))
unfolding insert_item lookup_by strcmp_eq
register_new_user-Refines_example =
    register_new_user-Refines assoc_map assoc_map-IsLawful one_user one_user-IsValid (codes "dana")
      (codes "1234") (omega arith) (omega arith) (λ e. cc)

register_new_user_no_room_example :
    Refines assoc_map assoc_map-IsLawful
      (register_new_user assoc_map plenty false
        (some one_user)
        (some (codes "dana"))
        (some (codes "1234")))
      (usermng_general_error, user_of assoc_map one_user)
register_new_user_no_room_example =
    register_new_user_no_room assoc_map assoc_map-IsLawful one_user one_user-IsValid (codes "dana")
      (codes "1234") (omega arith) (omega arith) false (inl refl)

add_group_to_user-Refines_example :
    (groups' : AssocMap Text) × ((other : Text)
      → is_in assoc_map groups' other ≡ (
          if strcmp_eq (codes "go") other
          then true
          else is_in assoc_map (new_groups assoc_map) other))
    × Refines assoc_map assoc_map-IsLawful
        (add_group_to_user assoc_map (some one_user) (some (codes "go")) (some (codes "hen")))
        (
          if is_in assoc_map (new_groups assoc_map) (codes "go")
              then usermng_duplicate
              else usermng_success,
          updated (user_of assoc_map one_user) (codes "hen") (record hen { groups = some groups' }),
        )
unfolding object_of lookup_by strcmp_eq insert_item
add_group_to_user-Refines_example =
    add_group_to_user-Refines assoc_map assoc_map-IsLawful one_user one_user-IsValid (codes "hen")
      hen (new_groups assoc_map) refl refl (codes "go") (λ e. cc)

remove_group_from_user-Refines_example :
    (groups' : AssocMap Text) × ((other : Text)
      → is_in assoc_map groups' other ≡ (
          if strcmp_eq other (codes "go")
          then false
          else is_in assoc_map (new_groups assoc_map) other))
    × Refines assoc_map assoc_map-IsLawful
        (remove_group_from_user assoc_map (some one_user) (some (codes "go")) (some (codes "hen")))
        (
          if is_in assoc_map (new_groups assoc_map) (codes "go")
              then usermng_success
              else usermng_group_not_found,
          updated (user_of assoc_map one_user) (codes "hen") (record hen { groups = some groups' }),
        )
unfolding object_of lookup_by strcmp_eq
remove_group_from_user-Refines_example =
    remove_group_from_user-Refines assoc_map assoc_map-IsLawful one_user one_user-IsValid
      (codes "hen") hen (new_groups assoc_map) refl refl (codes "go")
