-- ===== src/Tests/Groups.antt =====
-- The group manager over association lists and list queues.
use ipc_project.Base.{
  ℕ, ◌≡◌, ◌≢◌, inl, inr, refl, true, Bool-cases, Option, Option-cases, none, some, List, map, All,
  subst, ◌<◌, ◌∷◌, [], length, arith, ok, fault, ◌>>=◌, if◌then◌else◌,
}
use ipc_project.CLib.{Text, calloc, c_string, strcmp_eq}
use ipc_project.CLib.Strings.{strcmp_eq_iff}
use ipc_project.Containers.Entries.{lookup_by}
use ipc_project.Containers.HashMap.{map_allocation_error}
use ipc_project.Containers.HashMap.Assoc.{
  assoc_map, assoc_map-IsLawful, assoc_map-Keyed, AssocMap, insert_item,
}
use ipc_project.Containers.Queue.{list_queue, list_queue-IsLawful}
use ipc_project.Containers.Objects.{entry, object_of, Points, updated}
use ipc_project.Group.{Group, owned}
use ipc_project.GrpMng.Groups.{
  GrpMng, add_new_group, delete_group, groupmng_success, groupmng_duplicate,
  groupmng_user_does_not_exist,
}
use ipc_project.GrpMng.Groups.Membership.{
  add_user_to_group, remove_user_from_group, remove_user_from_all_groups,
}
use ipc_project.GrpMng.Directory.{group_of, IsKept, IsValid, Refines, RefinesQuietly, create_group}
use ipc_project.GrpMng.NewGroup.{plenty, add_new_group-Refines}
use ipc_project.GrpMng.Members.{
  is_member, Joins, Leaves, add_user_to_group-Refines, remove_user_from_group-Refines,
}
use ipc_project.GrpMng.LeaveAll.{LeftAt, remove_user_from_all_groups_lem}
use ipc_project.GrpMng.Deletion.{delete_group-dangling}
use ipc_project.CLib.Atoi.{digits}
use ipc_project.GrpMng.Decimal.{my_ito_a, integer_length, integer_length_loop}
use ipc_project.GrpMng.Numbers.{my_ito_a_lem}
use ipc_project.Tests.Data.{codes}

abbrev pub Manager : Type 0
Manager = GrpMng assoc_map list_queue

abbrev pub chess : Group assoc_map
chess = record {
  group_name = codes "chess";
  group_ip = codes "224.0.0.1";
  users = record { eq = strcmp_eq; items = (codes "hen", codes "hen") ∷ [] };
  num_of_users = 0;
}

-- A manager with one group, and with these addresses free.
abbrev pub one_group : List Text → Manager
one_group free = record {
  group_map = record { eq = strcmp_eq; items = (codes "chess", some 0) ∷ [] };
  groups_id = record { content = map owned free; size = 100 };
  heap = some chess ∷ [];
}

chess-IsKept : IsKept assoc_map assoc_map-IsLawful (codes "chess") chess
unfolding lookup_by
chess-IsKept = record {
  named = refl;
  name_fits = omega arith;
  ip_fits = omega arith;
  users_keyed = assoc_map-Keyed Text chess.users refl (refl, tt);
}

chess-Points :
    (free : List Text) (name : Text) (pointer : Option ℕ)
    → entry assoc_map (one_group free).group_map name ≡ some pointer
    → Points assoc_map assoc_map-IsLawful
        (IsKept assoc_map assoc_map-IsLawful)
        (one_group free).heap
        name
        pointer
unfolding lookup_by
chess-Points free name pointer e = elim (Bool-cases (strcmp_eq (codes "chess") name)) [
  | inl same ↦ (
    0,
    chess,
    ground (arith, e, same),
    refl,
    subst (λ n. IsKept assoc_map assoc_map-IsLawful n chess)
        ((strcmp_eq_iff (codes "chess") name).0 same) chess-IsKept,
  )
  | inr different ↦ absurd (ground (arith, e, different))
]

pub one_group-IsValid :
    (free : List Text)
    → All (λ ip. length ip < 15) free
    → IsValid assoc_map assoc_map-IsLawful list_queue (one_group free) free
unfolding lookup_by
one_group-IsValid free fit = record {
  sound = record {
    keyed = assoc_map-Keyed (Option ℕ) (one_group free).group_map refl (refl, tt);
    points = chess-Points free;
  };
  queued = refl;
  free_fit = fit;
}

-- An association list always has room.
pub insert_room :
    {V : Type 0} (m : AssocMap V) (k : Text) (v : V)
    → (assoc_map.insert V m k v).0 ≢ map_allocation_error
unfolding insert_item
insert_room m k v e = elim (Option-cases (lookup_by m.eq k m.items)) [
  | inl absent ↦ ground (arith, e, absent)
  | inr (w, present) ↦ ground (arith, e, present)
]

abbrev pub one_free : List Text
one_free = codes "224.0.0.2" ∷ []

pub one_free-IsValid : IsValid assoc_map assoc_map-IsLawful list_queue (one_group one_free) one_free
one_free-IsValid = one_group-IsValid one_free (omega arith, tt)

add_new_group-Refines_example :
    Refines assoc_map assoc_map-IsLawful list_queue
      (add_new_group assoc_map list_queue plenty true
        (some (one_group one_free))
        (some (codes "go"))
        (some 15))
      (create_group assoc_map assoc_map-IsLawful list_queue
        (group_of assoc_map list_queue (one_group one_free) (codes "go"))
        (group_of assoc_map list_queue (one_group one_free))
        one_free
        (codes "go"))
add_new_group-Refines_example =
    add_new_group-Refines assoc_map assoc_map-IsLawful list_queue list_queue-IsLawful
      (one_group one_free) (codes "go") (omega arith) 15 (omega arith) one_free one_free-IsValid
      (insert_room (one_group one_free).group_map (codes "go") (some 1))

add_user_to_group-Refines_example :
    (g' : Group assoc_map) × Joins assoc_map (codes "dana") chess g'
    × Refines assoc_map assoc_map-IsLawful list_queue
        (add_user_to_group assoc_map list_queue
          (some (one_group one_free))
          (some (codes "dana"))
          (some (codes "chess"))
          (some 15))
        (record {
          status =
              if is_member assoc_map chess (codes "dana")
              then groupmng_duplicate
              else groupmng_success;
          address =
              if is_member assoc_map chess (codes "dana") then none else some (codes "224.0.0.1");
          directory =
              updated (group_of assoc_map list_queue (one_group one_free)) (codes "chess") g';
          free = one_free;
        })
unfolding object_of lookup_by strcmp_eq
add_user_to_group-Refines_example =
    add_user_to_group-Refines assoc_map assoc_map-IsLawful list_queue (one_group one_free) one_free
      one_free-IsValid (codes "chess") (codes "dana") chess 15 refl (omega arith)
      (insert_room chess.users (codes "dana") (codes "dana"))

remove_user_from_group-Refines_example :
    (g' : Group assoc_map) × Leaves assoc_map (codes "hen") chess g'
    × RefinesQuietly assoc_map assoc_map-IsLawful list_queue
        (remove_user_from_group assoc_map list_queue
          (some (one_group one_free))
          (some (codes "hen"))
          (some (codes "chess")))
        (record {
          status =
              if is_member assoc_map chess (codes "hen")
              then groupmng_success
              else groupmng_user_does_not_exist;
          address = none;
          directory =
              updated (group_of assoc_map list_queue (one_group one_free)) (codes "chess") g';
          free = one_free;
        })
unfolding object_of lookup_by strcmp_eq
remove_user_from_group-Refines_example =
    remove_user_from_group-Refines assoc_map assoc_map-IsLawful list_queue (one_group one_free)
      one_free one_free-IsValid (codes "chess") (codes "hen") chess refl

remove_user_from_all_groups_lem_example :
    (m' : Manager) × (remove_user_from_all_groups assoc_map list_queue
        (some (one_group one_free))
        (some (codes "hen"))
      ≡ ok (groupmng_success, some m'))
    × IsValid assoc_map assoc_map-IsLawful list_queue m' one_free
    × ((name : Text)
        → LeftAt assoc_map
            (codes "hen")
            (group_of assoc_map list_queue (one_group one_free) name)
            (group_of assoc_map list_queue m' name))
remove_user_from_all_groups_lem_example =
    remove_user_from_all_groups_lem assoc_map assoc_map-IsLawful list_queue (one_group one_free)
      one_free (codes "hen") one_free-IsValid

delete_group-dangling_example :
    (m' : Manager) × (delete_group assoc_map list_queue (some (one_group [])) (some (codes "chess"))
      ≡ ok (groupmng_success, some m'))
    × (add_new_group assoc_map list_queue plenty true (some m') (some (codes "go")) (some 15)
        ≡ fault)
unfolding object_of lookup_by strcmp_eq
delete_group-dangling_example =
    delete_group-dangling assoc_map assoc_map-IsLawful list_queue list_queue-IsLawful (one_group [])
      (codes "chess") chess (codes "go") 15 (one_group-IsValid [] tt) refl (omega arith)
      (omega arith)

my_ito_a_lem_example :
    (text : Text) × ((my_ito_a 37 (calloc 5) >>= c_string) ≡ ok text)
    × (digits 0 text ≡ 37)
    × (length text ≡ integer_length 37)
unfolding c_string integer_length integer_length_loop
my_ito_a_lem_example = my_ito_a_lem 37 (calloc 5) [] refl (omega arith)
