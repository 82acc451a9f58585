-- ===== src/Tests/Reached.antt =====
-- Two groups that are made one after the other in a new manager.
use ipc_project.Base.{
  ◌≡◌, ◌≢◌, ◌∙◌, refl, none, some, true, ◌<◌, [], subst, if◌then◌else◌, length, arith, Option, List,
  ◌∷◌,
}
use ipc_project.CLib.{Text, calloc, c_string, strcmp_eq}
use ipc_project.Containers.HashMap.Assoc.{assoc_map, assoc_map-IsLawful}
use ipc_project.Containers.Queue.{list_queue, list_queue-IsLawful}
use ipc_project.Group.{Group}
use ipc_project.GrpMng.Decimal.{integer_length, integer_length_loop}
use ipc_project.GrpMng.Numbers.{fixed_digits}
use ipc_project.GrpMng.Groups.{add_new_group}
use ipc_project.GrpMng.Directory.{group_of, IsValid, Refines, create_group, fresh_group}
use ipc_project.GrpMng.Creation.{addresses, grp_mng_create-addresses}
use ipc_project.GrpMng.NewGroup.{plenty, add_new_group-Refines}
use ipc_project.GrpMng.Reachable.{Reachable, created, opened, groups_apart}
use ipc_project.Tests.Data.{codes}
use ipc_project.Tests.Groups.{Manager, insert_room}

abbrev Reached : Manager → Type 0
Reached = Reachable assoc_map assoc_map-IsLawful list_queue list_queue-IsLawful

abbrev of_name : Manager → Text → Option (Group assoc_map)
of_name = group_of assoc_map list_queue

abbrev made : Text → Text → Group assoc_map
made = fresh_group assoc_map assoc_map-IsLawful list_queue

abbrev Valid : Manager → List Text → Type 0
Valid = IsValid assoc_map assoc_map-IsLawful list_queue

opened_group :
    (m : Manager) (name ip : Text) (free : List Text)
    → Reached m
    → Valid m (ip ∷ free)
    → of_name m name ≡ none
    → length name < 30
    → (m' : Manager) × Reached m'
      × Valid m' free
      × ((other : Text)
          → of_name m' other
            ≡ (if strcmp_eq name other then some (made name ip) else of_name m other))
opened_group m name ip free reach v new fits =
    let room = insert_room m.group_map name (some (length m.heap)) in
    let (m', ran, valid, view) =
      subst
        (λ o.
          Refines assoc_map assoc_map-IsLawful list_queue
            (add_new_group assoc_map list_queue plenty true (some m) (some name) (some 15))
            (create_group assoc_map assoc_map-IsLawful list_queue o (of_name m) (ip ∷ free) name))
        new
        (add_new_group-Refines assoc_map assoc_map-IsLawful list_queue list_queue-IsLawful m name
          fits 15 (omega arith) (ip ∷ free) v room) in
    (m', opened m m' name 15 _ _ reach fits (omega arith) room ran, valid, view)

-- The new manager, with the group "chess" made first, and "go" then.
two_groups :
    (m : Manager) × Reached m
    × (of_name m (codes "chess") ≡ some (made (codes "chess") (codes "224.0.0.1")))
    × (of_name m (codes "go") ≡ some (made (codes "go") (codes "224.0.0.2")))
unfolding c_string addresses strcmp_eq fixed_digits integer_length integer_length_loop
two_groups =
    let (m0, ran, valid0, nobody) =
      grp_mng_create-addresses list_queue list_queue-IsLawful assoc_map assoc_map-IsLawful
        (λ j. true) (calloc 5) [] (λ j. refl) refl refl in
    let start : Reached m0 = created m0 (λ j. true) (calloc 5) [] (λ j. refl) refl refl ran in
    let (m1, reach1, valid1, view1) =
      opened_group m0 (codes "chess") (codes "224.0.0.1") (addresses 99 2) start valid0
        (nobody (codes "chess")) (omega arith) in
    let (m2, reach2, valid2, view2) =
      opened_group m1 (codes "go") (codes "224.0.0.2") (addresses 98 3) reach1 valid1
        (view1 (codes "go") ∙ nobody (codes "go")) (omega arith) in
    (m2, reach2, view2 (codes "chess") ∙ view1 (codes "chess"), view2 (codes "go"))

groups_apart_example : codes "224.0.0.1" ≢ codes "224.0.0.2"
groups_apart_example =
    groups_apart assoc_map assoc_map-IsLawful list_queue list_queue-IsLawful {m = two_groups.0}
      (codes "chess") (codes "go") (made (codes "chess") (codes "224.0.0.1"))
      (made (codes "go") (codes "224.0.0.2")) two_groups.1 two_groups.2 two_groups.3 (λ e. cc)
