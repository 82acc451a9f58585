-- ===== src/GrpMng/LeaveAll.antt =====
-- `RemoveUserFromAllGroups` of grp_mng.c, a visit of every entry of the map.
use ipc_project.Base.{
  ℕ, ◌≡◌, refl, subst, ap, ◌∙◌, inl, inr, true, Bool-cases, Option, Option-cases, none, some, List,
  [], ◌∷◌, set, get_elem?, if◌then◌else◌, arith, ok,
}
use ipc_project.CLib.{Text, strcmp_eq}
use ipc_project.CLib.Strings.{strcmp_eq_iff}
use ipc_project.Containers.Entries.{lookup, lookup_by, Distinct}
use ipc_project.Containers.HashMap.{HashMapLib, IsLawful}
use ipc_project.Containers.Queue.{QueueLib}
use ipc_project.Containers.Objects.{entry, object_of, IsSound, changed-IsSound, object_of-changed}
use ipc_project.Group.{Group, GroupResult, remove_user}
use ipc_project.GrpMng.Groups.{GrpMng, groupmng_success}
use ipc_project.GrpMng.Groups.Membership.{remove_from_each, remove_user_from_all_groups}
use ipc_project.GrpMng.Directory.{group_of, IsKept, IsValid}
use ipc_project.GrpMng.Members.{Leaves, remove_user-Leaves, deref_address}

module _ (L : HashMapLib) (user : Text) where
  -- What is under a name before and after the user leaves.
  abbrev pub LeftAt : Option (Group L) → Option (Group L) → Type 0
  LeftAt none after = after ≡ none
  LeftAt (some g) after = (g' : Group L) × (after ≡ some g') × Leaves L user g g'

  -- The same for a visit of some of the names.
  abbrev pub VisitedAt : Option (Option ℕ) → Option (Group L) → Option (Group L) → Type 0
  VisitedAt none before after = after ≡ before
  VisitedAt (some pointer) before after = LeftAt before after

lookup-tail :
    {V : Type 0} (key k : Text) (v w : V) (rest : List (Text × V))
    → lookup key rest ≡ none
    → lookup k rest ≡ some w
    → lookup k ((key, v) ∷ rest) ≡ some w
unfolding lookup_by
lookup-tail key k v w rest absent at = elim (Bool-cases (strcmp_eq key k)) [
  | inl same ↦
      let gone : lookup k rest ≡ none =
        subst (λ x. lookup x rest ≡ none) ((strcmp_eq_iff key k).0 same) absent in
      absurd (ground (arith, gone, at))
  | inr different ↦ rw different at
]

-- A visit of the first name and then of the rest.
visited_first :
    (L : HashMapLib) (user key name : Text) (pointer : Option ℕ) (rest : List (Text × Option ℕ))
    (before middle after : Option (Group L)) (g g' : Group L)
    → lookup key rest ≡ none
    → Leaves L user g g'
    → (strcmp_eq key name ≡ true → before ≡ some g)
    → middle ≡ (if strcmp_eq key name then some g' else before)
    → VisitedAt L user (lookup name rest) middle after
    → VisitedAt L user (lookup name ((key, pointer) ∷ rest)) before after
unfolding lookup_by
visited_first L user key name pointer rest before middle after g g' absent leaves here step
      visited =
    elim (Bool-cases (strcmp_eq key name)) [
      | inl same ↦
          let gone : lookup name rest ≡ none =
            subst (λ x. lookup x rest ≡ none) ((strcmp_eq_iff key name).0 same) absent in
          let unvisited : after ≡ middle =
            subst (λ o. VisitedAt L user o middle after) gone visited in
          let end : after ≡ some g' = unvisited ∙ step ∙ rw same refl in
          rw (same, here same) (g', end, leaves)
      | inr different ↦
          let skipped : middle ≡ before = step ∙ rw different refl in
          rw different (subst (λ o. VisitedAt L user (lookup name rest) o after) skipped visited)
    ]

module _ (L : HashMapLib) (H : IsLawful L) (Q : QueueLib) (user : Text)
    (map : L.Map (Option ℕ)) where
  remove_from_each_first :
      (key : Text) (pointer : Option ℕ) (rest : List (Text × Option ℕ))
      (heap : List (Option (Group L))) (a : ℕ) (g g' : Group L) (result : GroupResult)
      → pointer ≡ some a
      → get_elem? heap a ≡ some (some g)
      → remove_user L (some g) (some user) ≡ (result, some g')
      → remove_from_each L Q user ((key, pointer) ∷ rest) heap
        ≡ remove_from_each L Q user rest (set heap a (some g'))
  unfolding remove_from_each
  remove_from_each_first key pointer rest heap a g g' result p at removed =
      rw (p, deref_address L Q heap a g at, removed) refl

  remove_from_each_lem :
      (es : List (Text × Option ℕ)) (heap : List (Option (Group L)))
      → IsSound L H (IsKept L H) map heap
      → Distinct es
      → ((key : Text) (p : Option ℕ) → lookup key es ≡ some p → entry L map key ≡ some p)
      → (heap' : List (Option (Group L))) × (remove_from_each L Q user es heap ≡ ok heap')
        × IsSound L H (IsKept L H) map heap'
        × ((name : Text)
            → VisitedAt L user
                (lookup name es)
                (object_of L map heap name)
                (object_of L map heap' name))
  unfolding remove_from_each lookup_by object_of
  remove_from_each_lem [] heap v d listed = (heap, refl, v, λ name. refl)
  remove_from_each_lem ((key, pointer) ∷ rest) heap v (absent, d) listed =
      let self : strcmp_eq key key ≡ true = (strcmp_eq_iff key key).1 refl in
      let e : entry L map key ≡ some pointer = listed key pointer (rw self refl) in
      let (a, g, p, at, k) = v.points key pointer e in
      let e' : entry L map key ≡ some (some a) = e ∙ ap some p in
      let (g', removed, leaves, kept) = remove_user-Leaves L H key g k user in
      let heap1 = set heap a (some g') in
      let sound1 =
        changed-IsSound L H (IsKept L H) (λ q. q.group_name) (λ n q h. h.named) map heap key a g g'
          v e' at kept in
      let view1 =
        object_of-changed L H (IsKept L H) (λ q. q.group_name) (λ n q h. h.named) map heap key a g
          g' v e' at in
      let (heap', ran, sound', visited) =
        remove_from_each_lem rest heap1 sound1 d
          (λ name q l. listed name q (lookup-tail key name pointer q rest absent l)) in
      (
        heap',
        remove_from_each_first key pointer rest heap a g g' _ p at removed ∙ ran,
        sound',
        λ name.
            visited_first L user key name pointer rest (object_of L map heap name)
              (object_of L map heap1 name) (object_of L map heap' name) g g' absent leaves
              (λ same.
                subst (λ n. object_of L map heap n ≡ some g) ((strcmp_eq_iff key name).0 same)
                  (rw (e', at) refl))
              (view1 name) (visited name),
      )

module _ (L : HashMapLib) (H : IsLawful L) (Q : QueueLib) where
  -- A user who leaves all groups is then a member of none. Every group keeps its name, its address
  -- and its other members, no group comes or goes, and the manager stays valid. It ends with no
  -- fault and reports success.
  pub remove_user_from_all_groups_lem :
      (m : GrpMng L Q) (free : List Text) (user : Text)
      → IsValid L H Q m free
      → (m' : GrpMng L Q) × (remove_user_from_all_groups L Q (some m) (some user)
          ≡ ok (groupmng_success, some m'))
        × IsValid L H Q m' free
        × ((name : Text) → LeftAt L user (group_of L Q m name) (group_of L Q m' name))
  unfolding remove_user_from_all_groups object_of
  remove_user_from_all_groups_lem m free user v =
      let (heap, ran, sound, visited) =
        remove_from_each_lem L H Q user m.group_map (L.entries (Option ℕ) m.group_map) m.heap
          v.sound (H.entries-Distinct (Option ℕ) m.group_map v.sound.keyed) (λ key p e. e) in
      (
        record m { heap = heap },
        rw ran refl,
        record { sound = sound; queued = v.queued; free_fit = v.free_fit },
        λ name. elim (Option-cases (entry L m.group_map name)) [
          | inl absent ↦ rw absent refl
          | inr (p, e) ↦
              subst
                (λ o. VisitedAt L user o (group_of L Q m name) (object_of L m.group_map heap name))
                e (visited name)
        ],
      )
