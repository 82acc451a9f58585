-- ===== src/GrpMng/Reachable.antt =====
-- The states that the operations of grp_mng.c lead to. `DeleteGroup`, which no file of the program
-- calls, is not among them.
use ipc_project.Base.{
  ℕ, ◌<◌, ◌≤◌, ◌≡◌, ◌≢◌, refl, sym, ap, ◌∙◌, subst, inl, inr, Bool, true, Bool-cases, Option,
  Option-cases, none, some, List, [], ◌∷◌, arith, length, Exec, ok,
}
use ipc_project.CLib.{Block, Text, c_string, strcmp_eq}
use ipc_project.CLib.Strings.{strcmp_eq_iff}
use ipc_project.Containers.HashMap.{HashMapLib, map_allocation_error}
use ipc_project.Containers.HashMap
use ipc_project.Containers.Queue.{QueueLib}
use ipc_project.Containers.Queue
use ipc_project.Containers.Objects.{updated}
use ipc_project.Group.{Group}
use ipc_project.GrpMng.Groups.{GrpMng, GroupMngResult, grp_mng_create, add_new_group}
use ipc_project.GrpMng.Groups.Membership.{
  add_user_to_group, remove_user_from_group, remove_user_from_all_groups,
}
use ipc_project.GrpMng.Directory.{group_of, IsValid, create_group}
use ipc_project.GrpMng.Creation.{addresses, grp_mng_create-addresses}
use ipc_project.GrpMng.NewGroup.{plenty, insert_status, add_new_group-Refines}
use ipc_project.GrpMng.Members.{
  join_status, add_user_to_group-Refines, remove_user_from_group-Refines, no_such_group,
}
use ipc_project.GrpMng.LeaveAll.{LeftAt, remove_user_from_all_groups_lem}
use ipc_project.GrpMng.Addresses.{
  IsApart, ip_of, addresses-IsApart, same-IsApart, taken-IsApart, lost-IsApart,
}

module _ (L : HashMapLib) (H : HashMap.IsLawful L) (Q : QueueLib) (K : Queue.IsLawful Q) where
  -- A manager that was created, and then changed by calls. Their allocations succeed, names of groups
  -- have at most 29 characters, and the arrays for addresses at least 15.
  pub data Reachable : GrpMng L Q → Type 0 where
    created :
        (m : GrpMng L Q) (memory : ℕ → Bool) (unique : Block) (old : Text)
        → ((j : ℕ) → memory j ≡ true)
        → length unique ≡ 5
        → c_string unique ≡ ok old
        → grp_mng_create L Q true true true memory unique ≡ ok (some m)
        → Reachable m
    opened :
        (m m' : GrpMng L Q) (name : Text) (size : ℕ) (status : GroupMngResult) (out : Option Text)
        → Reachable m
        → (fits : length name < 30) → (room : 15 ≤ size)
        → insert_status L Q m name ≢ map_allocation_error
        → add_new_group L Q plenty true (some m) (some name) (some size) ≡ ok (status, out, some m')
        → Reachable m'
    joined :
        (m m' : GrpMng L Q) (user name : Text) (size : ℕ) (status : GroupMngResult)
        (out : Option Text)
        → Reachable m
        → 15 ≤ size
        → ((g : Group L)
            → group_of L Q m name ≡ some g
            → join_status L g user ≢ map_allocation_error)
        → add_user_to_group L Q (some m) (some user) (some name) (some size)
          ≡ ok (status, out, some m')
        → Reachable m'
    left :
        (m m' : GrpMng L Q) (user name : Text) (status : GroupMngResult)
        → Reachable m
        → remove_user_from_group L Q (some m) (some user) (some name) ≡ ok (status, some m')
        → Reachable m'
    left_all :
        (m m' : GrpMng L Q) (user : Text) (status : GroupMngResult)
        → Reachable m
        → remove_user_from_all_groups L Q (some m) (some user) ≡ ok (status, some m')
        → Reachable m'

  abbrev pub ip_at : GrpMng L Q → Text → Option Text
  ip_at m name = ip_of L (group_of L Q m name)

  -- A valid manager whose addresses are apart.
  abbrev pub Good : GrpMng L Q → Type 0
  Good m = (free : List Text) × IsValid L H Q m free × IsApart (ip_at m) free

  -- A group that is replaced by one with its address.
  updated-ip_of :
      (d : Text → Option (Group L)) (name other : Text) (g g' : Group L)
      → d name ≡ some g
      → g'.group_ip ≡ g.group_ip
      → ip_of L (updated d name g' other) ≡ ip_of L (d other)
  updated-ip_of d name other g g' at same = elim (Bool-cases (strcmp_eq name other)) [
    | inl e ↦
        let here : d other ≡ some g =
          subst (λ n. d n ≡ some g) ((strcmp_eq_iff name other).0 e) at in
        rw (e, here) (ap some same)
    | inr e ↦ rw e refl
  ]

  LeftAt-ip_of :
      (user : Text) (before after : Option (Group L))
      → LeftAt L user before after
      → ip_of L after ≡ ip_of L before
  LeftAt-ip_of user none after e = rw e refl
  LeftAt-ip_of user (some g) after (g', e, leaves) = rw e (ap some leaves.same_ip)

  create_group-Good :
      (m m' : GrpMng L Q) (free : List Text) (name : Text) (taken : Option (Group L))
      → IsApart (ip_at m) free
      → ((other : Text)
          → group_of L Q m' other
            ≡ (create_group L H Q taken (group_of L Q m) free name).directory other)
      → IsApart (ip_at m') (create_group L H Q taken (group_of L Q m) free name).free
  create_group-Good m m' [] name taken v view =
      same-IsApart (ip_at m) (ip_at m') [] (λ other. ap (ip_of L) (view other)) v
  create_group-Good m m' (ip ∷ free) name none v view =
      taken-IsApart (ip_at m) (ip_at m') name ip free
        (λ other. ap (ip_of L) (view other) ∙ ground arith) v
  create_group-Good m m' (ip ∷ free) name (some g) v view =
      same-IsApart (ip_at m) (ip_at m') free (λ other. ap (ip_of L) (view other))
        (lost-IsApart (ip_at m) ip free v)

  -- What one run ends in is one manager.
  same_end :
      (run : Exec (GroupMngResult × Option Text × Option (GrpMng L Q))) (m m' : GrpMng L Q)
      (s s' : GroupMngResult) (o o' : Option Text)
      → run ≡ ok (s, o, some m)
      → run ≡ ok (s', o', some m')
      → m ≡ m'
  same_end run m m' s s' o o' e f = ground (arith, e, f)

  same_end_quietly :
      (run : Exec (GroupMngResult × Option (GrpMng L Q))) (m m' : GrpMng L Q)
      (s s' : GroupMngResult)
      → run ≡ ok (s, some m)
      → run ≡ ok (s', some m')
      → m ≡ m'
  same_end_quietly run m m' s s' e f = ground (arith, e, f)

  joined-Good :
      (m m' : GrpMng L Q) (user name : Text) (size : ℕ) (status : GroupMngResult)
      (out : Option Text)
      → Good m
      → 15 ≤ size
      → ((g : Group L) → group_of L Q m name ≡ some g → join_status L g user ≢ map_allocation_error)
      → add_user_to_group L Q (some m) (some user) (some name) (some size)
        ≡ ok (status, out, some m')
      → Good m'
  joined-Good m m' user name size status out (free, v, apart) room not_full run =
      elim (Option-cases (group_of L Q m name)) [
        | inl absent ↦
            let (missing, _) = no_such_group L H Q m free v name user size absent in
            subst Good (same_end _ m m' _ status _ out missing run) (free, v, apart)
        | inr (g, at) ↦
            let (g', joins, (m2, ran, valid, view)) =
              add_user_to_group-Refines L H Q m free v name user g size at room (not_full g at) in
            let same : (other : Text) → ip_at m2 other ≡ ip_at m other = λ other.
              ap (ip_of L) (view other)
              ∙ updated-ip_of (group_of L Q m) name other g g' at joins.same_ip in
            subst Good (same_end _ m2 m' _ status _ out ran run)
              (free, valid, same-IsApart (ip_at m) (ip_at m2) free same apart)
      ]

  left-Good :
      (m m' : GrpMng L Q) (user name : Text) (status : GroupMngResult)
      → Good m
      → remove_user_from_group L Q (some m) (some user) (some name) ≡ ok (status, some m')
      → Good m'
  left-Good m m' user name status (free, v, apart) run = elim (Option-cases (group_of L Q m name)) [
    | inl absent ↦
        let (_, missing) = no_such_group L H Q m free v name user 15 absent in
        subst Good (same_end_quietly _ m m' _ status missing run) (free, v, apart)
    | inr (g, at) ↦
        let (g', leaves, (m2, ran, valid, view)) =
          remove_user_from_group-Refines L H Q m free v name user g at in
        let same : (other : Text) → ip_at m2 other ≡ ip_at m other = λ other.
          ap (ip_of L) (view other)
          ∙ updated-ip_of (group_of L Q m) name other g g' at leaves.same_ip in
        subst Good (same_end_quietly _ m2 m' _ status ran run)
          (free, valid, same-IsApart (ip_at m) (ip_at m2) free same apart)
  ]

  Reachable-Good : {m : GrpMng L Q} → Reachable m → Good m
  Reachable-Good (created m memory unique old always size text run) =
      let (m2, ran, valid, nobody) =
        grp_mng_create-addresses Q K L H memory unique old always size text in
      let same : m2 ≡ m = ground (arith, ran, run) in
      let apart : IsApart (ip_at m2) (addresses 100 1) =
        addresses-IsApart (ip_at m2) 100 1 (λ name. ap (ip_of L) (nobody name)) in
      subst Good same (addresses 100 1, valid, apart)
  Reachable-Good (opened m m' name size status out before fits room not_full run) =
      let (free, v, apart) = Reachable-Good before in
      let (m2, ran, valid, view) =
        add_new_group-Refines L H Q K m name fits size room free v not_full in
      let o = create_group L H Q (group_of L Q m name) (group_of L Q m) free name in
      subst Good (same_end _ m2 m' o.status status o.address out ran run)
        (o.free, valid, create_group-Good m m2 free name (group_of L Q m name) apart view)
  Reachable-Good (joined m m' user name size status out before room not_full run) =
      joined-Good m m' user name size status out (Reachable-Good before) room not_full run
  Reachable-Good (left m m' user name status before run) =
      left-Good m m' user name status (Reachable-Good before) run
  Reachable-Good (left_all m m' user status before run) =
      let (free, v, apart) = Reachable-Good before in
      let (m2, ran, valid, gone) = remove_user_from_all_groups_lem L H Q m free user v in
      let same : (other : Text) → ip_at m2 other ≡ ip_at m other =
        λ other. LeftAt-ip_of user (group_of L Q m other) (group_of L Q m2 other) (gone other) in
      subst Good (same_end_quietly _ m2 m' _ status ran run)
        (free, valid, same-IsApart (ip_at m) (ip_at m2) free same apart)

  -- A manager is created, and then groups are made and users join and leave them, in any order, with
  -- no group deleted and no allocation failing. At all times groups with different names have
  -- different multicast addresses.
  pub groups_apart :
      {m : GrpMng L Q} (n k : Text) (g h : Group L)
      → Reachable m
      → group_of L Q m n ≡ some g
      → group_of L Q m k ≡ some h
      → n ≢ k
      → g.group_ip ≢ h.group_ip
  groups_apart n k g h reach e f different same =
      let (free, v, apart) = Reachable-Good reach in
      different
        (apart.one_each n k g.group_ip (ap (ip_of L) e) (ap (ip_of L) f ∙ ap some (sym same)))
