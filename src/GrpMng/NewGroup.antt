-- ===== src/GrpMng/NewGroup.antt =====
-- `AddNewGroup` of grp_mng.c.
use ipc_project.Base.{
  ℕ, ◌<◌, ◌≤◌, ◌≡◌, ◌≢◌, refl, ap, inl, inr, true, Option, some, List, [], ◌∷◌, ◌++◌, length, map,
  arith, ok, lt→ltb,
}
use ipc_project.CLib.{Text, copy_string}
use ipc_project.Containers.HashMap.{HashMapLib, MapResult, map_allocation_error}
use ipc_project.Containers.HashMap
use ipc_project.Containers.Queue.{QueueLib, QueueResult}
use ipc_project.Containers.Queue
use ipc_project.Containers.Objects.{
  Kept-cases, extended-IsSound, object_of-extended, grown-Extends, inserted-IsSound,
  object_of-inserted,
}
use ipc_project.Group.{GroupMemory, AddressPointer, owned, group_create}
use ipc_project.GrpMng.Groups.{GrpMng, add_new_group, insert_new_group, finish_add_group}
use ipc_project.GrpMng.Directory.{
  group_of, IsKept, IsValid, Refines, create_group, fresh_group, new_users-Keyed,
}

abbrev pub plenty : GroupMemory
plenty = record { for_group = true; for_users = true }

-- What `HashMapInsert` answers to the pair of a new group.
abbrev pub insert_status : (L : HashMapLib) (Q : QueueLib) → GrpMng L Q → Text → MapResult
insert_status L Q m name = (L.insert (Option ℕ) m.group_map name (some (length m.heap))).0

module _ (L : HashMapLib) (H : HashMap.IsLawful L) (Q : QueueLib) (K : Queue.IsLawful Q)
    (m : GrpMng L Q) (name : Text) (name_fits : length name < 30) (size : ℕ)
    (room : 15 ≤ size) where
  created :
      (ip : Text)
      → length ip < 15
      → group_create L plenty (some name) (some (owned ip)) ≡ ok (some (fresh_group L H Q name ip))
  unfolding group_create copy_string
  created ip h =
      let wide : length ip < 30 = omega arith in
      rw (lt→ltb (length name) 30 name_fits, lt→ltb (length ip) 30 wide)

  fresh_group-IsKept : (ip : Text) → length ip < 15 → IsKept L H name (fresh_group L H Q name ip)
  fresh_group-IsKept ip h = record {
    named = refl;
    name_fits = name_fits;
    ip_fits = h;
    users_keyed = new_users-Keyed L H;
  }

  -- A new group takes the first free address, which is written to the caller's array, and nobody is
  -- in it. Where the name is taken the call reports a duplicate and the address is lost; where no
  -- address is free it reports a general error. No other group changes, and the manager stays valid.
  -- Every allocation succeeds, the name has at most 29 characters and the array at least 15.
  pub add_new_group-Refines :
      (free : List Text)
      → IsValid L H Q m free
      → insert_status L Q m name ≢ map_allocation_error
      → Refines L H Q
          (add_new_group L Q plenty true (some m) (some name) (some size))
          (create_group L H Q (group_of L Q m name) (group_of L Q m) free name)
  unfolding add_new_group insert_new_group copy_string finish_add_group
  add_new_group-Refines [] v not_full =
      rw (K.remove_empty AddressPointer m.groups_id v.queued) (m, refl, v, λ other. refl)
  add_new_group-Refines (ip ∷ free) v not_full =
      let (queue, removed, rest, _) =
        K.remove_front AddressPointer m.groups_id (owned ip) (map owned free) v.queued in
      elim (Kept-cases L H (IsKept L H) m.group_map m.heap name v.sound) [
        | inl (e, absent) ↦
            elim (H.insert_absent (Option ℕ) m.group_map name (some (length m.heap)) v.sound.keyed
              e) [
                | inl full ↦ absurd (not_full (ap (λ (r : MapResult × L.Map (Option ℕ)). r.0) full))
                | inr (groups, inserted, keyed, law, _) ↦
                    rw
                      (
                        absent,
                        removed,
                        created ip v.free_fit.0,
                        lt→ltb (length name) 30 name_fits,
                        inserted,
                        lt→ltb (length ip) size (omega (arith, v.free_fit.0)),
                      )
                      (
                        record {
                          group_map = groups;
                          groups_id = queue;
                          heap = m.heap ++ (some (fresh_group L H Q name ip) ∷ []);
                        },
                        refl,
                        record {
                          sound =
                              inserted-IsSound L H (IsKept L H) m.group_map m.heap name
                                (fresh_group L H Q name ip) v.sound
                                (fresh_group-IsKept ip v.free_fit.0) groups law keyed;
                          queued = rest;
                          free_fit = v.free_fit.1;
                        },
                        object_of-inserted L H (IsKept L H) m.group_map m.heap name
                            (fresh_group L H Q name ip) v.sound (fresh_group-IsKept ip v.free_fit.0)
                            groups law,
                      )
              ]
        | inr (a, g, e, at, k, present) ↦
            let wider = grown-Extends L H (IsKept L H) m.heap (fresh_group L H Q name ip) in
            let heap = m.heap ++ (some (fresh_group L H Q name ip) ∷ []) in
            rw
              (
                present,
                removed,
                created ip v.free_fit.0,
                lt→ltb (length name) 30 name_fits,
                H.insert_present (Option ℕ) m.group_map name (some (length m.heap)) (some a)
                    v.sound.keyed e,
              )
              (
                record { group_map = m.group_map; groups_id = queue; heap = heap },
                refl,
                record {
                  sound = extended-IsSound L H (IsKept L H) m.group_map m.heap heap v.sound wider;
                  queued = rest;
                  free_fit = v.free_fit.1;
                },
                object_of-extended L H (IsKept L H) m.group_map m.heap heap v.sound wider,
              )
      ]
