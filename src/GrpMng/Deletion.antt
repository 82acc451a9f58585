-- ===== src/GrpMng/Deletion.antt =====
-- `DeleteGroup` of grp_mng.c, which frees the memory of the address that it puts back.
use ipc_project.Base.{
  ℕ, ◌<◌, ◌≡◌, refl, ◌∙◌, true, Option, none, some, List, [], ◌∷◌, ◌++◌, length, lt→ltb, set, ok,
  fault,
}
use ipc_project.CLib.{Text, copy_string}
use ipc_project.Containers.HashMap.{HashMapLib}
use ipc_project.Containers.HashMap
use ipc_project.Containers.Queue.{QueueLib}
use ipc_project.Containers.Queue
use ipc_project.Containers.Objects.{object_of-address}
use ipc_project.Group.{Group, AddressPointer, dangling, group_create}
use ipc_project.GrpMng.Groups.{GrpMng, delete_group, group_destroy, add_new_group, groupmng_success}
use ipc_project.GrpMng.Directory.{group_of, IsKept, IsValid}
use ipc_project.GrpMng.Members.{deref_address}
use ipc_project.GrpMng.NewGroup.{plenty}

module _ (L : HashMapLib) (H : HashMap.IsLawful L) (Q : QueueLib) (K : Queue.IsLawful Q)
    (m : GrpMng L Q) (name : Text) (g : Group L) where
  -- The queue of a manager with a group that is deleted.
  deleted :
      (free : List Text)
      → IsValid L H Q m free
      → group_of L Q m name ≡ some g
      → length (Q.items AddressPointer m.groups_id) < Q.capacity AddressPointer m.groups_id
      → (m' : GrpMng L Q) × (delete_group L Q (some m) (some name) ≡ ok (groupmng_success, some m'))
        × (Q.items AddressPointer m'.groups_id
            ≡ Q.items AddressPointer m.groups_id ++ (dangling ∷ []))
        × (Q.capacity AddressPointer m'.groups_id ≡ Q.capacity AddressPointer m.groups_id)
  unfolding delete_group group_destroy
  deleted free v at room =
      let (a, e, here, k) =
        object_of-address L H (IsKept L H) m.group_map m.heap name g v.sound at in
      let (groups, removed, _, _, _) =
        H.remove_present (Option ℕ) m.group_map name (some a) v.sound.keyed e in
      let (queue, inserted, items, capacity) =
        K.insert_room AddressPointer m.groups_id dangling room in
      (
        record { group_map = groups; groups_id = queue; heap = set m.heap a none },
        rw (removed, deref_address L Q m.heap a g here, inserted) refl,
        items,
        capacity,
      )

  -- Where no address is free, a group is deleted with success, and the next call that makes a group
  -- reads the freed memory of its address, whatever the new name is.
  pub delete_group-dangling :
      (other : Text) (size : ℕ)
      → IsValid L H Q m []
      → group_of L Q m name ≡ some g
      → 0 < Q.capacity AddressPointer m.groups_id
      → length other < 30
      → (m' : GrpMng L Q) × (delete_group L Q (some m) (some name) ≡ ok (groupmng_success, some m'))
        × (add_new_group L Q plenty true (some m') (some other) (some size) ≡ fault)
  unfolding add_new_group group_create copy_string
  delete_group-dangling other size v at some_room fits =
      let empty : length (Q.items AddressPointer m.groups_id)
          < Q.capacity AddressPointer m.groups_id =
        rw v.queued some_room in
      let (m', ran, items, _) = deleted [] v at empty in
      let (queue, removed, _, _) =
        K.remove_front AddressPointer m'.groups_id dangling [] (items ∙ rw v.queued refl) in
      (m', ran, rw (removed, lt→ltb (length other) 30 fits) refl)
