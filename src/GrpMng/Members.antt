-- ===== src/GrpMng/Members.antt =====
-- `AddUserToGroup` and `RemoveUserFromGroup` of grp_mng.c.
use ipc_project.Base.{
  ℕ, ◌≤◌, ◌≡◌, ◌≢◌, refl, ap, ◌∙◌, inl, inr, Bool, true, false, Option, none, some, List, length,
  set, Bool-cases, arith, ok, lt→ltb, if◌then◌else◌, get_elem?,
}
use ipc_project.CLib.{Text, copy_string, strcmp_eq}
use ipc_project.Containers.HashMap.{
  HashMapLib, IsLawful, MapResult, map_allocation_error, map_success, found,
}
use ipc_project.Containers.Names.{is_in, insert-is_in, remove-is_in}
use ipc_project.Containers.Queue.{QueueLib}
use ipc_project.Containers.Objects.{
  entry, Kept-cases, updated, changed-IsSound, object_of-address, object_of-changed,
}
use ipc_project.Group.{
  Group, add_user, remove_user, group_success, group_user_already_exists, group_user_not_found,
}
use ipc_project.GrpMng.Groups.{
  GrpMng, groupmng_success, groupmng_duplicate, groupmng_group_does_not_exist,
  groupmng_user_does_not_exist, deref,
}
use ipc_project.GrpMng.Groups.Membership.{add_user_to_group, remove_user_from_group}
use ipc_project.GrpMng.Directory.{group_of, IsKept, IsValid, Refines, RefinesQuietly}

module _ (L : HashMapLib) where
  abbrev pub is_member : Group L → Text → Bool
  is_member g user = is_in L g.users user

  -- What `HashMapInsert` answers to a user who joins.
  abbrev pub join_status : Group L → Text → MapResult
  join_status g user = (L.insert Text g.users user user).0

  -- A group before and after a user joins or leaves: the name and the address stay, and so does
  -- whether anybody else is a member.
  pub record Joins (user : Text) (g g' : Group L) : Type 0 where
    pub same_name : g'.group_name ≡ g.group_name
    pub same_ip : g'.group_ip ≡ g.group_ip
    pub members :
        (other : Text)
        → is_member g' other ≡ (if strcmp_eq user other then true else is_member g other)

  pub record Leaves (user : Text) (g g' : Group L) : Type 0 where
    pub same_name : g'.group_name ≡ g.group_name
    pub same_ip : g'.group_ip ≡ g.group_ip
    pub members :
        (other : Text)
        → is_member g' other ≡ (if strcmp_eq other user then false else is_member g other)

module _ (L : HashMapLib) (H : IsLawful L) (name : Text) (g : Group L) (k : IsKept L H name g)
    (user : Text) where
  -- `AddUser` for a group of the manager.
  pub add_user-Joins :
      (size : ℕ)
      → 15 ≤ size
      → join_status L g user ≢ map_allocation_error
      → (g' : Group L) × (add_user L (some g) (some user) (some size)
          ≡ ok (
            if is_member L g user then group_user_already_exists else group_success,
            if is_member L g user then none else some g.group_ip,
            some g',
          ))
        × Joins L user g g'
        × IsKept L H name g'
  unfolding add_user copy_string
  add_user-Joins size room not_full =
      let (users, inserted, keyed, law) = insert-is_in L H g.users k.users_keyed user not_full in
      let wide = lt→ltb (length g.group_ip) size (omega (arith, k.ip_fits)) in
      (
        record g { users = users },
        elim (Bool-cases (is_member L g user)) [
          | inl e ↦ rw (inserted, e) refl
          | inr e ↦ rw (inserted, e, wide) refl
        ],
        record { same_name = refl; same_ip = refl; members = law },
        record {
          named = k.named;
          name_fits = k.name_fits;
          ip_fits = k.ip_fits;
          users_keyed = keyed;
        },
      )

  -- `RemoveUser` for a group of the manager.
  pub remove_user-Leaves :
      (g' : Group L) × (remove_user L (some g) (some user)
        ≡ (if is_member L g user then group_success else group_user_not_found, some g'))
      × Leaves L user g g'
      × IsKept L H name g'
  unfolding remove_user
  remove_user-Leaves =
      let (pair, users, removed, keyed, law) = remove-is_in L H g.users k.users_keyed user in
      (
        record g { users = users },
        elim (Bool-cases (is_member L g user)) [
          | inl e ↦ rw (removed, e) refl
          | inr e ↦ rw (removed, e) refl
        ],
        record { same_name = refl; same_ip = refl; members = law },
        record {
          named = k.named;
          name_fits = k.name_fits;
          ip_fits = k.ip_fits;
          users_keyed = keyed;
        },
      )

pub deref_address :
    (L : HashMapLib) (Q : QueueLib) (heap : List (Option (Group L))) (address : ℕ) (g : Group L)
    → get_elem? heap address ≡ some (some g)
    → deref L Q heap (some address) ≡ ok (some g)
unfolding deref
deref_address L Q heap address g e = rw e refl

module _ (L : HashMapLib) (H : IsLawful L) (Q : QueueLib) (m : GrpMng L Q) (free : List Text)
    (v : IsValid L H Q m free) (name user : Text) where
  -- The manager once the group behind a name is changed.
  changed :
      (address : ℕ) (old group : Group L)
      → entry L m.group_map name ≡ some (some address)
      → get_elem? m.heap address ≡ some (some old)
      → IsKept L H name group
      → IsValid L H Q (record m { heap = set m.heap address (some group) }) free
        × ((other : Text)
            → group_of L Q (record m { heap = set m.heap address (some group) }) other
              ≡ updated (group_of L Q m) name group other)
  changed address old group e at k = (
    record {
      sound =
          changed-IsSound L H (IsKept L H) (λ g. g.group_name) (λ n g q. q.named) m.group_map m.heap
            name address old group v.sound e at k;
      queued = v.queued;
      free_fit = v.free_fit;
    },
    object_of-changed L H (IsKept L H) (λ g. g.group_name) (λ n g q. q.named) m.group_map m.heap
        name address old group v.sound e at,
  )

  found_at :
      (a : ℕ)
      → entry L m.group_map name ≡ some (some a)
      → L.find (Option ℕ) m.group_map name ≡ (map_success, some (some a))
  found_at a e = H.find-entries (Option ℕ) m.group_map name v.sound.keyed ∙ ap found e

  -- A user who joins a group becomes a member and is given the group's address, or is a member
  -- already, which is reported as a duplicate with no address. Whoever else is in the group, and
  -- every other group, stays as before, and the manager stays valid. The map has room for the user,
  -- and the array for the address has at least 15 characters.
  pub add_user_to_group-Refines :
      (g : Group L) (size : ℕ)
      → group_of L Q m name ≡ some g
      → 15 ≤ size
      → join_status L g user ≢ map_allocation_error
      → (g' : Group L) × Joins L user g g'
        × Refines L H Q
            (add_user_to_group L Q (some m) (some user) (some name) (some size))
            (record {
              status = if is_member L g user then groupmng_duplicate else groupmng_success;
              address = if is_member L g user then none else some g.group_ip;
              directory = updated (group_of L Q m) name g';
              free = free;
            })
  unfolding add_user_to_group
  add_user_to_group-Refines g size at room not_full =
      let (a, e, here, k) =
        object_of-address L H (IsKept L H) m.group_map m.heap name g v.sound at in
      let (g', added, joins, kept) = add_user-Joins L H name g k user size room not_full in
      let (valid, view) = changed a g g' e here kept in
      (
        g',
        joins,
        (
          record m { heap = set m.heap a (some g') },
          rw (found_at a e, deref_address L Q m.heap a g here, added) (ground arith),
          valid,
          view,
        ),
      )

  -- A user who leaves a group is no longer a member; one who was none is reported. Whoever else is
  -- in the group, and every other group, stays as before, and the manager stays valid.
  pub remove_user_from_group-Refines :
      (g : Group L)
      → group_of L Q m name ≡ some g
      → (g' : Group L) × Leaves L user g g'
        × RefinesQuietly L H Q
            (remove_user_from_group L Q (some m) (some user) (some name))
            (record {
              status =
                  if is_member L g user then groupmng_success else groupmng_user_does_not_exist;
              address = none;
              directory = updated (group_of L Q m) name g';
              free = free;
            })
  unfolding remove_user_from_group
  remove_user_from_group-Refines g at =
      let (a, e, here, k) =
        object_of-address L H (IsKept L H) m.group_map m.heap name g v.sound at in
      let (g', removed, leaves, kept) = remove_user-Leaves L H name g k user in
      let (valid, view) = changed a g g' e here kept in
      (
        g',
        leaves,
        (
          record m { heap = set m.heap a (some g') },
          rw (found_at a e, deref_address L Q m.heap a g here, removed) (ground arith),
          valid,
          view,
        ),
      )

  -- Joining or leaving a group that does not exist reports that, and changes nothing.
  pub no_such_group :
      (size : ℕ)
      → group_of L Q m name ≡ none
      → (add_user_to_group L Q (some m) (some user) (some name) (some size)
          ≡ ok (groupmng_group_does_not_exist, none, some m))
        × (remove_user_from_group L Q (some m) (some user) (some name)
            ≡ ok (groupmng_group_does_not_exist, some m))
  unfolding add_user_to_group remove_user_from_group
  no_such_group size absent = elim (Kept-cases L H (IsKept L H) m.group_map m.heap name v.sound) [
    | inl (e, _) ↦
        let missing = H.find-entries (Option ℕ) m.group_map name v.sound.keyed in
        (rw (missing, e) refl, rw (missing, e) refl)
    | inr (_, _, _, _, _, present) ↦ absurd (ground (arith, absent, present))
  ]
