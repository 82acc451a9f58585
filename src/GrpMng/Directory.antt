-- ===== src/GrpMng/Directory.antt =====
-- The manager of groups as it is seen from outside: a directory with the group of each name, and the
-- list of the free addresses.
use ipc_project.Base.{
  ◌<◌, ◌≡◌, Option, none, some, List, [], ◌∷◌, length, map, All, arith, Exec, ok,
}
use mathlib.Core.Path.{fun_ext}
use ipc_project.CLib.{Text}
use ipc_project.Containers.HashMap.{HashMapLib, IsLawful}
use ipc_project.Containers.Queue.{QueueLib}
use ipc_project.Containers.Objects.{object_of, updated, IsSound}
use ipc_project.Group.{
  Group, AddressPointer, owned, new_users, grp_equality_function, grp_hash_function,
  user_map_capacity,
}
use ipc_project.GrpMng.Groups.{
  GrpMng, GroupMngResult, groupmng_success, groupmng_duplicate, groupmng_general_error,
}

module _ (L : HashMapLib) (Q : QueueLib) where
  abbrev pub Directory : Type 0
  Directory = Text → Option (Group L)

  abbrev pub group_of : GrpMng L Q → Directory
  group_of m = object_of L m.group_map m.heap

module _ (L : HashMapLib) (H : IsLawful L) where
  -- A group that is kept under a name has that name, and strings that fit: an address has at most
  -- 14 characters, as many as the arrays for it in the server hold.
  pub record IsKept (name : Text) (g : Group L) : Type 0 where
    pub named : g.group_name ≡ name
    pub name_fits : length g.group_name < 30
    pub ip_fits : length g.group_ip < 15
    pub users_keyed : H.Keyed Text g.users

  pub new_users-Keyed : H.Keyed Text (new_users L)
  unfolding grp_equality_function
  new_users-Keyed =
      H.create-Keyed Text user_map_capacity grp_hash_function grp_equality_function
        (fun_ext λ s. fun_ext λ t. ground arith)

module _ (L : HashMapLib) (H : IsLawful L) (Q : QueueLib) where
  -- The queue holds pointers to these addresses, which fit too.
  pub record IsValid (m : GrpMng L Q) (free : List Text) : Type 0 where
    pub sound : IsSound L H (IsKept L H) m.group_map m.heap
    pub queued : Q.items AddressPointer m.groups_id ≡ map owned free
    pub free_fit : All (λ ip. length ip < 15) free

  -- What a call reports, what it writes to the caller's array, the directory and the free addresses.
  pub record Outcome : Type 0 where
    pub status : GroupMngResult
    pub address : Option Text
    pub directory : Directory L Q
    pub free : List Text

  -- A run does what the step says, and leaves a valid manager.
  abbrev pub Refines : Exec (GroupMngResult × Option Text × Option (GrpMng L Q)) → Outcome → Type 0
  Refines run o =
      (m : GrpMng L Q) × (run ≡ ok (o.status, o.address, some m))
      × IsValid m o.free
      × ((name : Text) → group_of L Q m name ≡ o.directory name)

  -- The same for a call that writes no address.
  abbrev pub RefinesQuietly : Exec (GroupMngResult × Option (GrpMng L Q)) → Outcome → Type 0
  RefinesQuietly run o =
      (m : GrpMng L Q) × (run ≡ ok (o.status, some m))
      × IsValid m o.free
      × ((name : Text) → group_of L Q m name ≡ o.directory name)

  -- A group that a name and an address make: nobody is in it.
  abbrev pub fresh_group : Text → Text → Group L
  fresh_group name ip = record {
    group_name = name;
    group_ip = ip;
    users = new_users L;
    num_of_users = 0;
  }

  -- A new group takes the first free address. Where the name is taken the address is lost.
  abbrev pub create_group : Option (Group L) → Directory L Q → List Text → Text → Outcome
  create_group taken d [] name = record {
    status = groupmng_general_error;
    address = none;
    directory = d;
    free = [];
  }
  create_group none d (ip ∷ free) name = record {
    status = groupmng_success;
    address = some ip;
    directory = updated d name (fresh_group name ip);
    free = free;
  }
  create_group (some g) d (ip ∷ free) name = record {
    status = groupmng_duplicate;
    address = none;
    directory = d;
    free = free;
  }
