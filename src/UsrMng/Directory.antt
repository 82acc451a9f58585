-- ===== src/UsrMng/Directory.antt =====
-- The manager seen as a directory: the user of each name. `IsValid` is what keeps the map, the
-- heap and the names together.
use ipc_project.Base.{
  ℕ, ◌<◌, ◌≡◌, ◌⊎◌, Bool, true, false, Option, none, some, List, length, get_elem?, set,
  if◌then◌else◌, arith, Exec, ok,
}
use mathlib.Core.Path.{fun_ext}
use ipc_project.CLib.{Text}
use ipc_project.Containers.HashMap.{HashMapLib, IsLawful}
use ipc_project.Containers.Objects.{
  entry as map_entry, object_of, updated, IsSound, Kept, Kept-cases, changed-IsSound,
  object_of-changed,
}
use ipc_project.User.{
  User, new_groups, usr_equality_function, usr_hash_function, group_map_capacity,
}
use ipc_project.UsrMng.{UsrMng, UserMngResult, usermng_user_not_found, deref, with_user}

module _ (L : HashMapLib) where
  abbrev pub entry : UsrMng L → Text → Option (Option ℕ)
  entry m name = map_entry L m.user_map name

  abbrev pub Directory : Type 0
  Directory = Text → Option (User L)

  abbrev pub user_of : UsrMng L → Directory
  user_of m name = object_of L m.user_map m.heap name

module _ (L : HashMapLib) (H : IsLawful L) where
  abbrev pub GroupsKeyed : Option (L.Map Text) → Type 0
  GroupsKeyed none = Unit {0}
  GroupsKeyed (some groups) = H.Keyed Text groups

  pub new_groups-GroupsKeyed :
      (created : Bool) → GroupsKeyed (if created then some (new_groups L) else none)
  unfolding usr_equality_function
  new_groups-GroupsKeyed false = tt
  new_groups-GroupsKeyed true =
      H.create-Keyed Text group_map_capacity usr_hash_function usr_equality_function
        (fun_ext λ s. fun_ext λ t. ground arith)

  -- A user that is kept under a name has that name, and strings that fit their arrays.
  pub record IsKept (name : Text) (u : User L) : Type 0 where
    pub named : u.user_name ≡ name
    pub name_fits : length u.user_name < 30
    pub password_fits : length u.password < 30
    pub groups_keyed : GroupsKeyed u.groups

  abbrev pub IsValid : UsrMng L → Type 0
  IsValid m = IsSound L H IsKept m.user_map m.heap

  -- A step on the user of a registered name: `with_user` gives the action the user's pointer.
  pub with_user_registered :
      (m : UsrMng L) (name : Text) (address : ℕ)
      (action : Option ℕ → Exec (UserMngResult × Option (UsrMng L)))
      → IsValid m
      → entry L m name ≡ some (some address)
      → with_user L m name action ≡ action (some address)
  unfolding with_user
  with_user_registered m name address action v e =
      rw (H.find-entries (Option ℕ) m.user_map name v.keyed, e)

  pub with_user_missing :
      (m : UsrMng L) (name : Text) (action : Option ℕ → Exec (UserMngResult × Option (UsrMng L)))
      → IsValid m
      → entry L m name ≡ none
      → with_user L m name action ≡ ok (usermng_user_not_found, some m)
  unfolding with_user
  with_user_missing m name action v e = rw (H.find-entries (Option ℕ) m.user_map name v.keyed, e)

  pub deref_address :
      (heap : List (Option (User L))) (address : ℕ) (user : User L)
      → get_elem? heap address ≡ some (some user)
      → deref L heap (some address) ≡ ok (some user)
  unfolding deref
  deref_address heap address user e = rw e

  -- A user who is replaced by one that may be kept under the name.
  pub replaced :
      (m : UsrMng L) (name : Text) (address : ℕ) (old user : User L)
      → IsValid m
      → entry L m name ≡ some (some address)
      → get_elem? m.heap address ≡ some (some old)
      → IsKept name user
      → IsValid (record m { heap = set m.heap address (some user) })
        × ((other : Text)
            → user_of L (record m { heap = set m.heap address (some user) }) other
              ≡ updated (user_of L m) name user other)
  replaced m name address old user v e g k = (
    changed-IsSound L H IsKept (λ u. u.user_name) (λ n u q. q.named) m.user_map m.heap name address
        old user v e g k,
    object_of-changed L H IsKept (λ u. u.user_name) (λ n u q. q.named) m.user_map m.heap name
        address old user v e g,
  )

  -- A name is not registered, or its pointer leads to its user.
  pub Kept-users :
      (m : UsrMng L) (name : Text)
      → IsValid m
      → ((entry L m name ≡ none) × (user_of L m name ≡ none))
        ⊎ Kept L H IsKept m.user_map m.heap name
  Kept-users m name v = Kept-cases L H IsKept m.user_map m.heap name v
