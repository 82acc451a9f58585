-- ===== src/UsrMng/Registration.antt =====
-- Registering a user.
use ipc_project.Base.{
  ℕ, ◌<◌, ◌≡◌, ◌≢◌, ◌⊎◌, refl, ap, ◌∙◌, inl, inr, Bool, true, false, Option, none, some, List, [],
  ◌∷◌, ◌++◌, set, get_elem?-set_ne, get_elem?-lt, arith, ok, lt→ltb, length,
}
use ipc_project.CLib.{Text, copy_string}
use ipc_project.Containers.HashMap.{HashMapLib, IsLawful, MapResult, map_allocation_error}
use ipc_project.User.{User, UserMemory, user_create}
use ipc_project.UsrMng.{
  UsrMng, UserMngResult, usermng_duplicate, register_new_user, usermng_general_error,
}
use ipc_project.Containers.Objects.{
  Extends, grown-Extends, extended-IsSound, object_of-extended, inserted-IsSound,
  object_of-inserted,
}
use ipc_project.UsrMng.Directory.{user_of, IsKept, IsValid, Kept-users, new_groups-GroupsKeyed}
use ipc_project.UsrMng.Spec.{Refines, register, fresh_user}

abbrev pub plenty : UserMemory
plenty = record { for_user = true; for_name = true; for_password = true; for_groups = true }

-- What `HashMapInsert` answers to the pair of a new user.
abbrev pub insert_status : (L : HashMapLib) → UsrMng L → Text → MapResult
insert_status L m name = (L.insert (Option ℕ) m.user_map name (some (length m.heap))).0

module _ (L : HashMapLib) (H : IsLawful L) (m : UsrMng L) (v : IsValid L H m) where
  -- The heap with one more user at its end, and the heap once that user is freed.
  abbrev grown : User L → List (Option (User L))
  grown user = m.heap ++ (some user ∷ [])

  abbrev freed : User L → List (Option (User L))
  freed user = set (grown user) (length m.heap) none

  freed-Extends : (user : User L) → Extends m.heap (freed user)
  freed-Extends user a u g =
      get_elem?-set_ne (grown user) (length m.heap) a none
        (λ e. absurd (omega (arith, get_elem?-lt m.heap a _ g, e)))
      ∙ grown-Extends L H (IsKept L H) m.heap user a u g

  -- A heap that holds every user where it was makes no difference.
  extended :
      (heap : List (Option (User L)))
      → Extends m.heap heap
      → IsValid L H (record m { heap = heap })
        × ((other : Text) → user_of L (record m { heap = heap }) other ≡ user_of L m other)
  extended heap x = (
    extended-IsSound L H (IsKept L H) m.user_map m.heap heap v x,
    object_of-extended L H (IsKept L H) m.user_map m.heap heap v x,
  )

  module _ (name password : Text) (ln : length name < 30) (lp : length password < 30) where
    abbrev fresh : User L
    fresh = fresh_user L name password

    created : user_create L plenty (some name) (some password) ≡ ok (some fresh)
    unfolding user_create copy_string
    created = rw (lt→ltb _ _ ln, lt→ltb _ _ lp)

    fresh-IsKept : IsKept L H name fresh
    fresh-IsKept = record {
      named = refl;
      name_fits = ln;
      password_fits = lp;
      groups_keyed = new_groups-GroupsKeyed L H true;
    }

    -- A duplicate, or a map with no room: the new user is freed, and the directory is as before.
    freed-Refines :
        (r : UserMngResult)
        → Refines L H (ok (r, some (record m { heap = freed fresh }))) (r, user_of L m)
    freed-Refines r = (
      record m { heap = freed fresh },
      refl,
      (extended (freed fresh) (freed-Extends fresh)).0,
      (extended (freed fresh) (freed-Extends fresh)).1,
    )

    -- Where every allocation succeeds, a name that is not registered is registered with its
    -- password, as a user who is not active and in no group, and no other name changes. A name that
    -- is registered is a duplicate, and nothing changes. The manager stays valid. The name and the
    -- password have at most 29 characters.
    pub register_new_user-Refines :
        insert_status L m name ≢ map_allocation_error
        → Refines L H
            (register_new_user L plenty true (some m) (some name) (some password))
            (register L (user_of L m name) (user_of L m) name password)
    unfolding register_new_user copy_string
    register_new_user-Refines room = elim (Kept-users L H m name v) [
      | inl (e, absent) ↦
          elim (H.insert_absent (Option ℕ) m.user_map name (some (length m.heap)) v.keyed e) [
            | inl full ↦ absurd (room (ap (λ (r : MapResult × L.Map (Option ℕ)). r.0) full))
            | inr (users, inserted, keyed, law, _) ↦
                rw (absent, created, lt→ltb _ _ ln, inserted)
                  (
                    record { user_map = users; heap = grown fresh },
                    refl,
                    inserted-IsSound L H (IsKept L H) m.user_map m.heap name fresh v fresh-IsKept
                        users law keyed,
                    object_of-inserted L H (IsKept L H) m.user_map m.heap name fresh v fresh-IsKept
                        users law,
                  )
          ]
      | inr (a, u, e, g, k, present) ↦
          rw
            (
              present,
              created,
              lt→ltb _ _ ln,
              H.insert_present (Option ℕ) m.user_map name (some (length m.heap)) (some a) v.keyed e,
            )
            (freed-Refines usermng_duplicate)
    ]

    -- Where the key or the pair cannot be allocated, the call reports a general error, the
    -- directory is as before and the manager stays valid. The name and the password have at most
    -- 29 characters, and the allocations of `UserCreate` succeed.
    pub register_new_user_no_room :
        (for_key : Bool)
        → (for_key ≡ false) ⊎ (insert_status L m name ≡ map_allocation_error)
        → Refines L H
            (register_new_user L plenty for_key (some m) (some name) (some password))
            (usermng_general_error, user_of L m)
    unfolding register_new_user copy_string
    register_new_user_no_room false h = rw created (
      record m { heap = grown fresh },
      refl,
      (extended (grown fresh) (grown-Extends L H (IsKept L H) m.heap fresh)).0,
      (extended (grown fresh) (grown-Extends L H (IsKept L H) m.heap fresh)).1,
    )
    register_new_user_no_room true (inl h) = cc
    register_new_user_no_room true (inr h) = elim (Kept-users L H m name v) [
      | inl (e, absent) ↦
          elim (H.insert_absent (Option ℕ) m.user_map name (some (length m.heap)) v.keyed e) [
            | inl full ↦ rw (created, lt→ltb _ _ ln, full) (freed-Refines usermng_general_error)
            | inr (users, inserted, keyed, law, _) ↦ absurd (ground (arith, h, inserted))
          ]
      | inr (a, u, e, g, k, present) ↦
          let twice =
            H.insert_present (Option ℕ) m.user_map name (some (length m.heap)) (some a) v.keyed e in
          absurd (ground (arith, h, twice))
    ]
