-- ===== src/UsrMng/Creation.antt =====
-- `UsrMngCreate` of usr_mng.c.
use ipc_project.Base.{◌≡◌, refl, true, Option, none, some, [], ℕ, arith}
use mathlib.Core.Path.{fun_ext}
use ipc_project.CLib.{Text}
use ipc_project.Containers.HashMap.{HashMapLib, IsLawful}
use ipc_project.Containers.Entries.{lookup_by}
use ipc_project.Containers.Objects.{object_of}
use ipc_project.UsrMng.{
  UsrMng, usr_mng_create, map_capacity, usr_mng_hash_function, usr_mng_equality_function,
}
use ipc_project.UsrMng.Directory.{IsValid, user_of}

-- A manager with no users.
abbrev pub no_users : (L : HashMapLib) → UsrMng L
no_users L = record {
  user_map = L.create (Option ℕ) map_capacity usr_mng_hash_function usr_mng_equality_function;
  heap = [];
}

module _ (L : HashMapLib) (H : IsLawful L) where
  -- A manager that is created is valid and has no users.
  pub usr_mng_create-IsValid :
      (usr_mng_create L true true ≡ some (no_users L))
      × IsValid L H (no_users L)
      × ((name : Text) → user_of L (no_users L) name ≡ none)
  unfolding usr_mng_create usr_mng_equality_function object_of lookup_by
  usr_mng_create-IsValid =
      let nothing : L.entries (Option ℕ) (no_users L).user_map ≡ [] =
        H.entries-create (Option ℕ) map_capacity usr_mng_hash_function usr_mng_equality_function in
      (
        refl,
        record {
          keyed =
              H.create-Keyed (Option ℕ) map_capacity usr_mng_hash_function usr_mng_equality_function
                (fun_ext λ s. fun_ext λ t. ground arith);
          points = λ name pointer at. absurd (ground (arith, at, nothing));
        },
        λ name. rw nothing refl,
      )
