-- ===== src/UsrMng/Spec.antt =====
-- What the manager promises: each operation as a step on a directory, a function from names to users.
use ipc_project.Base.{◌≡◌, Bool, Option, none, some, if◌then◌else◌, Exec, ok}
use ipc_project.CLib.{Text, strcmp_eq}
use ipc_project.Containers.HashMap.{HashMapLib, IsLawful}
use ipc_project.User.{User, new_groups}
use ipc_project.UsrMng.{
  UsrMng, UserMngResult, usermng_success, usermng_duplicate, usermng_user_not_found,
  usermng_wrong_password,
}
use ipc_project.Containers.Objects.{updated}
use ipc_project.UsrMng.Directory.{Directory, user_of, IsValid}

module _ (L : HashMapLib) where
  -- The user that a name and a password register: not active, and in no group.
  abbrev pub fresh_user : Text → Text → User L
  fresh_user name password = record {
    user_name = name;
    password = password;
    is_active = 0;
    groups = some (new_groups L);
  }

  abbrev pub register : Option (User L) → Directory L → Text → Text → UserMngResult × Directory L
  register none d name password = (usermng_success, updated d name (fresh_user name password))
  register (some user) d name password = (usermng_duplicate, d)

  -- A step on the user of a name, who has to be there.
  abbrev pub on_user :
      Option (User L)
      → Directory L
      → (User L → UserMngResult × Directory L)
      → UserMngResult × Directory L
  on_user none d step = (usermng_user_not_found, d)
  on_user (some user) d step = step user

  abbrev pub log_in : Directory L → Text → Text → UserMngResult × Directory L
  log_in d name password = on_user (d name) d λ user.
      if strcmp_eq password user.password
      then (usermng_success, updated d name (record user { is_active = 1 }))
      else (usermng_wrong_password, d)

  abbrev pub log_out : Directory L → Text → UserMngResult × Directory L
  log_out d name =
      on_user (d name) d λ user. (usermng_success, updated d name (record user { is_active = 0 }))

  -- The groups of a user become the empty map, or none at all where it cannot be allocated.
  abbrev pub remove_all : Bool → Directory L → Text → UserMngResult × Directory L
  remove_all created d name = on_user (d name) d λ user. (
    usermng_success,
    updated d name (record user { groups = if created then some (new_groups L) else none }),
  )

-- A run does what the step says, and leaves a valid manager.
abbrev pub Refines :
    (L : HashMapLib) (H : IsLawful L)
    → Exec (UserMngResult × Option (UsrMng L))
    → UserMngResult × Directory L
    → Type 0
Refines L H run step =
    (m : UsrMng L) × (run ≡ ok (step.0, some m))
    × IsValid L H m
    × ((name : Text) → user_of L m name ≡ step.1 name)
