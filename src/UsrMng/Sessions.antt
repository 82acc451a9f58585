-- ===== src/UsrMng/Sessions.antt =====
-- Logging in and out, and leaving all groups.
use ipc_project.Base.{
  refl, ◌∙◌, inl, inr, Bool, Bool-cases, none, some, set, if◌then◌else◌, arith, lt→ltb,
}
use ipc_project.CLib.{Text, strcmp_eq, copy_string}
use ipc_project.Containers.HashMap.{HashMapLib, IsLawful}
use ipc_project.User.{activate_user, deactivate_user, get_password, remove_all_groups, new_groups}
use ipc_project.UsrMng.{UsrMng, log_in_user, log_out_user, remove_all_groups_from_user}
use ipc_project.UsrMng.Directory.{
  user_of, IsKept, IsValid, Kept-users, with_user_registered, replaced, with_user_missing,
  deref_address, new_groups-GroupsKeyed,
}
use ipc_project.UsrMng.Spec.{Refines, log_in, log_out, remove_all}

module _ (L : HashMapLib) (H : IsLawful L) (m : UsrMng L) (name : Text) (v : IsValid L H m) where
  -- A login with the name and the password of a registered user makes that user active and changes
  -- nothing else; with another password, or a name that is not registered, it reports that and
  -- changes nothing. It ends with no fault.
  pub log_in_user-Refines :
      (password : Text)
      → Refines L H
          (log_in_user L (some m) (some name) (some password))
          (log_in L (user_of L m) name password)
  unfolding log_in_user activate_user get_password copy_string
  log_in_user-Refines password = elim (Kept-users L H m name v) [
    | inl (e, absent) ↦ rw absent (m, with_user_missing L H m name _ v e, v, λ other. refl)
    | inr (address, user, e, g, k, of_name) ↦ elim (Bool-cases (strcmp_eq password user.password)) [
      | inl right ↦
          let user' = record user { is_active = 1 } in
          let kept : IsKept L H name user' = record {
            named = k.named;
            name_fits = k.name_fits;
            password_fits = k.password_fits;
            groups_keyed = k.groups_keyed;
          } in
          let (valid, view) = replaced L H m name address user user' v e g kept in
          rw (of_name, right)
            (
              record m { heap = set m.heap address (some user') },
              with_user_registered L H m name address _ v e
                  ∙ rw (deref_address L H m.heap address user g, lt→ltb _ _ k.password_fits, right),
              valid,
              view,
            )
      | inr wrong ↦
          rw (of_name, wrong)
            (
              m,
              with_user_registered L H m name address _ v e
                  ∙ rw (deref_address L H m.heap address user g, lt→ltb _ _ k.password_fits, wrong),
              v,
              λ other. refl,
            )
    ]
  ]

  -- A logout makes a registered user inactive and changes nothing else; of a name that is not
  -- registered it reports that and changes nothing. It ends with no fault.
  pub log_out_user-Refines :
      Refines L H (log_out_user L (some m) (some name)) (log_out L (user_of L m) name)
  unfolding log_out_user deactivate_user
  log_out_user-Refines = elim (Kept-users L H m name v) [
    | inl (e, absent) ↦ rw absent (m, with_user_missing L H m name _ v e, v, λ other. refl)
    | inr (address, user, e, g, k, of_name) ↦
        let user' = record user { is_active = 0 } in
        let kept : IsKept L H name user' = record {
          named = k.named;
          name_fits = k.name_fits;
          password_fits = k.password_fits;
          groups_keyed = k.groups_keyed;
        } in
        let (valid, view) = replaced L H m name address user user' v e g kept in
        rw of_name (
          record m { heap = set m.heap address (some user') },
          with_user_registered L H m name address _ v e
              ∙ rw (deref_address L H m.heap address user g),
          valid,
          view,
        )
  ]

  -- Leaving all groups replaces the groups of a registered user, by the empty map or, where that
  -- cannot be allocated, by none, which is not reported. Nothing else changes.
  pub remove_all_groups_from_user-Refines :
      (created : Bool)
      → Refines L H
          (remove_all_groups_from_user L created (some m) (some name))
          (remove_all L created (user_of L m) name)
  unfolding remove_all_groups_from_user remove_all_groups
  remove_all_groups_from_user-Refines created = elim (Kept-users L H m name v) [
    | inl (e, absent) ↦ rw absent (m, with_user_missing L H m name _ v e, v, λ other. refl)
    | inr (address, user, e, g, k, of_name) ↦
        let groups = if created then some (new_groups L) else none in
        let user' = record user { groups = groups } in
        let kept : IsKept L H name user' = record {
          named = k.named;
          name_fits = k.name_fits;
          password_fits = k.password_fits;
          groups_keyed = new_groups-GroupsKeyed L H created;
        } in
        let (valid, view) = replaced L H m name address user user' v e g kept in
        rw of_name (
          record m { heap = set m.heap address (some user') },
          with_user_registered L H m name address _ v e
              ∙ rw (deref_address L H m.heap address user g) (ground arith),
          valid,
          view,
        )
  ]
