-- ===== src/SrvMng/Logout.antt =====
-- `GotMessage` of srv_mng.c with a log-out that a client packed.
use ipc_project.Base.{
  ◌+◌, ◌<◌, ◌≤◌, ◌≡◌, refl, subst, ◌∙◌, Bool, true, Bool-cases, inl, inr, none, some, List, length,
  ok, if◌then◌else◌,
}
use ipc_project.CLib.{Block, Text, strcmp_eq}
use ipc_project.CLib.Strings.{strcmp_eq_iff}
use ipc_project.Containers.HashMap.{HashMapLib, IsLawful}
use ipc_project.Containers.Queue.{QueueLib}
use ipc_project.Containers.Vector.{VectorLib}
use ipc_project.Protocol.Layout.{
  LogOutOrSeeGroupsReq, read_log_out_or_see_groups, logout_request, logout_reply,
}
use ipc_project.User.{User, new_groups}
use ipc_project.UsrMng.{UsrMng, usermng_success, log_out_user, remove_all_groups_from_user}
use ipc_project.UsrMng.Directory.{IsValid as IsValidUsers}
use ipc_project.UsrMng.Directory.{user_of}
use ipc_project.Containers.Objects.{updated}
use ipc_project.UsrMng.Spec.{Refines, log_out, remove_all}
use ipc_project.UsrMng.Sessions.{log_out_user-Refines, remove_all_groups_from_user-Refines}
use ipc_project.GrpMng.Groups.{GrpMng}
use ipc_project.GrpMng.Directory.{IsValid as IsValidGroups}
use ipc_project.GrpMng.Directory.{group_of}
use ipc_project.GrpMng.LeaveAll.{LeftAt, remove_user_from_all_groups_lem}
use ipc_project.SrvMng.Handlers.{
  Memory, Locals, SrvMng, got_message, got_tag, got_logout, leave_everything,
}
use ipc_project.SrvMng.Replies.{IsSized, answer, plain_reply-answer}
use ipc_project.SrvMng.Requests.{log_out_arrives}
use ipc_project.SrvMng.Sessions.{conversation}

module _ (L : HashMapLib) (H : IsLawful L) where
  -- A user who has logged out and left all groups.
  abbrev pub gone : Bool → User L → User L
  gone created u = record u {
    is_active = 0;
    groups = if created then some (new_groups L) else none;
  }

  -- The two calls on the users one after the other.
  logged_out :
      (m : UsrMng L) (name : Text) (u : User L) (created : Bool)
      → IsValidUsers L H m
      → user_of L m name ≡ some u
      → (m1 m2 : UsrMng L) × (log_out_user L (some m) (some name) ≡ ok (usermng_success, some m1))
        × (remove_all_groups_from_user L created (some m1) (some name)
            ≡ ok (usermng_success, some m2))
        × IsValidUsers L H m2
        × ((other : Text) → user_of L m2 other ≡ updated (user_of L m) name (gone created u) other)
  logged_out m name u created v at =
      let u1 : User L = record u { is_active = 0 } in
      let out : log_out L (user_of L m) name ≡ (usermng_success, updated (user_of L m) name u1) =
        rw at refl in
      let (m1, ran1, v1, view1) =
        subst (Refines L H (log_out_user L (some m) (some name))) out
          (log_out_user-Refines L H m name v) in
      let self : strcmp_eq name name ≡ true = (strcmp_eq_iff name name).1 refl in
      let at1 : user_of L m1 name ≡ some u1 = view1 name ∙ rw self refl in
      let all : remove_all L created (user_of L m1) name
          ≡ (usermng_success, updated (user_of L m1) name (gone created u)) =
        rw at1 refl in
      let (m2, ran2, v2, view2) =
        subst (Refines L H (remove_all_groups_from_user L created (some m1) (some name))) all
          (remove_all_groups_from_user-Refines L H m1 name v1 created) in
      (
        m1,
        m2,
        ran1,
        ran2,
        v2,
        λ other. elim (Bool-cases (strcmp_eq name other)) [
          | inl same ↦ view2 other ∙ rw same refl
          | inr different ↦ view2 other ∙ rw different (view1 other ∙ rw different refl)
        ],
      )

module _ (L : HashMapLib) (H : IsLawful L) (Q : QueueLib) (W : VectorLib) (memory : Memory)
    (locals : Locals) (server : SrvMng L Q W) (users : UsrMng L) (groups : GrpMng L Q)
    (free : List Text) (message out : Block) (r : LogOutOrSeeGroupsReq)
    (requested : memory.for_request ≡ true) (sized : IsSized locals)
    (has_users : server.user_manager ≡ some users) (has_groups : server.group_manager ≡ some groups)
    (v : IsValidUsers L H users) (w : IsValidGroups L H Q groups free)
    (e : read_log_out_or_see_groups message ≡ ok r) (t : r.tag ≡ logout_request)
    (lu : length r.username < 30) (room : length r.username + 3 ≤ length out) where
  -- A log-out that a client packs, of a registered user, makes the user inactive and a member
  -- of no group: neither the user's own list nor any group has the membership any more. No
  -- other user and no other membership changes, the answer is a success, and nothing faults.
  -- The server has valid managers and memory for the request, and the name has at most 29
  -- characters and fits into the client's buffer.
  pub logout_conversation :
      (u : User L)
      → user_of L users r.username ≡ some u
      → (users' : UsrMng L) × (groups' : GrpMng L Q) × (conversation L H Q W memory locals server
            message out logout_request
          ≡ ok (
            some (record { user_manager = some users'; group_manager = some groups' }),
            some (answer locals true logout_reply),
          ))
        × IsValidUsers L H users'
        × ((name : Text)
            → user_of L users' name
              ≡ updated (user_of L users) r.username (gone L H memory.for_user_groups u) name)
        × IsValidGroups L H Q groups' free
        × ((name : Text)
            → LeftAt L r.username (group_of L Q groups name) (group_of L Q groups' name))
  unfolding got_message got_tag got_logout leave_everything
  logout_conversation u at =
      let (size, buffer, blk, packed, tagged, unpacked, user) =
        log_out_arrives message out r e t lu room in
      let (m1, m2, ran1, ran2, valid, view) =
        logged_out L H users r.username u memory.for_user_groups v at in
      let (groups', left, valid', everywhere) =
        remove_user_from_all_groups_lem L H Q groups free r.username w in
      (
        m2,
        groups',
        rw
            (
              packed,
              tagged,
              requested,
              unpacked,
              user,
              has_users,
              has_groups,
              ran1,
              ran2,
              left,
              plain_reply-answer locals true logout_reply sized refl,
            )
            refl,
        valid,
        view,
        valid',
        everywhere,
      )
