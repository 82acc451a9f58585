-- ===== src/SrvMng/Leave.antt =====
-- `GotMessage` of srv_mng.c with a request that a client packed to leave a group.
use ipc_project.Base.{
  ◌+◌, ◌<◌, ◌≤◌, ◌≡◌, refl, Bool, if◌then◌else◌, true, false, some, List, length, ok,
}
use ipc_project.CLib.{Block, Text}
use ipc_project.Containers.HashMap.{HashMapLib, IsLawful}
use ipc_project.Containers.Queue.{QueueLib}
use ipc_project.Containers.Vector.{VectorLib}
use ipc_project.Containers.Objects.{updated}
use ipc_project.Protocol.Layout.{
  RegisterOrLoginRequest, GrpReqStruct, read_grp_req, group_leave_request, group_leave_reply,
}
use ipc_project.Protocol.RoundTrip.{read_grp_req-read_register_or_login}
use ipc_project.Group.{Group}
use ipc_project.GrpMng.Groups.{GrpMng, groupmng_success, groupmng_user_does_not_exist}
use ipc_project.GrpMng.Directory.{group_of, IsValid}
use ipc_project.GrpMng.Members.{is_member, Leaves, remove_user_from_group-Refines}
use ipc_project.SrvMng.Handlers.{
  Memory, Locals, SrvMng, got_message, got_tag, got_group_leave, is_groupmng_success,
}
use ipc_project.SrvMng.Replies.{IsSized, answer, plain_reply-answer}
use ipc_project.SrvMng.Requests.{two_strings_arrive_as}
use ipc_project.SrvMng.Sessions.{conversation}

success_of :
    (b : Bool)
    → is_groupmng_success (if b then groupmng_success else groupmng_user_does_not_exist) ≡ b
success_of true = refl
success_of false = refl

module _ (L : HashMapLib) (H : IsLawful L) (Q : QueueLib) (W : VectorLib) where
  -- A request to leave a group that a client packs removes the user from the group, and the answer is
  -- a success; a user who was no member gets a failure. No other membership changes, the users stay
  -- as they were, and nothing faults. The server has a valid manager of groups with that group and
  -- memory for the request, and the names have at most 29 characters and fit into the client's
  -- buffer.
  pub leave_conversation :
      (memory : Memory) (locals : Locals) (server : SrvMng L Q W) (groups : GrpMng L Q)
      (free : List Text) (message out : Block) (r : GrpReqStruct) (g : Group L)
      → memory.for_request ≡ true
      → IsSized locals
      → server.group_manager ≡ some groups
      → IsValid L H Q groups free
      → read_grp_req message ≡ ok r
      → r.tag ≡ group_leave_request
      → length r.username < 30
      → length r.group_name < 30
      → length r.username + length r.group_name + 4 ≤ length out
      → group_of L Q groups r.group_name ≡ some g
      → (g' : Group L) × Leaves L r.username g g'
        × (groups' : GrpMng L Q) × (conversation L H Q W memory locals server message out
              group_leave_request
            ≡ ok (
              some (record server { group_manager = some groups' }),
              some (answer locals (is_member L g r.username) group_leave_reply),
            ))
        × IsValid L H Q groups' free
        × ((name : Text)
            → group_of L Q groups' name ≡ updated (group_of L Q groups) r.group_name g' name)
  unfolding got_message got_tag got_group_leave
  leave_conversation memory locals server groups free message out r g requested sized has_groups v e
        t lu lg room at =
      let q : RegisterOrLoginRequest = record {
        username = r.username;
        password = r.group_name;
        tag = r.tag;
      } in
      let read = read_grp_req-read_register_or_login message r e in
      let (size, buffer, blk, packed, tagged, unpacked, user, name) =
        two_strings_arrive_as message out q group_leave_request read t refl lu lg room in
      let (g', leaves, (groups', ran, valid, view)) =
        remove_user_from_group-Refines L H Q groups free v r.group_name r.username g at in
      (
        g',
        leaves,
        groups',
        rw
            (
              packed,
              tagged,
              requested,
              unpacked,
              user,
              name,
              has_groups,
              ran,
              success_of (is_member L g r.username),
              plain_reply-answer locals (is_member L g r.username) group_leave_reply sized refl,
            )
            refl,
        valid,
        view,
      )
