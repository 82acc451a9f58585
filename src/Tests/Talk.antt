-- ===== src/Tests/Talk.antt =====
-- Conversations of clients with the server of Tests/Server about groups, and a log-out.
use ipc_project.Base.{◌≡◌, refl, true, some, none, arith, ok, if◌then◌else◌}
use ipc_project.CLib.{Text, calloc, c_string, load, load32, strcmp_eq}
use ipc_project.Containers.Entries.{lookup_by}
use ipc_project.Containers.HashMap.Assoc.{assoc_map, assoc_map-IsLawful}
use ipc_project.Containers.Queue.{list_queue, list_queue-IsLawful}
use ipc_project.Containers.Vector.{list_vector}
use ipc_project.Containers.Objects.{object_of, updated}
use ipc_project.Protocol.Layout.{
  group_leave_request, group_leave_reply, GrpReqStruct, read_grp_req, LogOutOrSeeGroupsReq,
  read_log_out_or_see_groups, logout_request, logout_reply, group_create_request,
  group_create_reply, group_join_request, group_join_reply,
}
use ipc_project.Group.{Group}
use ipc_project.UsrMng.{UsrMng}
use ipc_project.UsrMng.Directory.{user_of, IsValid as IsValidUsers}
use ipc_project.GrpMng.Groups.{groupmng_success, groupmng_duplicate}
use ipc_project.GrpMng.Directory.{group_of, IsValid as IsValidGroups, create_group}
use ipc_project.GrpMng.Members.{is_member, Joins, Leaves}
use ipc_project.GrpMng.LeaveAll.{LeftAt}
use ipc_project.SrvMng.Replies.{answer}
use ipc_project.SrvMng.Sessions.{conversation}
use ipc_project.SrvMng.Logout.{gone, logout_conversation}
use ipc_project.SrvMng.Groups.{EndsIn, create_conversation, join-conversation}
use ipc_project.SrvMng.Leave.{leave_conversation}
use ipc_project.Tests.Data.{leave_block, codes, log_out_block, create_block, dana_joins_block}
use ipc_project.Tests.Users.{hen, one_user, one_user-IsValid}
use ipc_project.Tests.Groups.{Manager, chess, one_group, insert_room, one_free, one_free-IsValid}
use ipc_project.Tests.Server.{memory, locals, sized, server}

abbrev log_out : LogOutOrSeeGroupsReq
log_out = record { username = codes "hen"; tag = 5 }

abbrev create : GrpReqStruct
create = record { username = codes "hen"; group_name = codes "go"; tag = 7 }

abbrev join : GrpReqStruct
join = record { username = codes "dana"; group_name = codes "chess"; tag = 9 }

logout_conversation_example :
    (users' : UsrMng assoc_map) × (groups' : Manager) × (conversation assoc_map assoc_map-IsLawful
        list_queue list_vector memory locals server log_out_block
        (calloc 100)
        logout_request
      ≡ ok (
        some (record { user_manager = some users'; group_manager = some groups' }),
        some (answer locals true logout_reply),
      ))
    × IsValidUsers assoc_map assoc_map-IsLawful users'
    × ((name : Text)
        → user_of assoc_map users' name
          ≡ updated
              (user_of assoc_map one_user)
              (codes "hen")
              (gone assoc_map assoc_map-IsLawful true hen)
              name)
    × IsValidGroups assoc_map assoc_map-IsLawful list_queue groups' one_free
    × ((name : Text)
        → LeftAt assoc_map
            (codes "hen")
            (group_of assoc_map list_queue (one_group one_free) name)
            (group_of assoc_map list_queue groups' name))
unfolding read_log_out_or_see_groups c_string load32 load object_of lookup_by strcmp_eq
logout_conversation_example =
    logout_conversation assoc_map assoc_map-IsLawful list_queue list_vector memory locals server
      one_user (one_group one_free) one_free log_out_block (calloc 100) log_out refl sized refl refl
      one_user-IsValid one_free-IsValid refl refl (omega arith) (omega arith) hen refl

create_conversation_example :
    EndsIn assoc_map assoc_map-IsLawful list_queue list_vector server
      (conversation assoc_map assoc_map-IsLawful list_queue list_vector memory locals server
        create_block
        (calloc 100)
        group_create_request)
      group_create_reply
      (create_group assoc_map assoc_map-IsLawful list_queue
        (group_of assoc_map list_queue (one_group one_free) (codes "go"))
        (group_of assoc_map list_queue (one_group one_free))
        one_free
        (codes "go"))
unfolding read_grp_req c_string load32 load
create_conversation_example =
    create_conversation assoc_map assoc_map-IsLawful list_queue list_queue-IsLawful list_vector
      memory locals server (one_group one_free) one_free create_block (calloc 100) create refl sized
      refl one_free-IsValid refl (omega arith) (omega arith) (omega arith) refl refl refl
      (ground arith) (insert_room (one_group one_free).group_map (codes "go") (some 1))

join-conversation_example :
    (g' : Group assoc_map) × Joins assoc_map (codes "dana") chess g'
    × EndsIn assoc_map assoc_map-IsLawful list_queue list_vector server
        (conversation assoc_map assoc_map-IsLawful list_queue list_vector memory locals server
          dana_joins_block
          (calloc 100)
          group_join_request)
        group_join_reply
        (record {
          status =
              if is_member assoc_map chess (codes "dana")
              then groupmng_duplicate
              else groupmng_success;
          address =
              if is_member assoc_map chess (codes "dana") then none else some (codes "224.0.0.1");
          directory =
              updated (group_of assoc_map list_queue (one_group one_free)) (codes "chess") g';
          free = one_free;
        })
unfolding read_grp_req c_string load32 load object_of lookup_by strcmp_eq
join-conversation_example =
    join-conversation assoc_map assoc_map-IsLawful list_queue list_queue-IsLawful list_vector memory
      locals server (one_group one_free) one_free dana_joins_block (calloc 100) join refl sized refl
      one_free-IsValid refl (omega arith) (omega arith) (omega arith) chess refl refl (ground arith)
      (insert_room chess.users (codes "dana") (codes "dana"))

abbrev leave : GrpReqStruct
leave = record { username = codes "hen"; group_name = codes "chess"; tag = 11 }

leave_conversation_example :
    (g' : Group assoc_map) × Leaves assoc_map (codes "hen") chess g'
    × (groups' : Manager) × (conversation assoc_map assoc_map-IsLawful list_queue list_vector memory
          locals server leave_block
          (calloc 100)
          group_leave_request
        ≡ ok (
          some (record server { group_manager = some groups' }),
          some (answer locals (is_member assoc_map chess (codes "hen")) group_leave_reply),
        ))
    × IsValidGroups assoc_map assoc_map-IsLawful list_queue groups' one_free
    × ((name : Text)
        → group_of assoc_map list_queue groups' name
          ≡ updated (group_of assoc_map list_queue (one_group one_free)) (codes "chess") g' name)
unfolding read_grp_req c_string load32 load object_of lookup_by strcmp_eq
leave_conversation_example =
    leave_conversation assoc_map assoc_map-IsLawful list_queue list_vector memory locals server
      (one_group one_free) one_free leave_block (calloc 100) leave chess refl sized refl
      one_free-IsValid refl refl (omega arith) (omega arith) (omega arith) refl
