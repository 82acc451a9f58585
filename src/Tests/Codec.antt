-- ===== src/Tests/Codec.antt =====
-- Messages packed and unpacked.
use ipc_project.Base.{◌≡◌, refl, ok, Exec, ◌>>=◌, arith}
use ipc_project.CLib.{
  calloc, c_string, strlen, load, load32, store, write, store32, strncpy, strncpy_bytes,
  char_to_size, char_to_word,
}
use ipc_project.Protocol.Layout.{
  RegisterOrLoginRequest, read_register_or_login, GrpReqStruct, read_grp_req, LogOutOrSeeGroupsReq,
  read_log_out_or_see_groups, Reply, read_reply, GroupCreateReply, read_group_create_reply,
  read_see_all_groups_reply,
}
use ipc_project.Protocol.Requests.{
  pack_register_or_login_request, unpack_register_or_login_request, pack_grp_req, unpack_grp_req,
  pack_log_out_or_see_groups_request, unpack_log_out_or_see_groups_request,
}
use ipc_project.Protocol.Replies.{
  pack_reply, unpack_reply, pack_group_create_reply, unpack_group_create_reply,
  pack_see_all_groups_reply, unpack_see_all_groups_reply,
}
use ipc_project.Protocol.RoundTrip.{
  unpack-pack_register_or_login_request, unpack-pack_grp_req,
  unpack-pack_log_out_or_see_groups_request,
}
use ipc_project.Protocol.ReplyTrip.{unpack-pack_reply}
use ipc_project.Protocol.GroupReplyTrip.{unpack-pack_group_create_reply}
use ipc_project.Protocol.SeeAllTrip.{unpack-pack_see_all_groups_reply}
use ipc_project.Tests.Data.{
  codes, login_block, join_block, log_out_block, reply_block, group_reply_block, names_block,
}

abbrev login : RegisterOrLoginRequest
login = record { username = codes "hen"; password = codes "group5"; tag = 3 }

round_trip : Exec RegisterOrLoginRequest
unfolding c_string strlen load load32 store store32 write strncpy strncpy_bytes char_to_word
    char_to_size pack_register_or_login_request unpack_register_or_login_request
    read_register_or_login
round_trip = do
  packed ← pack_register_or_login_request login_block (calloc 100)
  unpacked ← unpack_register_or_login_request (calloc 1920) packed.1
  read_register_or_login unpacked.1

round_trip_lem : round_trip ≡ ok login
unfolding round_trip
round_trip_lem = refl

unpack-pack_register_or_login_request_example :
    (do
      packed ← pack_register_or_login_request login_block (calloc 100)
      unpacked ← unpack_register_or_login_request (calloc 1920) packed.1
      read_register_or_login unpacked.1)
    ≡ ok login
unfolding read_register_or_login c_string load32 load
unpack-pack_register_or_login_request_example =
    unpack-pack_register_or_login_request login_block (calloc 100) 1920 login refl (omega arith)
      (omega arith) (omega arith) (omega arith) (omega arith)

abbrev join : GrpReqStruct
join = record { username = codes "hen"; group_name = codes "chess"; tag = 9 }

unpack-pack_grp_req_example :
    (do
      packed ← pack_grp_req join_block (calloc 100)
      unpacked ← unpack_grp_req (calloc 1920) packed.1
      read_grp_req unpacked.1)
    ≡ ok join
unfolding read_grp_req c_string load32 load
unpack-pack_grp_req_example =
    unpack-pack_grp_req join_block (calloc 100) 1920 join refl (omega arith) (omega arith)
      (omega arith) (omega arith) (omega arith)

abbrev log_out : LogOutOrSeeGroupsReq
log_out = record { username = codes "hen"; tag = 5 }

unpack-pack_log_out_or_see_groups_request_example :
    (do
      packed ← pack_log_out_or_see_groups_request log_out_block (calloc 100)
      unpacked ← unpack_log_out_or_see_groups_request (calloc 1080) packed.1
      read_log_out_or_see_groups unpacked.1)
    ≡ ok log_out
unfolding read_log_out_or_see_groups c_string load32 load
unpack-pack_log_out_or_see_groups_request_example =
    unpack-pack_log_out_or_see_groups_request log_out_block (calloc 100) 1080 log_out refl
      (omega arith) (omega arith) (omega arith) (omega arith)

abbrev reply : Reply
reply = record { reply = 1; tag = 4 }

unpack-pack_reply_example :
    (do
      packed ← pack_reply reply_block (calloc 100)
      unpacked ← unpack_reply (calloc 8) packed.1
      read_reply unpacked.1)
    ≡ ok reply
unfolding read_reply c_string load32 load
unpack-pack_reply_example =
    unpack-pack_reply reply_block (calloc 100) 8 reply refl refl (omega arith) (omega arith)
      (omega arith)

abbrev group_reply : GroupCreateReply
group_reply = record { tag = 8; reply = 1; ip = codes "224.0.0.7"; port = codes "2021" }

unpack-pack_group_create_reply_example :
    (do
      packed ← pack_group_create_reply group_reply_block (calloc 100)
      unpacked ← unpack_group_create_reply (calloc 28) packed.1
      read_group_create_reply unpacked.1)
    ≡ ok group_reply
unfolding read_group_create_reply c_string load32 load
unpack-pack_group_create_reply_example =
    unpack-pack_group_create_reply group_reply_block (calloc 100) 28 group_reply refl (omega arith)
      (omega arith) (omega arith) (omega arith) (omega arith) (omega arith)

-- A first character with code 10 lets ten characters through.
unpack-pack_see_all_groups_reply_example :
    (do
      packed ← pack_see_all_groups_reply names_block (calloc 40)
      unpacked ← unpack_see_all_groups_reply (calloc 1008) packed.1
      read_see_all_groups_reply unpacked.1)
    ≡ ok (record { all_group_names = codes "\n12345678,"; reply = 1; tag = 14 })
unfolding read_see_all_groups_reply c_string load32 load
unpack-pack_see_all_groups_reply_example =
    unpack-pack_see_all_groups_reply names_block (calloc 40) 1008 10 (codes "12345678, z, ")
      (calloc 21) 1 refl (omega arith) (omega arith) (omega arith) refl (omega arith)
