-- ===== src/Tests/Server.antt =====
-- The server with one user and one group.
use ipc_project.Base.{◌≡◌, fault, ◌∷◌, ℕ, refl, true, some, arith, length-replicate}
use ipc_project.CLib.{calloc, c_string, load, load32}
use ipc_project.Containers.HashMap.Assoc.{assoc_map, assoc_map-IsLawful}
use ipc_project.Containers.Queue.{list_queue}
use ipc_project.Containers.Vector.{list_vector}
use ipc_project.Protocol.Layout.{
  RegisterOrLoginRequest, read_register_or_login, login_request, login_reply, register_request,
  register_reply,
}
use ipc_project.UsrMng.Directory.{user_of}
use ipc_project.UsrMng.Spec.{register, log_in}
use ipc_project.UsrMng.Registration.{plenty}
use ipc_project.SrvMng.Handlers.{Memory, Locals, SrvMng, got_message}
use ipc_project.SrvMng.Replies.{IsSized}
use ipc_project.SrvMng.Malformed.{got_message-overlong}
use ipc_project.SrvMng.Sessions.{conversation, Answers, login_conversation, register-conversation}
use ipc_project.Tests.Data.{codes, login_block, register_block}
use ipc_project.Tests.Users.{one_user, one_user-IsValid}
use ipc_project.Tests.Groups.{one_free, one_group, insert_room}

abbrev pub memory : Memory
memory = record {
  for_request = true;
  for_user = plenty;
  for_user_key = true;
  for_user_groups = true;
  for_group = record { for_group = true; for_users = true };
  for_group_key = true;
  for_names = true;
  for_vector = true;
}

abbrev pub locals : Locals
locals = record {
  internal_buffer = calloc 4096;
  data_to_send = calloc 8;
  data_to_send_group = calloc 28;
  data_to_send_see_grps = calloc 1008;
}

pub sized : IsSized locals
sized = record {
  buffer_size = length-replicate {A = ℕ} 4096 0;
  reply_size = refl;
  group_reply_size = refl;
}

abbrev pub server : SrvMng assoc_map list_queue list_vector
server = record { user_manager = some one_user; group_manager = some (one_group one_free) }

abbrev login : RegisterOrLoginRequest
login = record { username = codes "hen"; password = codes "group5"; tag = 3 }

login_conversation_example :
    Answers assoc_map assoc_map-IsLawful list_queue list_vector
      (conversation assoc_map assoc_map-IsLawful list_queue list_vector memory locals server
        login_block
        (calloc 100)
        login_request)
      locals
      server
      login_reply
      (log_in assoc_map (user_of assoc_map one_user) (codes "hen") (codes "group5"))
unfolding read_register_or_login c_string load32 load
login_conversation_example =
    login_conversation assoc_map assoc_map-IsLawful list_queue list_vector memory locals server
      one_user login_block (calloc 100) login refl sized refl one_user-IsValid refl (omega arith)
      (omega arith) (omega arith) refl

abbrev registration : RegisterOrLoginRequest
registration = record { username = codes "dana"; password = codes "1234"; tag = 1 }

register-conversation_example :
    Answers assoc_map assoc_map-IsLawful list_queue list_vector
      (conversation assoc_map assoc_map-IsLawful list_queue list_vector memory locals server
        register_block
        (calloc 100)
        register_request)
      locals
      server
      register_reply
      (register assoc_map
        (user_of assoc_map one_user (codes "dana"))
        (user_of assoc_map one_user)
        (codes "dana")
        (codes "1234"))
unfolding read_register_or_login c_string load32 load
register-conversation_example =
    register-conversation assoc_map assoc_map-IsLawful list_queue list_vector memory locals server
      one_user register_block (calloc 100) registration refl sized refl one_user-IsValid refl
      (omega arith) (omega arith) (omega arith) refl refl refl
      (insert_room one_user.user_map (codes "dana") (some 1))

got_message-overlong_example :
    got_message assoc_map list_queue list_vector memory locals
      (some (3 ∷ 10 ∷ 200 ∷ calloc 97))
      (some server)
    ≡ fault
got_message-overlong_example =
    got_message-overlong assoc_map list_queue list_vector memory locals server 3 10 200 (calloc 97)
      refl refl (omega arith)
