-- ===== src/Tests/Menus.antt =====
-- The client's menus with what a user types, and an answer that the client reads.
use ipc_project.Base.{
  ℕ, ◌≡◌, refl, true, none, some, List, [], ◌∷◌, ok, fault, Exec, pos, take, length,
}
use ipc_project.CLib.{
  calloc, strcpy, write, c_string, store32, strlen, load32, load, store, strncpy, strncpy_bytes,
  char_to_size, char_to_word,
}
use ipc_project.Protocol.Dispatch.{
  protocol_pack, protocol_get_tag, pack_by_tag, protocol_unpack, unpack_by_tag,
}
use ipc_project.Protocol.Requests.{
  pack_register_or_login_request, pack_log_out_or_see_groups_request, pack_grp_req,
}
use ipc_project.Protocol.Replies.{unpack_reply}
use ipc_project.ClientManager.{
  pack_and_send_via_client_net, two_strings_struct, one_string_struct, pack_and_send_struct,
  send_part,
}
use ipc_project.CLib.Overlay.{overlay}
use ipc_project.Protocol.Layout.{login_reply, logout_reply}
use ipc_project.SrvMng.Replies.{answer}
use ipc_project.ServerNet.Loop.{arrived}
use ipc_project.ClientNet.{Client}
use ipc_project.ClientManager.Sending.{plenty}
use ipc_project.ClientManager.Receiving.{
  Connecting, Receiving, receive_via_client_net, connect_to_client_net, client_disconnected,
  receive_reply,
}
use ipc_project.ClientManager.Answered.{receive-answer}
use ipc_project.ClientMain.{Turn, Menu, main_page, main}
use ipc_project.ClientMain.Action
use ipc_project.Tests.Data.{codes}
use ipc_project.Tests.Server.{locals}

abbrev connecting : Connecting
connecting = record {
  memory = true;
  socket = some 3;
  sin = record { sin_addr = []; sin_port = 0 };
  connects = true;
}

-- The answer to a login or to a log-out arrives, and a pointer happens to point to a struct.
abbrev receiving : ℕ → Receiving
receiving tag = record {
  for_buffer = true;
  arrives = arrived (take 4 (answer locals true tag).bytes);
  reply = ok (calloc 8);
  reply_grp = fault;
  for_see_groups = true;
}

abbrev client : Client
client = record {
  status = 0;
  my_socket = pos 3;
  sin = record { sin_addr = []; sin_port = 0 };
  port = 2021;
  ip = [];
}

receive-answer_example : receive_via_client_net (receiving login_reply) (some client) ≡ ok 1
receive-answer_example =
    receive-answer (receiving login_reply) client locals true login_reply (calloc 8) refl refl refl
      refl refl

-- A login, a log-out, and the end.
abbrev turn : ℕ → ℕ → Turn
turn action tag = record {
  action = action;
  first = codes "hen";
  second = codes "go";
  sending = plenty;
  receiving = receiving tag;
  grp_name = calloc 30;
}

abbrev turns : List Turn
turns = turn Action.login login_reply ∷ turn Action.logout logout_reply ∷ turn Action.exit 0 ∷ []

abbrev nothing_yet : Menu
nothing_yet = record {
  page = main_page;
  client = none;
  user_name = [];
  pass = [];
  grp_name = [];
  events = [];
}

abbrev menu_of : Exec Menu → Menu
menu_of (ok menu) = menu
menu_of fault = nothing_yet

abbrev result : Menu
unfolding main
result = menu_of (main connecting (calloc 30) (calloc 30) turns)

-- Three requests, two answers and a closed connection.
five_events : length result.events ≡ 5
unfolding main strcpy write c_string store32 strlen load32 load store strncpy strncpy_bytes
    char_to_size char_to_word protocol_pack protocol_get_tag pack_by_tag protocol_unpack
    unpack_by_tag pack_and_send_via_client_net two_strings_struct one_string_struct
    pack_and_send_struct send_part pack_register_or_login_request pack_log_out_or_see_groups_request
    pack_grp_req unpack_reply receive_via_client_net connect_to_client_net client_disconnected
    overlay receive_reply
five_events = refl
