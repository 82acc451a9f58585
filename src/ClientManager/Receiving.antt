-- ===== src/ClientManager/Receiving.antt =====
-- `ConnectToClientNET`, `ReceiveViaClientNET` and `ClientDisconnected` of client_manager.c.
use ipc_project.Base.{
  ℕ, ℤ, Option, none, some, Bool, List, ◌||◌, ◌==◌, not, if◌then◌else◌, Exec, fault, ◌>>=◌,
  or_fault,
}
use ipc_project.CLib.{Block, calloc, load, load32, string_at}
use ipc_project.Protocol.Layout.{
  register_reply, login_reply, logout_reply, group_create_reply, group_join_reply,
  group_leave_reply, group_all_available_reply, see_all_groups_reply_size,
}
use ipc_project.Protocol.Dispatch.{protocol_unpack, protocol_get_tag}
use ipc_project.GrpMng.Groups.{codes}
use ipc_project.ServerNet.Loop.{Received}
use ipc_project.ClientNet.{
  Client, SockaddrIn, create_client, connect_to_server, receive_from_server, destroy_client,
}

abbrev pub client_port : ℕ
client_port = 2021

-- The outcomes of the calls of the system: `malloc`, `socket` and `connect`.
pub record Connecting : Type 0 where
  pub memory : Bool
  pub socket : Option ℕ
  pub sin : SockaddrIn
  pub connects : Bool

-- What `ConnectToServer` returns is not looked at.
unfoldable pub connect_to_client_net : Connecting → Option Client
unfolding create_client connect_to_server
connect_to_client_net env =
    elim (create_client env.memory env.socket env.sin client_port (codes "10.0.2.15")) [
      | none ↦ none
      | some client ↦ some (connect_to_server env.connects client).1
    ]

-- What a call of `ReceiveViaClientNET` meets: the outcomes of its two `calloc`s and of `recv`, and the
-- memory that the pointers `reply` and `replyGrp`, which are never set, happen to point to, if any.
pub record Receiving : Type 0 where
  pub for_buffer : Bool
  pub arrives : Received
  pub reply : Exec Block
  pub reply_grp : Exec Block
  pub for_see_groups : Bool

-- The body of the first test. The value is printed before the message is unpacked.
unfoldable pub receive_reply : Exec Block → Option Block → ℕ → Exec ℕ
receive_reply pointer buffer tag = do
  reply ← pointer
  printed ← load reply 0
  (_, reply) ← protocol_unpack (some reply) buffer tag
  reply ← or_fault reply
  load reply 0

-- The body of the second test. Every member is printed.
unfoldable pub receive_group_reply : Exec Block → Option Block → ℕ → Exec ℕ
receive_group_reply pointer buffer tag = do
  reply_grp ← pointer
  (_, reply_grp) ← protocol_unpack (some reply_grp) buffer tag
  reply_grp ← or_fault reply_grp
  tag ← load32 reply_grp 0
  ip ← string_at reply_grp 5
  port ← string_at reply_grp 20
  load reply_grp 4

-- The body of the third test. The struct is freed, and then read.
unfoldable pub receive_see_groups : Bool → Option Block → ℕ → Exec ℕ
receive_see_groups memory buffer tag =
    if memory
    then (do
      (_, names) ← protocol_unpack (some (calloc see_all_groups_reply_size)) buffer tag
      names ← or_fault names
      text ← string_at names 0
      fault)
    else fault

-- The second test is `tag == GROUP_CREATE_REPLY || tag == GROUP_JOIN_REPLY || GROUP_LEAVE_REPLY`, whose
-- last operand is the constant 12. A path that returns no value is a fault, since the caller reads it.
unfoldable pub receive_via_client_net : Receiving → Option Client → Exec ℕ
unfolding receive_from_server
receive_via_client_net env none = fault
receive_via_client_net env (some client) = do
  let buffer : Option Block = if env.for_buffer then some (calloc 2048) else none
  let buffer' = (receive_from_server env.arrives buffer).1
  tag ← protocol_get_tag buffer'
  if tag == register_reply || tag == login_reply || tag == logout_reply
      then receive_reply env.reply buffer' tag
      else if tag == group_create_reply || tag == group_join_reply || not (group_leave_reply == 0)
      then receive_group_reply env.reply_grp buffer' tag
      else if tag == group_all_available_reply
      then receive_see_groups env.for_see_groups buffer' tag
      else fault

-- The client's own pointer is passed by value and stays as it is.
unfoldable pub client_disconnected : Option Client → List ℤ
unfolding destroy_client
client_disconnected client = (destroy_client (some client)).1
