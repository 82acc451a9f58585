-- ===== src/ClientManager.antt =====
-- client_manager.c: how the client packs its requests and sends them.
--
-- The packets that are handed to `SendToServer` are part of the result, in order; the socket, which is
-- always the client's, is not. ClientManager/Receiving is the rest of the file.
pub mod Structs
pub mod Sending
pub mod Single
pub mod Receiving
pub mod Answered
use ipc_project.Base.{
  ℕ, ℤ, Option, none, some, Bool, true, false, List, [], ◌∷◌, ◌++◌, ◌||◌, ◌==◌, not, if◌then◌else◌,
  Exec, ok, ◌>>=◌,
}
use ipc_project.CLib.{Block, Text, calloc, store32, strcpy}
use ipc_project.Protocol.Layout.{
  register_request, login_request, logout_request, group_create_request, group_join_request,
  group_leave_request, group_all_available_request, register_or_login_size, grp_req_size,
  log_out_or_see_groups_size,
}
use ipc_project.Protocol.Dispatch.{protocol_pack}

abbrev pub buff_size : ℕ
buff_size = 100

pub data ClientManagerSignal : Type 0 where
  clnt_mng_conn_success clnt_mng_conn_fail clnt_mng_send_ok clnt_mng_send_fail : ClientManagerSignal
  clnt_mng_recv_ok clnt_mng_recv_fail clnt_mng_destroy_ok : ClientManagerSignal
  clnt_mng_clnt_uninitialized : ClientManagerSignal

-- Which of the four calls of `calloc` succeed.
pub record ClientMemory : Type 0 where
  pub for_buffer : Bool
  pub for_login : Bool
  pub for_group : Bool
  pub for_log_out : Bool

-- The size and the bytes that `SendToServer` is given. A NULL buffer is `none`.
pub record Sent : Type 0 where
  pub size : ℤ
  pub bytes : Option Block

-- The two structs with two strings, which lie alike.
unfoldable pub two_strings_struct : ℕ → Text → Text → Exec Block
two_strings_struct tag first second = do
  msg ← store32 (calloc register_or_login_size) 60 tag
  msg ← strcpy msg 0 first
  strcpy msg 30 second

unfoldable pub one_string_struct : ℕ → Text → Exec Block
one_string_struct tag first = do
  msg ← store32 (calloc log_out_or_see_groups_size) 32 tag
  strcpy msg 0 first

-- Packing a struct into the buffer, and sending the buffer.
unfoldable pub pack_and_send_struct : Block → Option Block → ℕ → Exec (Sent × Option Block)
pack_and_send_struct msg buffer action = do
  (size, buffer') ← protocol_pack (some msg) buffer action
  ok (record { size = size; bytes = buffer' }, buffer')

-- One of the three tests with its body. The result is `none` where the call ends, or what was sent
-- and the buffer.
unfoldable pub send_part :
    Bool → Bool → Exec Block → Option Block → ℕ → Exec (Option (List Sent × Option Block))
unfolding pack_and_send_struct
send_part chosen memory struct buffer action =
    if not chosen then ok (some ([], buffer)) else if not memory then ok none else (do
      msg ← struct
      (sent, buffer') ← pack_and_send_struct msg buffer action
      ok (some (sent ∷ [], buffer')))

-- The rest of the call after a part.
abbrev pub after :
    Option (List Sent × Option Block)
    → List Sent
    → (List Sent → Option Block → Exec (ClientManagerSignal × List Sent))
    → Exec (ClientManagerSignal × List Sent)
after none sent rest = ok (clnt_mng_send_fail, sent)
after (some (more, buffer)) sent rest = rest (sent ++ more) buffer

-- The second test is `_action == GROUP_CREATE_REQUEST || _action == GROUP_JOIN_REQUEST ||
-- GROUP_LEAVE_REQUEST`, whose last operand is the constant 11.
unfoldable pub pack_and_send_via_client_net :
    ClientMemory → Option Text → Option Text → ℕ → Exec (ClientManagerSignal × List Sent)
unfolding send_part
pack_and_send_via_client_net memory none pass action = ok (clnt_mng_send_fail, [])
pack_and_send_via_client_net memory (some user_name) none action = ok (clnt_mng_send_fail, [])
pack_and_send_via_client_net memory (some user_name) (some pass) action = do
  let buffer : Option Block = if memory.for_buffer then some (calloc buff_size) else none
  first ←
      send_part (action == register_request || action == login_request) memory.for_login
        (two_strings_struct action user_name pass) buffer action
  after first [] λ sent buffer. (do
    second ←
        send_part
          (action == group_create_request
            || action == group_join_request
            || not (group_leave_request == 0))
          memory.for_group (two_strings_struct action user_name pass) buffer action
    after second sent λ sent buffer. (do
      third ←
          send_part (action == group_all_available_request || action == logout_request)
            memory.for_log_out (one_string_struct action user_name) buffer action
      after third sent λ sent buffer. ok (clnt_mng_send_ok, sent)))
