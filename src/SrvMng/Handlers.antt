-- ===== src/SrvMng/Handlers.antt =====
-- `GotMessage`, one function for each case of its `switch`.
use ipc_project.Base.{
  ℕ, ◌*◌, ℤ, Bool, true, false, Option, none, some, ◌==◌, if◌then◌else◌, Exec, ok, fault, ◌>>=◌,
  or_fault,
}
use ipc_project.CLib.{Block, Text, calloc, store, store32, strcpy, string_at}
use ipc_project.Containers.HashMap.{HashMapLib}
use ipc_project.Containers.Queue.{QueueLib}
use ipc_project.Containers.Vector.{VectorLib}
use ipc_project.Protocol.Layout.{
  register_request, register_reply, login_request, login_reply, logout_request, logout_reply,
  group_create_request, group_create_reply, group_join_request, group_join_reply,
  group_leave_request, group_leave_reply, group_all_available_request, group_all_available_reply,
  register_or_login_size, log_out_or_see_groups_size, grp_req_size, max_size_groups,
}
use ipc_project.Protocol.Dispatch.{protocol_pack, protocol_unpack, protocol_get_tag}
use ipc_project.User.{UserMemory}
use ipc_project.UsrMng.{
  UsrMng, UserMngResult, usermng_success, register_new_user, log_in_user, log_out_user,
  remove_all_groups_from_user,
}
use ipc_project.Group.{GroupMemory}
use ipc_project.GrpMng.Groups.{GrpMng, GroupMngResult, groupmng_success, codes, add_new_group}
use ipc_project.GrpMng.Groups.Membership.{
  add_user_to_group, remove_user_from_group, remove_user_from_all_groups,
}
use ipc_project.GrpMng.Groups.Listing.{get_all_group_names}

-- `SUCCESS` and `FAILURE`, and the size of the array `ip`.
abbrev pub success : ℕ
success = 1

abbrev pub failure : ℕ
failure = 0

abbrev pub ip_size : ℕ
ip_size = 15

-- The outcomes of the allocations that a message leads to.
pub record Memory : Type 0 where
  pub for_request : Bool
  pub for_user : UserMemory
  pub for_user_key : Bool
  pub for_user_groups : Bool
  pub for_group : GroupMemory
  pub for_group_key : Bool
  pub for_names : Bool
  pub for_vector : Bool

-- The local variables that are used as memory, with the bytes that they happen to hold: a buffer of
-- 4096 bytes and the three structs of replies.
pub record Locals : Type 0 where
  pub internal_buffer : Block
  pub data_to_send : Block
  pub data_to_send_group : Block
  pub data_to_send_see_grps : Block

-- The arguments of a call of `SendToClient` but the client.
pub record Packet : Type 0 where
  pub size : ℤ
  pub bytes : Block

abbrev pub is_usermng_success : UserMngResult → Bool
is_usermng_success usermng_success = true
is_usermng_success _ = false

abbrev pub is_groupmng_success : GroupMngResult → Bool
is_groupmng_success groupmng_success = true
is_groupmng_success _ = false

-- `ProtocolPack` into the local buffer.
unfoldable pub pack_packet : Locals → Block → ℕ → Exec Packet
pack_packet locals message tag = do
  (size, bytes) ← protocol_pack (some message) (some locals.internal_buffer) tag
  bytes ← or_fault bytes
  ok (record { size = size; bytes = bytes })

-- A plain reply: whether the request succeeded, and the tag.
unfoldable pub plain_reply : Locals → Bool → ℕ → Exec Packet
unfolding pack_packet
plain_reply locals good tag = do
  message ← store locals.data_to_send 0 (if good then success else failure)
  message ← store32 message 4 tag
  pack_packet locals message tag

-- The members of a `GroupCreateReply`, filled in one after the other.
unfoldable pub fill_group_reply : Block → ℕ → Text → Text → ℕ → Exec Block
fill_group_reply message value port ip tag = do
  message ← store message 4 value
  message ← strcpy message 20 port
  message ← strcpy message 5 ip
  store32 message 0 tag

-- A reply to a request to create or join a group, with the address if that succeeded. It is always
-- packed with `GROUP_CREATE_REPLY`.
unfoldable pub group_reply : Locals → Option Text → ℕ → Exec Packet
unfolding pack_packet
group_reply locals none tag = do
  message ← fill_group_reply locals.data_to_send_group failure (codes "port") (codes "ip") tag
  pack_packet locals message group_create_reply
group_reply locals (some ip) tag = do
  message ← fill_group_reply locals.data_to_send_group success (codes "2021") ip tag
  pack_packet locals message group_create_reply

-- `calloc` and `ProtocolUnpack` of a request. With no memory the code goes on with a NULL pointer.
unfoldable pub unpack_request : Bool → ℕ → Block → ℕ → Exec Block
unpack_request false size buffer tag = fault
unpack_request true size buffer tag = do
  (result, message) ← protocol_unpack (some (calloc (30 * size))) (some buffer) tag
  or_fault message

module _ (L : HashMapLib) (Q : QueueLib) (W : VectorLib) where
  pub record SrvMng : Type 0 where
    pub user_manager : Option (UsrMng L)
    pub group_manager : Option (GrpMng L Q)

  unfoldable pub got_register : Memory → Locals → SrvMng → Block → Exec (SrvMng × Packet)
  got_register memory locals server buffer = do
    request ← unpack_request memory.for_request register_or_login_size buffer register_request
    username ← string_at request 0
    password ← string_at request 30
    (result, users) ←
        register_new_user L memory.for_user memory.for_user_key server.user_manager (some username)
          (some password)
    packet ← plain_reply locals (is_usermng_success result) register_reply
    ok (record server { user_manager = users }, packet)

  unfoldable pub got_login : Memory → Locals → SrvMng → Block → Exec (SrvMng × Packet)
  got_login memory locals server buffer = do
    request ← unpack_request memory.for_request register_or_login_size buffer login_request
    username ← string_at request 0
    password ← string_at request 30
    (result, users) ← log_in_user L server.user_manager (some username) (some password)
    packet ← plain_reply locals (is_usermng_success result) login_reply
    ok (record server { user_manager = users }, packet)

  -- What follows a successful log-out; what the two calls return is not looked at.
  unfoldable pub leave_everything : Memory → SrvMng → Text → Exec SrvMng
  leave_everything memory server username = do
    (_, users) ←
        remove_all_groups_from_user L memory.for_user_groups server.user_manager (some username)
    (_, groups) ← remove_user_from_all_groups L Q server.group_manager (some username)
    ok (record { user_manager = users; group_manager = groups })

  unfoldable pub got_logout : Memory → Locals → SrvMng → Block → Exec (SrvMng × Packet)
  unfolding leave_everything
  got_logout memory locals server buffer = do
    request ← unpack_request memory.for_request log_out_or_see_groups_size buffer logout_request
    username ← string_at request 0
    (result, users) ← log_out_user L server.user_manager (some username)
    let server' : SrvMng = record server { user_manager = users }
    server' ←
        (if is_usermng_success result then leave_everything memory server' username else ok server')
    packet ← plain_reply locals (is_usermng_success result) logout_reply
    ok (server', packet)

  unfoldable pub got_group_create : Memory → Locals → SrvMng → Block → Exec (SrvMng × Packet)
  got_group_create memory locals server buffer = do
    request ← unpack_request memory.for_request grp_req_size buffer group_create_request
    group_name ← string_at request 30
    (result, ip, groups) ←
        add_new_group L Q memory.for_group memory.for_group_key server.group_manager
          (some group_name) (some ip_size)
    packet ←
        (if is_groupmng_success result
          then (or_fault ip >>= λ text. group_reply locals (some text) group_create_reply)
          else group_reply locals none group_create_reply)
    ok (record server { group_manager = groups }, packet)

  unfoldable pub got_group_join : Memory → Locals → SrvMng → Block → Exec (SrvMng × Packet)
  got_group_join memory locals server buffer = do
    request ← unpack_request memory.for_request grp_req_size buffer group_join_request
    username ← string_at request 0
    group_name ← string_at request 30
    (result, ip, groups) ←
        add_user_to_group L Q server.group_manager (some username) (some group_name) (some ip_size)
    packet ←
        (if is_groupmng_success result
          then (or_fault ip >>= λ text. group_reply locals (some text) group_join_reply)
          else group_reply locals none group_join_reply)
    ok (record server { group_manager = groups }, packet)

  unfoldable pub got_group_leave : Memory → Locals → SrvMng → Block → Exec (SrvMng × Packet)
  got_group_leave memory locals server buffer = do
    request ← unpack_request memory.for_request grp_req_size buffer group_leave_request
    username ← string_at request 0
    group_name ← string_at request 30
    (result, groups) ←
        remove_user_from_group L Q server.group_manager (some username) (some group_name)
    packet ← plain_reply locals (is_groupmng_success result) group_leave_reply
    ok (record server { group_manager = groups }, packet)

  -- With no memory for the names nothing is sent.
  unfoldable pub got_see_groups : Memory → Locals → SrvMng → Exec (SrvMng × Option Packet)
  got_see_groups memory locals server =
      if memory.for_names
      then (do
        (result, names) ←
            get_all_group_names L Q W memory.for_vector server.group_manager
              (calloc max_size_groups)
        let good = is_groupmng_success result
        text ← string_at names 0
        message ← store locals.data_to_send_see_grps 1000 (if good then success else failure)
        message ← strcpy message 0 (if good then text else codes "No Groups")
        message ← store32 message 1004 group_all_available_reply
        packet ← pack_packet locals message group_all_available_reply
        ok (server, some packet))
      else ok (server, none)

  -- The case that a tag selects. Another tag has none.
  unfoldable pub got_tag : ℕ → Memory → Locals → SrvMng → Block → Exec (SrvMng × Option Packet)
  got_tag tag memory locals server buffer =
      if tag == register_request
      then (got_register memory locals server buffer >>= λ r. ok (r.0, some r.1))
      else if tag == login_request
      then (got_login memory locals server buffer >>= λ r. ok (r.0, some r.1))
      else if tag == logout_request
      then (got_logout memory locals server buffer >>= λ r. ok (r.0, some r.1))
      else if tag == group_create_request
      then (got_group_create memory locals server buffer >>= λ r. ok (r.0, some r.1))
      else if tag == group_join_request
      then (got_group_join memory locals server buffer >>= λ r. ok (r.0, some r.1))
      else if tag == group_all_available_request
      then got_see_groups memory locals server
      else if tag == group_leave_request
      then (got_group_leave memory locals server buffer >>= λ r. ok (r.0, some r.1))
      else ok (server, none)

  -- The server, if there is one, after a message, and the packet that is sent.
  unfoldable pub got_message :
      Memory → Locals → Option Block → Option SrvMng → Exec (Option SrvMng × Option Packet)
  unfolding got_tag
  got_message memory locals none server = ok (server, none)
  got_message memory locals (some buffer) none = ok (none, none)
  got_message memory locals (some buffer) (some server) = do
    tag ← protocol_get_tag (some buffer)
    (server', packet) ← got_tag tag memory locals server buffer
    ok (some server', packet)
