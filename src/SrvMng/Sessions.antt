-- ===== src/SrvMng/Sessions.antt =====
-- `GotMessage` of srv_mng.c with a message that a client packed: registering and logging in.
use ipc_project.Base.{ℕ, ◌+◌, ◌<◌, ◌≤◌, ◌≡◌, ◌≢◌, refl, true, Option, some, length, ok, ◌>>=◌, Exec}
use ipc_project.CLib.{Block, Text}
use ipc_project.Containers.HashMap.{HashMapLib, IsLawful, map_allocation_error}
use ipc_project.Containers.Queue.{QueueLib}
use ipc_project.Containers.Vector.{VectorLib}
use ipc_project.Protocol.Layout.{
  RegisterOrLoginRequest, read_register_or_login, register_request, register_reply, login_request,
  login_reply,
}
use ipc_project.Protocol.Dispatch.{protocol_pack}
use ipc_project.UsrMng.{UsrMng, UserMngResult}
use ipc_project.UsrMng.Directory.{Directory, user_of, IsValid}
use ipc_project.UsrMng.Spec.{register, log_in}
use ipc_project.UsrMng.Sessions.{log_in_user-Refines}
use ipc_project.UsrMng.Registration.{plenty, insert_status, register_new_user-Refines}
use ipc_project.SrvMng.Handlers.{
  Memory, Locals, Packet, SrvMng, got_message, got_tag, got_login, got_register, is_usermng_success,
}
use ipc_project.SrvMng.Replies.{IsSized, answer, plain_reply-answer}
use ipc_project.SrvMng.Requests.{two_strings_arrive_as}

module _ (L : HashMapLib) (H : IsLawful L) (Q : QueueLib) (W : VectorLib) where
  -- A client packs a request into `out`, and the server gets the packet.
  abbrev pub conversation :
      Memory
      → Locals
      → SrvMng L Q W
      → Block
      → Block
      → ℕ
      → Exec (Option (SrvMng L Q W) × Option Packet)
  conversation memory locals server message out tag = do
    packed ← protocol_pack (some message) (some out) tag
    got_message L Q W memory locals packed.1 (some server)

  -- The conversation changes the users by a step of the user manager, leaves the groups alone, and
  -- ends with an answer that says whether the step succeeded.
  abbrev pub Answers :
      Exec (Option (SrvMng L Q W) × Option Packet)
      → Locals
      → SrvMng L Q W
      → ℕ
      → UserMngResult × Directory L
      → Type 0
  Answers run locals server tag step =
      (users : UsrMng L) × (run
        ≡ ok (
          some (record server { user_manager = some users }),
          some (answer locals (is_usermng_success step.0) tag),
        ))
      × IsValid L H users
      × ((name : Text) → user_of L users name ≡ step.1 name)

  module _ (memory : Memory) (locals : Locals) (server : SrvMng L Q W) (users : UsrMng L)
      (message out : Block) (r : RegisterOrLoginRequest) (requested : memory.for_request ≡ true)
      (sized : IsSized locals) (has_users : server.user_manager ≡ some users)
      (v : IsValid L H users) (e : read_register_or_login message ≡ ok r)
      (lu : length r.username < 30) (lp : length r.password < 30)
      (room : length r.username + length r.password + 4 ≤ length out) where
    -- A login that a client packs logs the user in, if the name and the password are those
    -- of a registered user, and the answer to it is a success; else it changes nothing and
    -- the answer is a failure. Nothing faults. The server has a valid manager of users and
    -- memory for the request, and the name and the password have at most 29 characters and
    -- fit into the client's buffer.
    pub login_conversation :
        r.tag ≡ login_request
        → Answers
            (conversation memory locals server message out login_request)
            locals
            server
            login_reply
            (log_in L (user_of L users) r.username r.password)
    unfolding got_message got_tag got_login
    login_conversation t =
        let (size, buffer, blk, packed, tagged, unpacked, user, pass) =
          two_strings_arrive_as message out r login_request e t refl lu lp room in
        let (users', ran, valid, view) = log_in_user-Refines L H users r.username v r.password in
        let good = is_usermng_success (log_in L (user_of L users) r.username r.password).0 in
        (
          users',
          rw
              (
                packed,
                tagged,
                requested,
                unpacked,
                user,
                pass,
                has_users,
                ran,
                plain_reply-answer locals good login_reply sized refl,
              )
              refl,
          valid,
          view,
        )

    -- A registration that a client packs registers the name with the password, if the name
    -- is not registered, and the answer to it is a success; else it changes nothing and the
    -- answer is a failure. Nothing faults. The server has a valid manager of users, every
    -- allocation succeeds, and the name and the password have at most 29 characters and fit
    -- into the client's buffer.
    pub register-conversation :
        r.tag ≡ register_request
        → memory.for_user ≡ plenty
        → memory.for_user_key ≡ true
        → insert_status L users r.username ≢ map_allocation_error
        → Answers
            (conversation memory locals server message out register_request)
            locals
            server
            register_reply
            (register L (user_of L users r.username) (user_of L users) r.username r.password)
    unfolding got_message got_tag got_register
    register-conversation t for_user for_key not_full =
        let (size, buffer, blk, packed, tagged, unpacked, user, pass) =
          two_strings_arrive_as message out r register_request e t refl lu lp room in
        let (users', ran, valid, view) =
          register_new_user-Refines L H users v r.username r.password lu lp not_full in
        let good =
          is_usermng_success
            (register L (user_of L users r.username) (user_of L users) r.username r.password).0 in
        (
          users',
          rw
              (
                packed,
                tagged,
                requested,
                unpacked,
                user,
                pass,
                has_users,
                for_user,
                for_key,
                ran,
                plain_reply-answer locals good register_reply sized refl,
              )
              refl,
          valid,
          view,
        )
