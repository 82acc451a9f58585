-- ===== src/SrvMng/Served.antt =====
-- A login from the client's buffer to the answer that is sent back.
use ipc_project.Base.{
  ℕ, ◌+◌, ◌<◌, ◌≤◌, ◌≡◌, refl, true, false, some, [], ◌∷◌, ◌++◌, length, ok, arith,
}
use ipc_project.CLib.{Block, Text}
use ipc_project.Containers.HashMap.{HashMapLib, IsLawful}
use ipc_project.Containers.Queue.{QueueLib}
use ipc_project.Containers.Vector.{VectorLib}
use ipc_project.Containers.Chain.{ListLib}
use ipc_project.Protocol.Layout.{
  RegisterOrLoginRequest, read_register_or_login, login_request, login_reply,
}
use ipc_project.UsrMng.{UsrMng}
use ipc_project.UsrMng.Directory.{user_of, IsValid}
use ipc_project.UsrMng.Spec.{log_in}
use ipc_project.ServerNet.{Server, buffer_size, send_to_client}
use ipc_project.ServerNet.Loop.{Loop, Round, sent, arrived, serve, handed}
use ipc_project.SrvMng.Handlers.{Memory, Locals, SrvMng, is_usermng_success}
use ipc_project.SrvMng.Lifetime.{got_msg, send_packet}
use ipc_project.SrvMng.Replies.{IsSized, answer}
use ipc_project.SrvMng.Sessions.{login_conversation}
use ipc_project.SrvMng.Network.{client_sends, serve-conversation, packet_of}
use ipc_project.CLib.Overlay.{overlay}

module _ (L : HashMapLib) (H : IsLawful L) (Q : QueueLib) (W : VectorLib) (K : ListLib) (E : Type 0)
    (memory : Memory) (locals : Locals) (server : Server K (SrvMng L Q W) E) (round : Round) (i : ℕ)
    (loop : Loop K (SrvMng L Q W) E) (users : UsrMng L) (message out bytes : Block)
    (r : RegisterOrLoginRequest) where
  -- A login that a client packs and sends on a connection is handed to `GotMessage`, whatever the
  -- server's buffer held before: it logs the user in, if the name and the password are those of a
  -- registered user, and else changes nothing. One message is sent, on the same connection, which
  -- says whether it succeeded, and the connection stays open. The handler of the server is
  -- `GotMessage`, the users are valid, there is memory for the request, the server's buffer has
  -- 100 bytes, and the name and the password have at most 29 characters and fit into the
  -- client's buffer.
  pub login_served :
      server.user_func_got_msg ≡ some (got_msg L Q W memory locals)
      → memory.for_request ≡ true
      → IsSized locals
      → loop.contxt.user_manager ≡ some users
      → IsValid L H users
      → length loop.buffer ≡ buffer_size
      → read_register_or_login message ≡ ok r
      → r.tag ≡ login_request
      → length r.username < 30
      → length r.password < 30
      → length r.username + length r.password + 4 ≤ length out
      → client_sends message out login_request ≡ ok bytes
      → round.recv i ≡ arrived bytes
      → (users' : UsrMng L) × (loop' : Loop K (SrvMng L Q W) E) × (serve K
            (SrvMng L Q W)
            E
            server
            round
            i
            loop
          ≡ ok (loop', false))
        × (loop'.contxt ≡ record loop.contxt { user_manager = some users' })
        × (loop'.events
            ≡ loop.events
              ++ (sent (record {
                bytes =
                    (answer locals
                      (is_usermng_success (log_in L (user_of L users) r.username r.password).0)
                      login_reply).bytes;
                size =
                    (answer locals
                      (is_usermng_success (log_in L (user_of L users) r.username r.password).0)
                      login_reply).size;
                client = i;
              })
                  ∷ []))
        × IsValid L H users'
        × ((name : Text)
            → user_of L users' name ≡ (log_in L (user_of L users) r.username r.password).1 name)
  unfolding send_to_client
  login_served handler requested sized has_users v buffer_length e t lu lp room sent_bytes arrives =
      let inside : length r.username + length r.password + 4 ≤ length loop.buffer =
        omega (arith, buffer_length) in
      let (users', talked, valid, view) =
        login_conversation L H Q W memory locals loop.contxt users message loop.buffer r requested
          sized has_users v e lu lp inside t in
      let reply =
        answer locals (is_usermng_success (log_in L (user_of L users) r.username r.password).0)
          login_reply in
      let contxt' : SrvMng L Q W = record loop.contxt { user_manager = some users' } in
      (
        users',
        handed K (SrvMng L Q W) E server false (overlay (packet_of r) loop.buffer) contxt'
            (send_packet (some reply) i) loop,
        serve-conversation message r login_request e t refl lu lp L H Q W memory locals K E server
            handler round i loop inside out bytes contxt' (some reply) room sent_bytes arrives
            talked,
        refl,
        refl,
        valid,
        view,
      )
