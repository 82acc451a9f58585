-- ===== src/SrvMng/Twice.antt =====
-- What the server makes of a registration that the client sends twice.
use ipc_project.Base.{
  ℕ, ◌+◌, ◌<◌, ◌≤◌, ◌≡◌, ◌≢◌, refl, sym, ap, subst, ◌∙◌, Bool, true, false, Option, none, some, [],
  ◌∷◌, ◌++◌, length, take, ok, arith,
}
use ipc_project.CLib.{Block, Text, IsText, calloc}
use ipc_project.CLib.Overlay.{overlay}
use ipc_project.Containers.HashMap.{HashMapLib, IsLawful, map_allocation_error}
use ipc_project.Containers.Queue.{QueueLib}
use ipc_project.Containers.Vector.{VectorLib}
use ipc_project.Containers.Chain.{ListLib}
use ipc_project.Containers.Objects.{object_of-address, updated, updated_self}
use ipc_project.Protocol.Layout.{
  RegisterOrLoginRequest, read_register_or_login, register_request, register_reply,
}
use ipc_project.User.{User}
use ipc_project.UsrMng.{UsrMng}
use ipc_project.UsrMng.Directory.{user_of, IsKept, IsValid}
use ipc_project.UsrMng.Spec.{register, fresh_user}
use ipc_project.UsrMng.Registration.{plenty as plenty_of_memory, insert_status}
use ipc_project.ClientManager.{Sent, pack_and_send_via_client_net, clnt_mng_send_ok}
use ipc_project.ClientManager.Sending.{
  plenty, packet, overlay_room, pack_and_send_via_client_net_lem,
}
use ipc_project.ClientManager.Structs.{two_strings_struct-read}
use ipc_project.ServerNet.{Server, buffer_size, send_to_client}
use ipc_project.ServerNet.Loop.{Loop, Round, Event, sent, arrived, to_size, serve, handed}
use ipc_project.SrvMng.Handlers.{Memory, Locals, SrvMng, is_usermng_success}
use ipc_project.SrvMng.Lifetime.{got_msg, send_packet}
use ipc_project.SrvMng.Replies.{IsSized, answer}
use ipc_project.SrvMng.Sessions.{conversation, Answers, register-conversation}
use ipc_project.SrvMng.Network.{
  packet_of, packet-length, client_sends-wire, serve-conversation, overlay_short,
}

-- What `send` puts on the wire.
abbrev pub on_the_wire : Sent → Block
on_the_wire message = elim message.bytes [
  | none ↦ []
  | some bytes ↦ take (to_size message.size) bytes
]

packet-on_the_wire :
    (tag : ℕ) (first second : Text)
    → on_the_wire (packet tag first second)
      ≡ packet_of (record { username = first; password = second; tag = tag })
packet-on_the_wire tag first second =
    let r : RegisterOrLoginRequest = record { username = first; password = second; tag = tag } in
    ap (λ n. take n (overlay (packet_of r) (calloc 100))) (sym (packet-length r))
    ∙ overlay_short (packet_of r) (calloc 100)

-- A name that is there is no question of memory.
present-insert_status :
    (L : HashMapLib) (H : IsLawful L) (m : UsrMng L) (name : Text) (user : User L)
    → IsValid L H m
    → user_of L m name ≡ some user
    → insert_status L m name ≢ map_allocation_error
present-insert_status L H m name user v at full =
    let (a, e, _, _) = object_of-address L H (IsKept L H) m.user_map m.heap name user v at in
    let duplicate =
      H.insert_present (Option ℕ) m.user_map name (some (length m.heap)) (some a) v.keyed e in
    ground (arith, full, duplicate)

module _ (L : HashMapLib) (H : IsLawful L) (Q : QueueLib) (W : VectorLib) (memory : Memory)
    (locals : Locals) (managers : SrvMng L Q W) (users : UsrMng L) (message buffer : Block)
    (r : RegisterOrLoginRequest) where
  -- A conversation about a name of which it is known whether it is registered.
  registered_as :
      (taken : Option (User L))
      → user_of L users r.username ≡ taken
      → memory.for_request ≡ true
      → memory.for_user ≡ plenty_of_memory
      → memory.for_user_key ≡ true
      → IsSized locals
      → managers.user_manager ≡ some users
      → IsValid L H users
      → read_register_or_login message ≡ ok r
      → r.tag ≡ register_request
      → length r.username < 30
      → length r.password < 30
      → length r.username + length r.password + 4 ≤ length buffer
      → insert_status L users r.username ≢ map_allocation_error
      → Answers L H Q W
          (conversation L H Q W memory locals managers message buffer register_request)
          locals
          managers
          register_reply
          (register L taken (user_of L users) r.username r.password)
  registered_as taken known requested for_user for_key sized has_users v e t lu lp room not_full =
      subst
        (λ taken'.
          Answers L H Q W
            (conversation L H Q W memory locals managers message buffer register_request) locals
            managers register_reply (register L taken' (user_of L users) r.username r.password))
        known
        (register-conversation L H Q W memory locals managers users message buffer r requested sized
          has_users v e lu lp room t for_user for_key not_full)

module _ (L : HashMapLib) (H : IsLawful L) (Q : QueueLib) (W : VectorLib) (K : ListLib) (E : Type 0)
    (memory : Memory) (locals : Locals) (server : Server K (SrvMng L Q W) E) (i : ℕ) where
  abbrev reply : Bool → Event E
  reply good = sent (record {
    bytes = (answer locals good register_reply).bytes;
    size = (answer locals good register_reply).size;
    client = i;
  })

  module _ (handler : server.user_func_got_msg ≡ some (got_msg L Q W memory locals))
      (requested : memory.for_request ≡ true) (for_user : memory.for_user ≡ plenty_of_memory)
      (for_key : memory.for_user_key ≡ true) (sized : IsSized locals) (name pass : Text)
      (tn : IsText name) (tp : IsText pass) (ln : length name < 30) (lp : length pass < 30) where
    abbrev request : RegisterOrLoginRequest
    request = record { username = name; password = pass; tag = register_request }

    -- One of the packets, where it is known whether the name is registered.
    register_served :
        (round : Round) (loop : Loop K (SrvMng L Q W) E) (users : UsrMng L)
        (taken : Option (User L))
        → loop.contxt.user_manager ≡ some users
        → IsValid L H users
        → length name + length pass + 4 ≤ length loop.buffer
        → user_of L users name ≡ taken
        → insert_status L users name ≢ map_allocation_error
        → round.recv i ≡ arrived (packet_of request)
        → (users' : UsrMng L) × (serve K (SrvMng L Q W) E server round i loop
            ≡ ok (
              handed K
                  (SrvMng L Q W)
                  E
                  server
                  false
                  (overlay (packet_of request) loop.buffer)
                  (record loop.contxt { user_manager = some users' })
                  (send_packet
                    (some (
                      answer locals
                        (is_usermng_success (register L taken (user_of L users) name pass).0)
                        register_reply))
                    i)
                  loop,
              false,
            ))
          × IsValid L H users'
          × ((n : Text) → user_of L users' n ≡ (register L taken (user_of L users) name pass).1 n)
    register_served round loop users taken has_users v room known not_full arrives =
        let (message, _, read) =
          two_strings_struct-read register_request name pass tn tp ln lp (omega arith) in
        let (users', talked, valid, view) =
          registered_as L H Q W memory locals loop.contxt users message loop.buffer request taken
            known requested for_user for_key sized has_users v read refl ln lp room not_full in
        let good = is_usermng_success (register L taken (user_of L users) name pass).0 in
        (
          users',
          serve-conversation message request register_request read refl refl ln lp L H Q W memory
              locals K E server handler round i loop room loop.buffer (packet_of request)
              (record loop.contxt { user_manager = some users' })
              (some (answer locals good register_reply)) room
              (client_sends-wire message request register_request read refl refl ln lp loop.buffer
                room)
              arrives talked,
          valid,
          view,
        )

    -- A registration that the client sends, with a name that is not registered, reaches the server
    -- as two packets. The first registers the name with its password and is answered by a success;
    -- the second changes nothing and is answered by a failure. The connection stays open. The
    -- handler of the server is `GotMessage`, the users are valid, every allocation succeeds, the
    -- server's buffer has 100 bytes, and the name and the password are strings of at most 29
    -- characters.
    pub registered_twice :
        (round round' : Round) (loop : Loop K (SrvMng L Q W) E) (users : UsrMng L)
        (first second : Sent)
        → loop.contxt.user_manager ≡ some users
        → IsValid L H users
        → length loop.buffer ≡ buffer_size
        → user_of L users name ≡ none
        → insert_status L users name ≢ map_allocation_error
        → pack_and_send_via_client_net plenty (some name) (some pass) register_request
          ≡ ok (clnt_mng_send_ok, first ∷ second ∷ [])
        → round.recv i ≡ arrived (on_the_wire first)
        → round'.recv i ≡ arrived (on_the_wire second)
        → (users' : UsrMng L) × (loop' loop'' : Loop K (SrvMng L Q W) E) × (serve K
              (SrvMng L Q W)
              E
              server
              round
              i
              loop
            ≡ ok (loop', false))
          × (serve K (SrvMng L Q W) E server round' i loop' ≡ ok (loop'', false))
          × (loop''.contxt ≡ record loop.contxt { user_manager = some users' })
          × (loop''.events ≡ (loop.events ++ (reply true ∷ [])) ++ (reply false ∷ []))
          × IsValid L H users'
          × ((n : Text)
              → user_of L users' n ≡ updated (user_of L users) name (fresh_user L name pass) n)
    unfolding send_to_client
    registered_twice round round' loop users first second has_users v buffer_length absent not_full
          sends arrives arrives' =
        let known = pack_and_send_via_client_net_lem name pass register_request tn tp ln lp refl in
        let one : first ≡ packet register_request name pass = ground (arith, known) in
        let two : second ≡ packet register_request name pass = ground (arith, known) in
        let wire = packet-on_the_wire register_request name pass in
        let fresh = fresh_user L name pass in
        let room : length name + length pass + 4 ≤ length loop.buffer =
          omega (arith, buffer_length) in
        let (users', ran, valid, view) =
          register_served round loop users none has_users v room absent not_full
            (arrives ∙ ap (λ s. arrived (on_the_wire s)) one ∙ ap arrived wire) in
        let loop' : Loop K (SrvMng L Q W) E =
          handed K (SrvMng L Q W) E server false (overlay (packet_of request) loop.buffer)
            (record loop.contxt { user_manager = some users' })
            (send_packet (some (answer locals true register_reply)) i) loop in
        let there : user_of L users' name ≡ some fresh =
          view name ∙ updated_self (user_of L users) name fresh in
        let (users'', ran', valid', view') =
          register_served round' loop' users' (some fresh) refl valid
            (overlay_room name pass register_request loop.buffer) there
            (present-insert_status L H users' name fresh valid there)
            (arrives' ∙ ap (λ s. arrived (on_the_wire s)) two ∙ ap arrived wire) in
        (
          users'',
          loop',
          handed K (SrvMng L Q W) E server false
              (overlay (packet_of request) (overlay (packet_of request) loop.buffer))
              (record loop.contxt { user_manager = some users'' })
              (send_packet (some (answer locals false register_reply)) i) loop',
          ran,
          ran',
          refl,
          refl,
          valid',
          λ n. view' n ∙ view n,
        )
