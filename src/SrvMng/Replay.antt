-- ===== src/SrvMng/Replay.antt =====
-- What the end of a connection does to the groups: the last message is handled again.
use ipc_project.Base.{
  ℕ, ◌+◌, ◌<◌, ◌≤◌, ◌≡◌, ◌≢◌, refl, subst, ◌∙◌, true, false, Option, none, some, List, [], ◌∷◌,
  length, ok, arith, All,
}
use ipc_project.CLib.{Block, Text, IsText}
use ipc_project.CLib.Overlay.{overlay}
use ipc_project.Containers.HashMap.{
  HashMapLib, map_allocation_error, map_key_duplicate_error, MapResult,
}
use ipc_project.Containers.HashMap
use ipc_project.Containers.Queue.{QueueLib}
use ipc_project.Containers.Queue
use ipc_project.Containers.Vector.{VectorLib}
use ipc_project.Containers.Chain.{ListLib}
use ipc_project.Containers.Objects.{object_of-address, updated_self}
use ipc_project.Protocol.Layout.{
  GrpReqStruct, read_grp_req, group_create_request, group_create_reply,
}
use ipc_project.Protocol.RoundTrip.{read_grp_req-read_register_or_login}
use ipc_project.Group.{Group}
use ipc_project.GrpMng.Groups.{GrpMng}
use ipc_project.GrpMng.Directory.{group_of, IsKept, IsValid, fresh_group, create_group}
use ipc_project.GrpMng.NewGroup.{plenty, insert_status}
use ipc_project.ServerNet.{Server, buffer_size}
use ipc_project.ServerNet.Loop.{Loop, Round, arrived, hand_on, handed}
use ipc_project.ServerNet.Handing.{hand_on-arrived}
use ipc_project.SrvMng.Handlers.{Memory, Locals, SrvMng}
use ipc_project.SrvMng.Lifetime.{got_msg, send_packet}
use ipc_project.SrvMng.Replies.{IsSized}
use ipc_project.SrvMng.Groups.{EndsIn, create_conversation, as_login}
use ipc_project.SrvMng.Sessions.{conversation}
use ipc_project.SrvMng.Network.{packet_of, packet-length, got_msg-conversation}

-- A name that is there is no question of memory.
present-insert_status :
    (L : HashMapLib) (H : HashMap.IsLawful L) (Q : QueueLib) (m : GrpMng L Q) (free : List Text)
    (name : Text) (g : Group L)
    → IsValid L H Q m free
    → group_of L Q m name ≡ some g
    → insert_status L Q m name ≢ map_allocation_error
present-insert_status L H Q m free name g v at full =
    let (a, e, _, _) = object_of-address L H (IsKept L H) m.group_map m.heap name g v.sound at in
    let duplicate =
      H.insert_present (Option ℕ) m.group_map name (some (length m.heap)) (some a) v.sound.keyed
        e in
    ground (arith, full, duplicate)

module _ (L : HashMapLib) (H : HashMap.IsLawful L) (Q : QueueLib) (QL : Queue.IsLawful Q)
    (W : VectorLib) (memory : Memory) (locals : Locals) (managers : SrvMng L Q W)
    (groups : GrpMng L Q) (ip : Text) (free : List Text) (message buffer : Block)
    (r : GrpReqStruct) where
  -- A conversation about a name of which it is known whether a group has it.
  created_as :
      (taken : Option (Group L))
      → group_of L Q groups r.group_name ≡ taken
      → memory.for_request ≡ true
      → memory.for_group ≡ plenty
      → memory.for_group_key ≡ true
      → IsSized locals
      → managers.group_manager ≡ some groups
      → IsValid L H Q groups (ip ∷ free)
      → All IsText (ip ∷ free)
      → read_grp_req message ≡ ok r
      → r.tag ≡ group_create_request
      → length r.username < 30
      → length r.group_name < 30
      → length r.username + length r.group_name + 4 ≤ length buffer
      → insert_status L Q groups r.group_name ≢ map_allocation_error
      → EndsIn L H Q W managers
          (conversation L H Q W memory locals managers message buffer group_create_request)
          group_create_reply
          (create_group L H Q taken (group_of L Q groups) (ip ∷ free) r.group_name)
  created_as taken known requested for_group for_key sized has_groups v text e t lu lg room
        not_full =
      subst
        (λ taken'.
          EndsIn L H Q W managers
            (conversation L H Q W memory locals managers message buffer group_create_request)
            group_create_reply
            (create_group L H Q taken' (group_of L Q groups) (ip ∷ free) r.group_name))
        known
        (create_conversation L H Q QL W memory locals managers groups (ip ∷ free) message buffer r
          requested sized has_groups v e lu lg room t for_group for_key text not_full)

module _ (L : HashMapLib) (H : HashMap.IsLawful L) (Q : QueueLib) (QL : Queue.IsLawful Q)
    (W : VectorLib) (K : ListLib) (E : Type 0) (memory : Memory) (locals : Locals)
    (server : Server K (SrvMng L Q W) E) (round round' : Round) (i j : ℕ)
    (loop : Loop K (SrvMng L Q W) E) (groups : GrpMng L Q) (ip lost : Text) (free : List Text)
    (message : Block) (r : GrpReqStruct) where
  -- A request to create a group takes the first free address. When some connection then ends,
  -- the server handles the request again, since the handler is called without a new message and
  -- the buffer still holds the last one: no group changes, and the next free address is lost.
  -- The handler of the server is `GotMessage`, the groups are valid and two addresses are free, the
  -- name is not taken, every allocation succeeds, the server's buffer has 100 bytes, and the names
  -- have at most 29 characters.
  pub disconnect_loses_address :
      server.user_func_got_msg ≡ some (got_msg L Q W memory locals)
      → memory.for_request ≡ true
      → memory.for_group ≡ plenty
      → memory.for_group_key ≡ true
      → IsSized locals
      → loop.contxt.group_manager ≡ some groups
      → IsValid L H Q groups (ip ∷ lost ∷ free)
      → All IsText (ip ∷ lost ∷ free)
      → length loop.buffer ≡ buffer_size
      → read_grp_req message ≡ ok r
      → r.tag ≡ group_create_request
      → length r.username < 30
      → length r.group_name < 30
      → group_of L Q groups r.group_name ≡ none
      → insert_status L Q groups r.group_name ≢ map_allocation_error
      → round.recv i ≡ arrived (packet_of (as_login r))
      → round'.recv j ≡ arrived []
      → (groups' groups'' : GrpMng L Q) × (loop' loop'' : Loop K (SrvMng L Q W) E) × (hand_on K
            (SrvMng L Q W)
            E
            server
            round
            i
            loop
          ≡ ok loop')
        × (loop'.contxt ≡ record loop.contxt { group_manager = some groups' })
        × IsValid L H Q groups' (lost ∷ free)
        × (hand_on K (SrvMng L Q W) E server round' j loop' ≡ ok loop'')
        × (loop''.contxt ≡ record loop.contxt { group_manager = some groups'' })
        × IsValid L H Q groups'' free
        × ((name : Text) → group_of L Q groups'' name ≡ group_of L Q groups' name)
  unfolding overlay
  disconnect_loses_address handler requested for_group for_key sized has_groups v text buffer_length
        e t lu lg absent not_full arrives ends =
      let read = read_grp_req-read_register_or_login message r e in
      let room : length r.username + length r.group_name + 4 ≤ length loop.buffer =
        omega (arith, buffer_length) in
      let short : length (packet_of (as_login r)) ≤ buffer_size =
        omega (arith, packet-length (as_login r)) in
      let (groups', packet, talked, _, valid, view) =
        created_as L H Q QL W memory locals loop.contxt groups ip (lost ∷ free) message loop.buffer
          r none absent requested for_group for_key sized has_groups v text e t lu lg room
          not_full in
      let contxt' : SrvMng L Q W = record loop.contxt { group_manager = some groups' } in
      let made = fresh_group L H Q r.group_name ip in
      let there : group_of L Q groups' r.group_name ≡ some made =
        view r.group_name ∙ updated_self (group_of L Q groups) r.group_name made in
      let (groups'', packet', talked', _, valid', view') =
        created_as L H Q QL W memory locals contxt' groups' lost free message loop.buffer r
          (some made) there requested for_group for_key sized refl valid text.1 e t lu lg room
          (present-insert_status L H Q groups' (lost ∷ free) r.group_name made valid there) in
      let contxt'' : SrvMng L Q W = record loop.contxt { group_manager = some groups'' } in
      let buffer' = overlay (packet_of (as_login r)) loop.buffer in
      let loop' =
        handed K (SrvMng L Q W) E server false buffer' contxt' (send_packet (some packet) i) loop in
      let handles =
        got_msg-conversation message (as_login r) group_create_request read t refl lu lg L H Q W
          memory locals loop.buffer in
      (
        groups',
        groups'',
        loop',
        handed K (SrvMng L Q W) E server false buffer' contxt'' (send_packet (some packet') j)
            loop',
        hand_on-arrived (packet_of (as_login r)) short K (SrvMng L Q W) E server
            (got_msg L Q W memory locals) handler round i loop arrives
            (handles (length (packet_of (as_login r))) i loop.contxt contxt' (some packet) room
              talked),
        refl,
        valid,
        hand_on-arrived [] (omega arith) K (SrvMng L Q W) E server (got_msg L Q W memory locals)
            handler round' j loop' ends (handles 0 j contxt' contxt'' (some packet') room talked'),
        refl,
        valid',
        view',
      )
