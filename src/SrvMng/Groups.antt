-- ===== src/SrvMng/Groups.antt =====
-- `GotMessage` of srv_mng.c with a request that a client packed to create or to join a group.
use ipc_project.Base.{
  ℕ, ◌+◌, ◌<◌, ◌≤◌, ◌≡◌, ◌≢◌, refl, Bool, true, false, Option, none, some, List, [], ◌∷◌, length,
  arith, ok, ◌>>=◌, or_fault, Exec, if◌then◌else◌, All,
}
use ipc_project.CLib.{Block, Text, IsText}
use ipc_project.Containers.HashMap.{HashMapLib, map_allocation_error}
use ipc_project.Containers.HashMap
use ipc_project.Containers.Queue.{QueueLib}
use ipc_project.Containers.Queue
use ipc_project.Containers.Vector.{VectorLib}
use ipc_project.Containers.Objects.{object_of-address, updated}
use ipc_project.Protocol.Layout.{
  RegisterOrLoginRequest, GrpReqStruct, read_grp_req, GroupCreateReply, group_create_request,
  group_create_reply, group_join_request, group_join_reply,
}
use ipc_project.Protocol.RoundTrip.{read_grp_req-read_register_or_login}
use ipc_project.Group.{Group}
use ipc_project.GrpMng.Groups.{GrpMng, GroupMngResult, groupmng_success, groupmng_duplicate, codes}
use ipc_project.GrpMng.Directory.{group_of, IsKept, IsValid, create_group, Outcome}
use ipc_project.GrpMng.NewGroup.{plenty, insert_status, add_new_group-Refines}
use ipc_project.GrpMng.Members.{is_member, join_status, Joins, add_user_to_group-Refines}
use ipc_project.SrvMng.Handlers.{
  Memory, Locals, Packet, SrvMng, success, failure, got_message, got_tag, got_group_create,
  got_group_join, group_reply, is_groupmng_success,
}
use ipc_project.SrvMng.Replies.{IsSized}
use ipc_project.SrvMng.GroupReplies.{reads, packed_reply}
use ipc_project.SrvMng.Requests.{two_strings_arrive_as}
use ipc_project.SrvMng.Sessions.{conversation}

-- What the client reads: the address and the port of the group, or a failure.
abbrev pub group_answer : ℕ → Bool → Option Text → GroupCreateReply
group_answer tag true (some ip) = record {
  tag = tag;
  reply = success;
  ip = ip;
  port = codes "2021";
}
group_answer tag _ _ = record { tag = tag; reply = failure; ip = codes "ip"; port = codes "port" }

-- A success comes with an address that fits.
abbrev pub IsSendable : Bool → Option Text → Type 0
IsSendable false address = Unit {0}
IsSendable true none = ⊥
IsSendable true (some ip) = (length ip < 15) × IsText ip

ip-IsText : IsText (codes "ip")
ip-IsText = (omega arith, (omega arith, tt))

port-IsText : IsText (codes "port")
port-IsText = (omega arith, (omega arith, (omega arith, (omega arith, tt))))

number-IsText : IsText (codes "2021")
number-IsText = (omega arith, (omega arith, (omega arith, (omega arith, tt))))

group_packet :
    (locals : Locals) (tag : ℕ) (good : Bool) (address : Option Text)
    → IsSized locals
    → tag < 128
    → IsSendable good address
    → (packet : Packet) × ((if good
          then (or_fault address >>= λ text. group_reply locals (some text) tag)
          else group_reply locals none tag)
        ≡ ok packet)
      × (reads packet ≡ ok (group_answer tag good address))
unfolding group_reply
group_packet locals tag false none sized small s =
    packed_reply locals failure tag (codes "ip") (codes "port") sized.buffer_size
      sized.group_reply_size (omega arith) refl ip-IsText port-IsText small (omega arith)
group_packet locals tag false (some ip) sized small s =
    packed_reply locals failure tag (codes "ip") (codes "port") sized.buffer_size
      sized.group_reply_size (omega arith) refl ip-IsText port-IsText small (omega arith)
group_packet locals tag true none sized small s = elim s [ ]
group_packet locals tag true (some ip) sized small (fits, text) =
    packed_reply locals success tag ip (codes "2021") sized.buffer_size sized.group_reply_size fits
      refl text number-IsText small (omega arith)

create_group-IsSendable :
    (L : HashMapLib) (H : HashMap.IsLawful L) (Q : QueueLib) (taken : Option (Group L))
    (d : Text → Option (Group L)) (free : List Text) (name : Text)
    → All (λ ip. length ip < 15) free
    → All IsText free
    → IsSendable
        (is_groupmng_success (create_group L H Q taken d free name).status)
        (create_group L H Q taken d free name).address
create_group-IsSendable L H Q taken d [] name fit text = tt
create_group-IsSendable L H Q none d (ip ∷ free) name fit text = (fit.0, text.0)
create_group-IsSendable L H Q (some g) d (ip ∷ free) name fit text = tt

joined-IsSendable :
    (member : Bool) (ip : Text)
    → length ip < 15
    → IsText ip
    → IsSendable
        (is_groupmng_success (if member then groupmng_duplicate else groupmng_success))
        (if member then none else some ip)
joined-IsSendable true ip fits text = tt
joined-IsSendable false ip fits text = (fits, text)

abbrev pub as_login : GrpReqStruct → RegisterOrLoginRequest
as_login r = record { username = r.username; password = r.group_name; tag = r.tag }

module _ (L : HashMapLib) (H : HashMap.IsLawful L) (Q : QueueLib) (W : VectorLib) where
  -- A conversation ends in this outcome of the group manager, and the client reads its answer.
  abbrev pub EndsIn :
      SrvMng L Q W → Exec (Option (SrvMng L Q W) × Option Packet) → ℕ → Outcome L H Q → Type 0
  EndsIn server run tag o =
      (groups' : GrpMng L Q) × (packet : Packet) × (run
        ≡ ok (some (record server { group_manager = some groups' }), some packet))
      × (reads packet ≡ ok (group_answer tag (is_groupmng_success o.status) o.address))
      × IsValid L H Q groups' o.free
      × ((name : Text) → group_of L Q groups' name ≡ o.directory name)

module _ (L : HashMapLib) (H : HashMap.IsLawful L) (Q : QueueLib) (K : Queue.IsLawful Q)
    (W : VectorLib) (memory : Memory) (locals : Locals) (server : SrvMng L Q W)
    (groups : GrpMng L Q) (free : List Text) (message out : Block) (r : GrpReqStruct)
    (requested : memory.for_request ≡ true) (sized : IsSized locals)
    (has_groups : server.group_manager ≡ some groups) (v : IsValid L H Q groups free)
    (e : read_grp_req message ≡ ok r) (lu : length r.username < 30) (lg : length r.group_name < 30)
    (room : length r.username + length r.group_name + 4 ≤ length out) where
  -- A request to create a group that a client packs takes the first free address for the
  -- group. The client unpacks the address and the port 2021 from the answer. If the name is
  -- taken or no address is free, no group is made and the client unpacks a failure. The users
  -- stay as they were, and nothing faults. The server has a valid manager of groups whose free
  -- addresses are strings, every allocation succeeds, and the names have at most 29 characters
  -- and fit into the client's buffer.
  pub create_conversation :
      r.tag ≡ group_create_request
      → memory.for_group ≡ plenty
      → memory.for_group_key ≡ true
      → All IsText free
      → insert_status L Q groups r.group_name ≢ map_allocation_error
      → EndsIn L H Q W server
          (conversation L H Q W memory locals server message out group_create_request)
          group_create_reply
          (create_group L H Q
            (group_of L Q groups r.group_name)
            (group_of L Q groups)
            free
            r.group_name)
  unfolding got_message got_tag got_group_create
  create_conversation t for_group for_key text not_full =
      let read = read_grp_req-read_register_or_login message r e in
      let (size, buffer, blk, packed, tagged, unpacked, user, name) =
        two_strings_arrive_as message out (as_login r) group_create_request read t refl lu lg
          room in
      let (groups', ran, valid, view) =
        add_new_group-Refines L H Q K groups r.group_name lg 15 (omega arith) free v not_full in
      let o =
        create_group L H Q (group_of L Q groups r.group_name) (group_of L Q groups) free
          r.group_name in
      let sendable =
        create_group-IsSendable L H Q (group_of L Q groups r.group_name) (group_of L Q groups) free
          r.group_name v.free_fit text in
      let (packet, replied, read_back) =
        group_packet locals group_create_reply (is_groupmng_success o.status) o.address sized
          (omega arith) sendable in
      (
        groups',
        packet,
        rw (packed, tagged, requested, unpacked, name, has_groups, for_group, for_key, ran, replied)
            refl,
        read_back,
        valid,
        view,
      )

  -- A request to join a group that a client packs adds the user to the group, and the client
  -- unpacks the group's address and the port 2021 from the answer. A user who is a member
  -- already unpacks a failure. No other membership changes, the users stay as they were, and
  -- nothing faults. The server has a valid manager of groups with that group, whose address is
  -- a string, memory for the request and room for the user, and the names have at most 29
  -- characters and fit into the client's buffer.
  pub join-conversation :
      (g : Group L)
      → r.tag ≡ group_join_request
      → group_of L Q groups r.group_name ≡ some g
      → IsText g.group_ip
      → join_status L g r.username ≢ map_allocation_error
      → (g' : Group L) × Joins L r.username g g'
        × EndsIn L H Q W server
            (conversation L H Q W memory locals server message out group_join_request)
            group_join_reply
            (record {
              status = if is_member L g r.username then groupmng_duplicate else groupmng_success;
              address = if is_member L g r.username then none else some g.group_ip;
              directory = updated (group_of L Q groups) r.group_name g';
              free = free;
            })
  unfolding got_message got_tag got_group_join
  join-conversation g t at text not_full =
      let read = read_grp_req-read_register_or_login message r e in
      let (size, buffer, blk, packed, tagged, unpacked, user, name) =
        two_strings_arrive_as message out (as_login r) group_join_request read t refl lu lg room in
      let (g', joins, (groups', ran, valid, view)) =
        add_user_to_group-Refines L H Q groups free v r.group_name r.username g 15 at (omega arith)
          not_full in
      let (_, _, _, kept) =
        object_of-address L H (IsKept L H) groups.group_map groups.heap r.group_name g v.sound at in
      let member = is_member L g r.username in
      let status : GroupMngResult = if member then groupmng_duplicate else groupmng_success in
      let address : Option Text = if member then none else some g.group_ip in
      let (packet, replied, read_back) =
        group_packet locals group_join_reply (is_groupmng_success status) address sized
          (omega arith) (joined-IsSendable member g.group_ip kept.ip_fits text) in
      (
        g',
        joins,
        (
          groups',
          packet,
          rw (packed, tagged, requested, unpacked, user, name, has_groups, ran, replied) refl,
          read_back,
          valid,
          view,
        ),
      )
