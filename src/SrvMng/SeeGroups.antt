-- ===== src/SrvMng/SeeGroups.antt =====
-- `GotMessage` of srv_mng.c with a request for the list of all groups.
use ipc_project.Base.{
  ℕ, ◌+◌, ◌≤◌, ◌≡◌, refl, inl, inr, true, false, Bool, Bool-cases, Option, some, length, map, All,
  arith, ltb, ok, fault, pos, ℤ, Exec, if◌then◌else◌,
}
use ipc_project.CLib.{Block, Text, IsText, load, char_to_word}
use ipc_project.CLib.Strings.{c_string-IsText}
use ipc_project.CLib.Overlay.{overlay}
use ipc_project.Containers.HashMap.{HashMapLib}
use ipc_project.Containers.HashMap
use ipc_project.Containers.Queue.{QueueLib}
use ipc_project.Containers.Vector.{VectorLib}
use ipc_project.Containers.Vector
use ipc_project.Protocol.Layout.{
  LogOutOrSeeGroupsReq, read_log_out_or_see_groups, group_all_available_request,
}
use ipc_project.Protocol.Dispatch.{protocol_pack, protocol_get_tag, pack_by_tag}
use ipc_project.Protocol.Wire.{one_string_wire, pack_log_out_or_see_groups_request-wire}
use ipc_project.GrpMng.Groups.{GrpMng}
use ipc_project.GrpMng.Names.{joined, get_all_group_names-joined, get_all_group_names-overflow}
use ipc_project.SrvMng.Handlers.{
  Memory, Locals, Packet, SrvMng, got_message, got_tag, got_see_groups,
}
use ipc_project.SrvMng.Replies.{IsSized}
use ipc_project.SrvMng.NamesReply.{any_filled, names_packet, packs_names}
use ipc_project.SrvMng.Sessions.{conversation}

-- The request of a client.
request_arrives :
    (m out : Block) (r : LogOutOrSeeGroupsReq)
    → read_log_out_or_see_groups m ≡ ok r
    → r.tag ≡ group_all_available_request
    → length r.username + 3 ≤ length out
    → (size : ℤ) × (buffer : Block) × (protocol_pack (some m) (some out) group_all_available_request
        ≡ ok (size, some buffer))
      × (protocol_get_tag (some buffer) ≡ ok group_all_available_request)
unfolding protocol_pack pack_by_tag protocol_get_tag overlay load char_to_word
request_arrives m out r e t room =
    let wire = pack_log_out_or_see_groups_request-wire m out r e room in
    (
      pos (length r.username + 3),
      overlay (one_string_wire r.tag r.username) out,
      rw wire refl,
      rw t refl,
    )

module _ (L : HashMapLib) (H : HashMap.IsLawful L) (Q : QueueLib) (W : VectorLib)
    (V : Vector.IsLawful W) (memory : Memory) (locals : Locals) (groups : GrpMng L Q)
    (few : length (L.entries (Option ℕ) groups.group_map) ≤ 100)
    (texts : All IsText (map (λ e. e.0) (L.entries (Option ℕ) groups.group_map))) where
  -- The names of all groups, each with a comma and a blank behind it.
  abbrev pub listed : Text
  listed = joined (map (λ e. e.0) (L.entries (Option ℕ) groups.group_map))

  -- The answer of the server, if the names fit into the array.
  abbrev pub listing : SrvMng L Q W → Exec (Option (SrvMng L Q W) × Option Packet)
  listing server =
      if ltb (length listed) 1000
      then ok (some server, some (names_packet locals listed))
      else fault

  got_see_groups_lem :
      (server : SrvMng L Q W)
      → memory.for_names ≡ true
      → memory.for_vector ≡ true
      → IsSized locals
      → length locals.data_to_send_see_grps ≡ 1008
      → server.group_manager ≡ some groups
      → (fits : Bool) → ltb (length listed) 1000 ≡ fits
      → got_see_groups L Q W memory locals server
        ≡ (if fits then ok (server, some (names_packet locals listed)) else fault)
  unfolding got_see_groups
  got_see_groups_lem server for_names for_vector sized size has_groups true short =
      let (out, ran, text) = get_all_group_names-joined L Q W V groups few texts (ground arith) in
      let (d1, d2, m, first, second, third, read) =
        any_filled locals.data_to_send_see_grps listed size (c_string-IsText out listed text)
          (ground arith) in
      rw
        (
          for_names,
          for_vector,
          has_groups,
          ran,
          text,
          first,
          second,
          third,
          packs_names locals m listed sized (ground arith) read,
        )
        refl
  got_see_groups_lem server for_names for_vector sized size has_groups false long =
      rw
        (
          for_names,
          for_vector,
          has_groups,
          get_all_group_names-overflow L Q W V groups few texts (ground arith),
        )
        refl

  -- A request for the list of all groups that a client packs is answered with the names of all
  -- groups, each with a comma and a blank behind it, and changes nothing. Where these take 1000
  -- characters or more, the server writes beyond an array. It has a manager of at most a hundred
  -- groups, whose names are strings, the allocations succeed, and the user's name fits into the
  -- client's buffer.
  pub see_groups_conversation :
      (server : SrvMng L Q W) (message out : Block) (r : LogOutOrSeeGroupsReq)
      → memory.for_names ≡ true
      → memory.for_vector ≡ true
      → IsSized locals
      → length locals.data_to_send_see_grps ≡ 1008
      → server.group_manager ≡ some groups
      → read_log_out_or_see_groups message ≡ ok r
      → r.tag ≡ group_all_available_request
      → length r.username + 3 ≤ length out
      → conversation L H Q W memory locals server message out group_all_available_request
        ≡ listing server
  unfolding got_message got_tag
  see_groups_conversation server message out r for_names for_vector sized size has_groups e t room =
      let (_, buffer, packed, tagged) = request_arrives message out r e t room in
      elim (Bool-cases (ltb (length listed) 1000)) [
        | inl fits ↦
            rw
              (
                packed,
                tagged,
                got_see_groups_lem server for_names for_vector sized size has_groups true fits,
                fits,
              )
              refl
        | inr long ↦
            rw
              (
                packed,
                tagged,
                got_see_groups_lem server for_names for_vector sized size has_groups false long,
                long,
              )
              refl
      ]
