-- ===== src/ClientManager/Single.antt =====
-- What `PackAndSendViaClientNET` of client_manager.c sends for a log-out and a see-groups request.
use ipc_project.Base.{
  not, ℕ, ◌+◌, ◌%◌, ◌<◌, ◌≤◌, ◌≡◌, refl, ap, true, false, Bool, ◌||◌, ◌==◌, some, [], ◌∷◌, ◌++◌,
  length, drop, arith, length-replicate, length-append, ok, pos, lt→ltb_no, drop-append,
}
use ipc_project.CLib.{Block, Text, IsText, calloc}
use ipc_project.CLib.Overlay.{overlay}
use ipc_project.Protocol.Layout.{
  LogOutOrSeeGroupsReq, register_request, login_request, group_create_request, group_join_request,
  group_leave_request, group_all_available_request, logout_request, read_log_out_or_see_groups,
}
use ipc_project.Protocol.Dispatch.{protocol_pack, pack_by_tag}
use ipc_project.Protocol.Requests.{pack_log_out_or_see_groups_request}
use ipc_project.Protocol.Wire.{pack_log_out_or_see_groups_request-wire, one_string_wire}
use ipc_project.ClientManager.{
  Sent, pack_and_send_via_client_net, send_part, pack_and_send_struct, clnt_mng_send_ok,
}
use ipc_project.ClientManager.Structs.{
  two_strings_struct_lem, one_string_struct-read, two_strings_struct-read_as_one, third,
}
use ipc_project.ClientManager.Sending.{plenty}

abbrev pub has_one_string : ℕ → Bool
has_one_string tag = tag == group_all_available_request || tag == logout_request

-- The packet of a request with one string, in the client's buffer of 100 bytes.
abbrev pub short_packet : ℕ → Text → Sent
short_packet tag first = record {
  size = pos (length first + 3);
  bytes = some (overlay (one_string_wire tag first) (calloc 100));
}

overlay-overlay :
    (w v buffer : Block) → length w ≡ length v → overlay w (overlay v buffer) ≡ overlay w buffer
unfolding overlay
overlay-overlay w v buffer e = rw e (ap (◌++◌ w) (drop-append v (drop (length v) buffer)))

range : (tag : ℕ) → has_one_string tag ≡ true → (1 ≤ tag) × (tag ≤ 14)
range tag one = ground arith

packs_one_string :
    (m b : Block) (tag : ℕ)
    → has_one_string tag ≡ true
    → pack_by_tag m b tag ≡ pack_log_out_or_see_groups_request m b
unfolding pack_by_tag
packs_one_string m b tag one = ground arith

-- What is sent of a block that reads as a struct with one string.
module _ (first : Text) (tag : ℕ) (one : has_one_string tag ≡ true) where
  packs :
      (msg buffer : Block) (w : ℕ)
      → read_log_out_or_see_groups msg ≡ ok (record { username = first; tag = w })
      → length first + 3 ≤ length buffer
      → pack_and_send_struct msg (some buffer) tag
        ≡ ok (
          record {
            size = pos (length first + 3);
            bytes = some (overlay (one_string_wire w first) buffer);
          },
          some (overlay (one_string_wire w first) buffer),
        )
  unfolding pack_and_send_struct protocol_pack
  packs msg buffer w read room =
      let (low, high) = range tag one in
      let r : LogOutOrSeeGroupsReq = record { username = first; tag = w } in
      rw
        (
          lt→ltb_no tag 1 low,
          lt→ltb_no 14 tag high,
          packs_one_string msg buffer tag one,
          pack_log_out_or_see_groups_request-wire msg buffer r read room,
        )
        refl

tests :
    (tag : ℕ)
    → has_one_string tag ≡ true
    → ((tag == register_request || tag == login_request) ≡ false)
      × ((tag == group_create_request
            || tag == group_join_request
            || not (group_leave_request == 0))
          ≡ true)
tests tag one = (ground arith, ground arith)

room :
    (first : Text) (w : ℕ)
    → length first < 30
    → length first + 3 ≤ length (overlay (one_string_wire w first) (calloc 100))
unfolding overlay
room first w lf =
    let wire = one_string_wire w first in
    omega (arith, length-append wire (drop (length wire) (calloc 100)))

-- A log-out or see-groups request is sent once, and before it comes another packet with the same
-- name, whose tag is the third character of the second string, because the test for the groups is
-- always true. All allocations succeed, and both strings have at most 29 characters.
pub pack_and_send_via_client_net-short :
    (user_name pass : Text) (tag : ℕ)
    → IsText user_name
    → length user_name < 30
    → length pass < 30
    → has_one_string tag ≡ true
    → (stray : ℕ) × (stray % 256 ≡ third pass % 256)
      × (pack_and_send_via_client_net plenty (some user_name) (some pass) tag
          ≡ ok (clnt_mng_send_ok, short_packet stray user_name ∷ short_packet tag user_name ∷ []))
unfolding pack_and_send_via_client_net send_part
pack_and_send_via_client_net-short user_name pass tag tu lu lp one =
    let (low, high) = range tag one in
    let (unsigned, chosen) = tests tag one in
    let size : length (calloc 100) ≡ 100 = length-replicate {A = ℕ} 100 0 in
    let (w, same, as_one) = two_strings_struct-read_as_one tag user_name pass tu lu lp in
    let (msg, made, read) = one_string_struct-read tag user_name tu lu (omega arith) in
    let stray = overlay (one_string_wire w user_name) (calloc 100) in
    let made' = two_strings_struct_lem tag user_name pass lu lp in
    let sent = packs user_name tag one _ (calloc 100) w as_one (omega (arith, size)) in
    let again = packs user_name tag one msg stray tag read (room user_name w lu) in
    let over : overlay (one_string_wire tag user_name) stray
        ≡ overlay (one_string_wire tag user_name) (calloc 100) =
      overlay-overlay (one_string_wire tag user_name) (one_string_wire w user_name) (calloc 100)
        refl in
    (w, same, rw (unsigned, chosen, one, made', sent, made, again, over) refl)
