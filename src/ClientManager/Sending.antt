-- ===== src/ClientManager/Sending.antt =====
-- What `PackAndSendViaClientNET` of client_manager.c sends.
use ipc_project.Base.{
  Bool-cases, inl, inr, not, if◌then◌else◌, subst, ℕ, ◌+◌, ◌%◌, ◌<◌, ◌≤◌, ◌≡◌, refl, ap, true,
  false, ◌||◌, ◌==◌, some, [], ◌∷◌, ◌++◌, length, drop, arith, length-replicate, length-append, ok,
  pos, lt→ltb_no, drop-append,
}
use ipc_project.CLib.{Block, Text, IsText, calloc}
use ipc_project.CLib.Overlay.{overlay}
use ipc_project.Protocol.Layout.{
  RegisterOrLoginRequest, register_request, login_request, group_create_request, group_join_request,
  group_leave_request, group_all_available_request, logout_request,
}
use ipc_project.Protocol.Dispatch.{protocol_pack}
use ipc_project.Protocol.Wire.{pack_register_or_login_request-wire, two_strings_wire}
use ipc_project.SrvMng.Requests.{has_two_strings, two_strings_range, packs_two_strings}
use ipc_project.ClientManager.{
  ClientMemory, Sent, pack_and_send_via_client_net, send_part, pack_and_send_struct,
  two_strings_struct, clnt_mng_send_ok,
}
use ipc_project.ClientManager.Structs.{two_strings_struct-read}

abbrev pub plenty : ClientMemory
plenty = record { for_buffer = true; for_login = true; for_group = true; for_log_out = true }

-- The packet of a request with two strings, in the client's buffer of 100 bytes.
abbrev pub packet : ℕ → Text → Text → Sent
packet action first second = record {
  size = pos (length first + length second + 4);
  bytes = some (overlay (two_strings_wire action first second) (calloc 100));
}

-- Writing the same bytes again changes nothing.
overlay_twice : (w buffer : Block) → overlay w (overlay w buffer) ≡ overlay w buffer
unfolding overlay
overlay_twice w buffer = ap (◌++◌ w) (drop-append w (drop (length w) buffer))

module _ (user_name pass : Text) (action : ℕ) (tu : IsText user_name) (tp : IsText pass)
    (lu : length user_name < 30) (lp : length pass < 30) (two : has_two_strings action ≡ true) where
  packs :
      (buffer : Block)
      → length user_name + length pass + 4 ≤ length buffer
      → (msg : Block) × (two_strings_struct action user_name pass ≡ ok msg)
        × (pack_and_send_struct msg (some buffer) action
            ≡ ok (
              record {
                size = pos (length user_name + length pass + 4);
                bytes = some (overlay (two_strings_wire action user_name pass) buffer);
              },
              some (overlay (two_strings_wire action user_name pass) buffer),
            ))
  unfolding pack_and_send_struct protocol_pack
  packs buffer room =
      let (low, high) = two_strings_range action two in
      let (msg, made, read) =
        two_strings_struct-read action user_name pass tu tp lu lp (omega arith) in
      let r : RegisterOrLoginRequest = record {
        username = user_name;
        password = pass;
        tag = action;
      } in
      let packed = pack_register_or_login_request-wire msg buffer r read room in
      (
        msg,
        made,
        rw
            (
              lt→ltb_no action 1 low,
              lt→ltb_no 14 action high,
              packs_two_strings msg buffer action two,
              packed,
            )
            refl,
      )

  -- A part that is chosen sends the packet.
  part :
      (buffer : Block)
      → length user_name + length pass + 4 ≤ length buffer
      → send_part true true (two_strings_struct action user_name pass) (some buffer) action
        ≡ ok (
            some (
              record {
                size = pos (length user_name + length pass + 4);
                bytes = some (overlay (two_strings_wire action user_name pass) buffer);
              }
                  ∷ [],
              some (overlay (two_strings_wire action user_name pass) buffer),
            ))
  unfolding send_part
  part buffer room = let (msg, made, sent) = packs buffer room in rw (made, sent) refl

pub overlay_room :
    (s t : Text) (tag : ℕ) (buffer : Block)
    → length s + length t + 4 ≤ length (overlay (two_strings_wire tag s t) buffer)
unfolding overlay
overlay_room s t tag buffer =
    let wire = two_strings_wire tag s t in
    omega (
      arith,
      length-append wire (drop (length wire) buffer),
      length-append s ((length t % 256) ∷ t),
    )

always_chosen :
    (action : ℕ)
    → (action == group_create_request
        || action == group_join_request
        || not (group_leave_request == 0))
      ≡ true
always_chosen action = ground arith

no_log_out :
    (action : ℕ)
    → has_two_strings action ≡ true
    → (action == group_all_available_request || action == logout_request) ≡ false
no_log_out action two = ground arith

-- A request with two strings is sent once if it is about a group, and twice, by the same packet, if
-- it is a registration or a login, because the test for the groups is always true. All allocations
-- succeed, and both strings have at most 29 characters.
pub pack_and_send_via_client_net_lem :
    (user_name pass : Text) (action : ℕ)
    → IsText user_name
    → IsText pass
    → length user_name < 30
    → length pass < 30
    → has_two_strings action ≡ true
    → pack_and_send_via_client_net plenty (some user_name) (some pass) action
      ≡ ok (
        clnt_mng_send_ok,
        if action == register_request || action == login_request
            then packet action user_name pass ∷ packet action user_name pass ∷ []
            else packet action user_name pass ∷ [],
      )
unfolding pack_and_send_via_client_net
pack_and_send_via_client_net_lem user_name pass action tu tp lu lp two =
    let wire = two_strings_wire action user_name pass in
    let size : length (calloc 100) ≡ 100 = length-replicate {A = ℕ} 100 0 in
    let sent = part user_name pass action tu tp lu lp two (calloc 100) (omega (arith, size)) in
    let again : send_part true true (two_strings_struct action user_name pass)
          (some (overlay wire (calloc 100))) action
        ≡ ok (some (packet action user_name pass ∷ [], some (overlay wire (calloc 100)))) =
      subst
        (λ (b : Block).
          send_part true true (two_strings_struct action user_name pass)
            (some (overlay wire (calloc 100))) action
          ≡ ok (
              some (
                record { size = pos (length user_name + length pass + 4); bytes = some b } ∷ [],
                some b,
              )))
        (overlay_twice wire (calloc 100))
        (part user_name pass action tu tp lu lp two (overlay wire (calloc 100))
          (overlay_room user_name pass action (calloc 100))) in
    elim (Bool-cases (action == register_request || action == login_request)) [
      | inl e ↦ rw (e, always_chosen action, no_log_out action two, sent, again) refl
      | inr e ↦ rw (e, always_chosen action, no_log_out action two, sent) refl
    ]
