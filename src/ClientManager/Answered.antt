-- ===== src/ClientManager/Answered.antt =====
-- What the client makes of the server's answers.
use ipc_project.Base.{
  ℕ, ◌<◌, ◌≤◌, ◌≡◌, refl, true, Bool, some, [], ◌∷◌, ◌++◌, ◌||◌, ◌==◌, length, take, ok, arith,
  if◌then◌else◌, lt→ltb_no, ◌%◌,
}
use ipc_project.CLib.{Block, calloc, load, store, store32, write, char_to_word}
use ipc_project.Protocol.Layout.{register_reply, login_reply, logout_reply}
use ipc_project.Protocol.Replies.{unpack_reply}
use ipc_project.Protocol.Dispatch.{protocol_unpack, protocol_get_tag, unpack_by_tag}
use ipc_project.Protocol.ReplyTrip.{reply_wire}
use ipc_project.CLib.Overlay.{overlay}
use ipc_project.CLib.Fields.{char_to_word-mod}
use ipc_project.SrvMng.Handlers.{Locals, success, failure}
use ipc_project.SrvMng.Replies.{answer}
use ipc_project.ServerNet.Loop.{arrived}
use ipc_project.ClientNet.{Client}
use ipc_project.ClientManager.Receiving.{Receiving, receive_via_client_net, receive_reply}

abbrev pub is_session_reply : ℕ → Bool
is_session_reply tag = tag == register_reply || tag == login_reply || tag == logout_reply

session_range : (tag : ℕ) → is_session_reply tag ≡ true → (1 ≤ tag) × (tag ≤ 14)
session_range tag session = ground arith

unpacks_session :
    (message buffer : Block) (tag : ℕ)
    → is_session_reply tag ≡ true
    → unpack_by_tag message buffer tag ≡ unpack_reply message buffer
unfolding unpack_by_tag
unpacks_session message buffer tag session = ground arith

-- A reply is unpacked into eight bytes, whatever they held.
unpacked :
    (a b c d e f g h tag value : ℕ) (rest : Block)
    → is_session_reply tag ≡ true
    → value < 256
    → receive_reply
        (ok (a ∷ b ∷ c ∷ d ∷ e ∷ f ∷ g ∷ h ∷ []))
        (some (reply_wire tag value ++ rest))
        tag
      ≡ ok value
unfolding receive_reply protocol_unpack unpack_reply load store store32 write
unpacked a b c d e f g h tag value rest session byte =
    let (low, high) = session_range tag session in
    let v : value % 256 ≡ value = omega arith in
    rw
      (
        lt→ltb_no tag 1 low,
        lt→ltb_no 14 tag high,
        unpacks_session (a ∷ b ∷ c ∷ d ∷ e ∷ f ∷ g ∷ h ∷ []) (reply_wire tag value ++ rest) tag
            session,
        v,
      )
      refl

unpacked_into :
    (struct : Block) (tag value : ℕ) (rest : Block)
    → length struct ≡ 8
    → is_session_reply tag ≡ true
    → value < 256
    → receive_reply (ok struct) (some (reply_wire tag value ++ rest)) tag ≡ ok value
unpacked_into (a ∷ b ∷ c ∷ d ∷ e ∷ f ∷ g ∷ h ∷ []) tag value rest size session byte =
    unpacked a b c d e f g h tag value rest session byte
unpacked_into [] tag value rest size session byte = absurd (omega arith)
unpacked_into (a ∷ []) tag value rest size session byte = absurd (omega arith)
unpacked_into (a ∷ b ∷ []) tag value rest size session byte = absurd (omega arith)
unpacked_into (a ∷ b ∷ c ∷ []) tag value rest size session byte = absurd (omega arith)
unpacked_into (a ∷ b ∷ c ∷ d ∷ []) tag value rest size session byte = absurd (omega arith)
unpacked_into (a ∷ b ∷ c ∷ d ∷ e ∷ []) tag value rest size session byte = absurd (omega arith)
unpacked_into (a ∷ b ∷ c ∷ d ∷ e ∷ f ∷ []) tag value rest size session byte = absurd (omega arith)
unpacked_into (a ∷ b ∷ c ∷ d ∷ e ∷ f ∷ g ∷ []) tag value rest size session byte =
    absurd (omega arith)
unpacked_into (a ∷ b ∷ c ∷ d ∷ e ∷ f ∷ g ∷ h ∷ i ∷ more) tag value rest size session byte =
    absurd (omega arith)

-- The packet of an answer is read as the value in it: a success as 1 and a failure as 0. It answers
-- a registration, a login or a log-out, there is memory for the buffer, and the pointer `reply`,
-- which is never set, happens to point to the eight bytes of a struct.
pub receive-answer :
    (env : Receiving) (client : Client) (locals : Locals) (good : Bool) (tag : ℕ) (struct : Block)
    → is_session_reply tag ≡ true
    → env.for_buffer ≡ true
    → env.arrives ≡ arrived (take 4 (answer locals good tag).bytes)
    → env.reply ≡ ok struct
    → length struct ≡ 8
    → receive_via_client_net env (some client) ≡ ok (if good then 1 else 0)
unfolding receive_via_client_net protocol_get_tag overlay load
receive-answer env client locals good tag struct session memory arrives points size =
    let (low, high) = session_range tag session in
    let value : ℕ = if good then success else failure in
    let same : char_to_word (tag % 256) ≡ tag = char_to_word-mod tag (omega arith) in
    rw (memory, arrives, same, session, points)
      (unpacked_into struct tag value (calloc 2044) size session (ground arith))
