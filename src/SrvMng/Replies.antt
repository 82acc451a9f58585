-- ===== src/SrvMng/Replies.antt =====
-- The packets of srv_mng.c that answer a request by success or failure.
use ipc_project.Base.{
  ℕ, ◌<◌, ◌≤◌, ◌≡◌, refl, sym, ap, subst, Bool, true, [], ◌∷◌, ◌++◌, length, take, drop, arith,
  length-take, length-drop, lt→ltb_no, take-drop, ok, pos, if◌then◌else◌,
}
use ipc_project.CLib.{Block, load, store, store32, write, word_bytes}
use ipc_project.CLib.Memory.{write-append_rest}
use ipc_project.CLib.Overlay.{overlay}
use ipc_project.CLib.Fields.{load32-append}
use ipc_project.Protocol.Replies.{pack_reply}
use ipc_project.Protocol.Layout.{read_reply}
use ipc_project.Protocol.Dispatch.{protocol_pack, pack_by_tag}
use ipc_project.Protocol.ReplyTrip.{is_plain_reply, reply_wire, pack_reply-wire}
use ipc_project.SrvMng.Handlers.{Locals, plain_reply, pack_packet, success, failure, Packet}

-- The locals are as large as they are declared.
pub record IsSized (locals : Locals) : Type 0 where
  pub buffer_size : length locals.internal_buffer ≡ 4096
  pub reply_size : length locals.data_to_send ≡ 8
  pub group_reply_size : length locals.data_to_send_group ≡ 28

-- A struct `Reply` that is filled in, whatever it held.
reply_filled :
    (d : Block) (value tag : ℕ)
    → length d ≡ 8
    → tag < 256
    → (d1 d2 : Block) × (store d 0 value ≡ ok d1)
      × (store32 d1 4 tag ≡ ok d2)
      × (read_reply d2 ≡ ok (record { reply = value; tag = tag }))
unfolding store store32 read_reply load
reply_filled d value tag size small =
    let tail = drop 1 d in
    let front : Block = value ∷ take 3 tail in
    let four : length front ≡ 4 =
      omega (arith, length-take 3 tail (omega (arith, length-drop 1 d, size))) in
    let first : write d 0 (value ∷ []) ≡ ok (value ∷ tail) =
      write-append_rest [] d (value ∷ []) (omega (arith, size)) in
    let back = drop 3 tail in
    let enough : length (word_bytes tag) ≤ length back =
      omega (arith, length-drop 3 tail, length-drop 1 d, size) in
    let halves : value ∷ tail ≡ front ++ back = ap (◌∷◌ value) (take-drop 3 tail) in
    let second : write (value ∷ tail) 4 (word_bytes tag)
        ≡ ok (front ++ (word_bytes tag ++ drop 4 back)) =
      rw halves (
        subst
          (λ n.
            write (front ++ back) n (word_bytes tag)
            ≡ ok (front ++ (word_bytes tag ++ drop 4 back)))
          four (write-append_rest front back (word_bytes tag) enough)) in
    let read = load32-append front (drop 4 back) 4 tag (sym four) (omega arith) in
    (value ∷ tail, front ++ (word_bytes tag ++ drop 4 back), first, second, rw read refl)

packs_reply :
    (message buffer : Block) (tag : ℕ)
    → is_plain_reply tag ≡ true
    → pack_by_tag message buffer tag ≡ pack_reply message buffer
unfolding pack_by_tag
packs_reply message buffer tag plain = ground arith

plain_reply_range : (tag : ℕ) → is_plain_reply tag ≡ true → (1 ≤ tag) × (tag ≤ 14)
plain_reply_range tag plain = ground arith

-- Four bytes: the tag, the lengths of the packet and of the value, and the value.
abbrev pub answer : Locals → Bool → ℕ → Packet
answer locals good tag = record {
  size = pos 4;
  bytes = overlay (reply_wire tag (if good then success else failure)) locals.internal_buffer;
}

pub plain_reply-answer :
    (locals : Locals) (good : Bool) (tag : ℕ)
    → IsSized locals
    → is_plain_reply tag ≡ true
    → plain_reply locals good tag ≡ ok (answer locals good tag)
unfolding plain_reply pack_packet protocol_pack
plain_reply-answer locals good tag sized plain =
    let value : ℕ = if good then success else failure in
    let (low, high) = plain_reply_range tag plain in
    let (d1, d2, first, second, read) =
      reply_filled locals.data_to_send value tag sized.reply_size (omega arith) in
    let packed =
      pack_reply-wire d2 locals.internal_buffer (record { reply = value; tag = tag }) read plain
        (omega (arith, sized.buffer_size)) in
    rw
      (
        first,
        second,
        lt→ltb_no tag 1 low,
        lt→ltb_no 14 tag high,
        packs_reply d2 locals.internal_buffer tag plain,
        packed,
      )
      refl
