-- ===== src/Protocol/ReplyTrip.antt =====
-- protocol.c: the pack and unpack functions of the replies, and the wire formats between them.
use ipc_project.Base.{
  ℕ, ◌+◌, ◌-◌, ◌%◌, ◌≤◌, ◌<◌, ◌≡◌, refl, subst, List, [], ◌∷◌, ◌++◌, length, drop, arith, ok, ◌>>=◌,
  pos, minus_one, Bool, true, ◌||◌, ◌==◌, ◌≢◌,
}
use ipc_project.CLib.{Block, calloc, load32, load, store, unsigned_char, char_to_word, word_bytes}
use ipc_project.CLib.Memory.{write-append}
use ipc_project.CLib.Overlay.{overlay, overlay-nil, store-overlay}
use ipc_project.CLib.Fields.{calloc-add, store32-calloc, load32-append, char_to_word-mod}
use ipc_project.Protocol.Layout.{
  Reply, read_reply, register_reply, login_reply, logout_reply, group_leave_reply,
}
use ipc_project.Protocol.Replies.{write_reply, pack_reply, unpack_reply}

-- The tags of the plain replies.
abbrev pub is_plain_reply : ℕ → Bool
is_plain_reply tag =
    tag == register_reply || tag == login_reply || tag == logout_reply || tag == group_leave_reply

abbrev pub reply_wire : ℕ → ℕ → List ℕ
reply_wire tag value = (tag % 256) ∷ 4 ∷ 1 ∷ (value % 256) ∷ []

read_reply-parts :
    (m : Block) (r : Reply)
    → read_reply m ≡ ok r
    → (load m 0 ≡ ok r.reply) × (load32 m 4 ≡ ok r.tag)
unfolding read_reply
read_reply-parts m r e = ground arith

write_reply-wire :
    (m buffer : Block) (tag value : ℕ)
    → load m 0 ≡ ok value
    → 4 ≤ length buffer
    → write_reply m (overlay [] buffer) tag ≡ ok (pos 4, overlay (reply_wire tag value) buffer)
unfolding write_reply
write_reply-wire m buffer tag value e room =
    let a = unsigned_char tag in
    let b : ℕ = 4 in
    let c : ℕ = 1 in
    rw (
      store-overlay [] buffer 0 a refl (omega arith),
      store-overlay (a ∷ []) buffer 1 b refl (omega arith),
      store-overlay (a ∷ b ∷ []) buffer 2 c refl (omega arith),
      e,
      store-overlay (a ∷ b ∷ c ∷ []) buffer 3 (unsigned_char value) refl (omega arith),
    )

-- A plain reply takes four bytes.
pub pack_reply-wire :
    (m buffer : Block) (r : Reply)
    → read_reply m ≡ ok r
    → is_plain_reply r.tag ≡ true
    → 4 ≤ length buffer
    → pack_reply m buffer ≡ ok (pos 4, overlay (reply_wire r.tag r.reply) buffer)
unfolding pack_reply
pack_reply-wire m buffer r e plain room =
    let parts = read_reply-parts m r e in
    rw (parts.1, plain)
      (subst (λ b. write_reply m b r.tag ≡ ok (pos 4, overlay (reply_wire r.tag r.reply) buffer))
        (overlay-nil buffer) (write_reply-wire m buffer r.tag r.reply parts.0 room))

-- The wire format of a plain reply unpacks to that reply.
pub unpack_reply-wire :
    (n tag value : ℕ) (rest : Block)
    → 8 ≤ n
    → tag < 128
    → value < 256
    → (unpack_reply (calloc n) (reply_wire tag value ++ rest) >>= λ u. read_reply u.1)
      ≡ ok (record { reply = value; tag = tag })
unfolding unpack_reply read_reply load store
unpack_reply-wire n tag value rest room small byte =
    let e : 8 + (n - 8) ≡ n = omega arith in
    let back = calloc (n - 8) in
    let zeros : calloc n ≡ calloc 8 ++ back =
      subst (λ k. calloc k ≡ calloc 8 ++ back) e (calloc-add 8 (n - 8)) in
    let v : value % 256 ≡ value = omega arith in
    rw (
      zeros,
      store32-calloc (calloc 4) back 4 (char_to_word (tag % 256)) refl,
      char_to_word-mod tag small,
      v,
      write-append [] (0 ∷ []) (0 ∷ 0 ∷ 0 ∷ (word_bytes tag ++ back)) (value ∷ []) refl,
      load32-append (value ∷ 0 ∷ 0 ∷ 0 ∷ []) back 4 tag refl (omega arith),
    )

-- A plain reply with a value of one byte, packed into a buffer of at least four bytes and unpacked
-- into a zeroed block of at least the struct's eight, comes back with its value and its tag.
pub unpack-pack_reply :
    (m buffer : Block) (n : ℕ) (r : Reply)
    → read_reply m ≡ ok r
    → is_plain_reply r.tag ≡ true
    → r.reply < 256
    → 4 ≤ length buffer
    → 8 ≤ n
    → (do
      packed ← pack_reply m buffer
      unpacked ← unpack_reply (calloc n) packed.1
      read_reply unpacked.1)
      ≡ ok r
unfolding overlay
unpack-pack_reply m buffer n r e plain byte room size =
    rw (pack_reply-wire m buffer r e plain room)
      (unpack_reply-wire n r.tag r.reply (drop 4 buffer) size (ground arith) byte)

-- Every other tag is refused, and nothing is written.
pub pack_reply_refused :
    (m buffer : Block) (r : Reply)
    → read_reply m ≡ ok r
    → is_plain_reply r.tag ≢ true
    → pack_reply m buffer ≡ ok (minus_one, buffer)
unfolding pack_reply
pack_reply_refused m buffer r e other = rw ((read_reply-parts m r e).1) (ground arith)
