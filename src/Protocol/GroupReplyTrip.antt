-- ===== src/Protocol/GroupReplyTrip.antt =====
-- The reply to a group request: its wire format, and packing followed by unpacking.
use ipc_project.Base.{
  ℕ, ◌+◌, ◌-◌, ◌%◌, ◌≤◌, ◌<◌, ◌≡◌, refl, ap, subst, List, [], ◌∷◌, ◌++◌, length, drop, arith,
  length-append, append_assoc, ok, ◌>>=◌, pos, get_elem?, some,
}
use ipc_project.CLib.{
  Block, Text, IsText, calloc, c_string, strlen, load32, load, store, unsigned_char, strncpy_bytes,
  char_to_size, char_to_word, word_bytes,
}
use ipc_project.CLib.Memory.{write-append}
use ipc_project.CLib.Strings.{strncpy_bytes-append, strncpy_bytes-c_string, c_string-IsText}
use ipc_project.CLib.Overlay.{overlay, overlay-nil, store-overlay, strncpy-overlay}
use ipc_project.CLib.Fields.{
  padded, length-padded, calloc-add, strncpy-padded, c_string-padded, get_elem?-append_at,
  drop-append_at, store32-calloc, load32-append, char_to_size-mod, char_to_word-mod,
}
use ipc_project.Protocol.Layout.{GroupCreateReply, read_group_create_reply}
use ipc_project.Protocol.Replies.{pack_group_create_reply, unpack_group_create_reply}

-- Tag, total length, length and value of the reply, address and port, each after its length.
abbrev pub group_reply_wire : ℕ → ℕ → Text → Text → List ℕ
group_reply_wire tag value ip port =
    (tag % 256)
    ∷ ((6 + length ip + length port) % 256)
    ∷ 1
    ∷ (value % 256)
    ∷ (length ip % 256)
    ∷ (ip ++ ((length port % 256) ∷ port))

read_group_create_reply-parts :
    (m : Block) (r : GroupCreateReply)
    → read_group_create_reply m ≡ ok r
    → (load32 m 0 ≡ ok r.tag)
      × (load m 4 ≡ ok r.reply)
      × (c_string (drop 5 m) ≡ ok r.ip)
      × (c_string (drop 20 m) ≡ ok r.port)
unfolding read_group_create_reply
read_group_create_reply-parts m r e = ground arith

pack_group_reply :
    (m buffer : Block) (r : GroupCreateReply)
    → read_group_create_reply m ≡ ok r
    → 6 + length r.ip + length r.port ≤ length buffer
    → pack_group_create_reply m (overlay [] buffer)
      ≡ ok (
        pos (6 + length r.ip + length r.port),
        overlay (group_reply_wire r.tag r.reply r.ip r.port) buffer,
      )
unfolding pack_group_create_reply strlen
pack_group_reply m buffer r e room =
    let parts = read_group_create_reply-parts m r e in
    let a = unsigned_char r.tag in
    let b = unsigned_char (6 + length r.ip + length r.port) in
    let c : ℕ = 1 in
    let d = unsigned_char r.reply in
    let f = unsigned_char (length r.ip) in
    let g = unsigned_char (length r.port) in
    let w = a ∷ b ∷ c ∷ d ∷ f ∷ r.ip in
    rw
      (
        parts.2,
        parts.3,
        parts.0,
        store-overlay [] buffer 0 a refl (omega arith),
        store-overlay (a ∷ []) buffer 1 b refl (omega arith),
        store-overlay (a ∷ b ∷ []) buffer 2 c refl (omega arith),
        parts.1,
        store-overlay (a ∷ b ∷ c ∷ []) buffer 3 d refl (omega arith),
        store-overlay (a ∷ b ∷ c ∷ d ∷ []) buffer 4 f refl (omega arith),
        strncpy-overlay (a ∷ b ∷ c ∷ d ∷ f ∷ []) buffer m 5 5 (length r.ip) r.ip
            (strncpy_bytes-c_string (drop 5 m) r.ip parts.2) refl refl (omega arith),
        store-overlay w buffer (5 + length r.ip) g (omega arith) (omega arith),
        strncpy-overlay (w ++ (g ∷ [])) buffer m (6 + length r.ip) 20 (length r.port) r.port
            (strncpy_bytes-c_string (drop 20 m) r.port parts.3)
            (omega (arith, length-append r.ip (g ∷ []))) refl
            (omega (arith, length-append r.ip (g ∷ []))),
      )
      (ap
        (λ (x : Block).
          ok (pos (6 + length r.ip + length r.port), overlay (a ∷ b ∷ c ∷ d ∷ f ∷ x) buffer))
        (append_assoc r.ip (g ∷ []) r.port))

abbrev group_reply_block : ℕ → ℕ → Text → Text → Block → Block
group_reply_block tag value ip port back =
    word_bytes tag ++ (value ∷ (padded 15 ip ++ (padded 5 port ++ back)))

module _ (tag value : ℕ) (ip port : Text) (small : tag < 128) (byte : value < 256) (vi : IsText ip)
    (vp : IsText port) (li : length ip < 15) (lp : length port < 5) (back : Block) where
  read_group_reply :
      read_group_create_reply (group_reply_block tag value ip port back)
      ≡ ok (record { tag = tag; reply = value; ip = ip; port = port })
  unfolding read_group_create_reply load
  read_group_reply =
      let blk = group_reply_block tag value ip port back in
      let n : 20 ≡ length (word_bytes tag ++ (value ∷ padded 15 ip)) =
        omega (arith, length-padded 15 ip) in
      rw (
        load32-append [] (value ∷ (padded 15 ip ++ (padded 5 port ++ back))) 0 tag refl
            (omega arith),
        c_string-padded (padded 5 port ++ back) 15 ip vi li,
        drop-append_at (word_bytes tag ++ (value ∷ padded 15 ip)) (padded 5 port ++ back) 20 n,
        c_string-padded back 5 port vp lp,
      )

  unpack_group_reply :
      (rest : Block)
      → unpack_group_create_reply
          (calloc 4 ++ (0 ∷ (calloc 15 ++ (calloc 5 ++ back))))
          (group_reply_wire tag value ip port ++ rest)
        ≡ ok (pos 0, group_reply_block tag value ip port back)
  unfolding unpack_group_create_reply load store
  unpack_group_reply rest =
      let buf = group_reply_wire tag value ip port ++ rest in
      let g = length port % 256 in
      let w =
        (tag % 256)
        ∷ ((6 + length ip + length port) % 256)
        ∷ 1
        ∷ (value % 256)
        ∷ (length ip % 256)
        ∷ ip in
      let split : buf ≡ w ++ (g ∷ (port ++ rest)) =
        ap
          (λ (x : Block).
            (tag % 256)
            ∷ ((6 + length ip + length port) % 256)
            ∷ 1
            ∷ (value % 256)
            ∷ (length ip % 256)
            ∷ x)
          (append_assoc ip (g ∷ port) rest) in
      let there : get_elem? buf (5 + length ip) ≡ some g =
        rw split (get_elem?-append_at w (port ++ rest) (5 + length ip) g (omega arith)) in
      let address : strncpy_bytes (length ip) (drop 5 buf) ≡ ok ip =
        rw (append_assoc ip (g ∷ port) rest) (strncpy_bytes-append ip (g ∷ (port ++ rest)) vi) in
      let behind : drop (6 + length ip) buf ≡ port ++ rest =
        rw (split, ← append_assoc ip (g ∷ []) (port ++ rest))
          (drop-append_at (w ++ (g ∷ [])) (port ++ rest) (6 + length ip)
            (omega (arith, length-append ip (g ∷ [])))) in
      let port_copied : strncpy_bytes (length port) (drop (6 + length ip) buf) ≡ ok port =
        rw behind (strncpy_bytes-append port rest vp) in
      let u = value % 256 in
      let n : 20 ≡ length (word_bytes tag ++ (u ∷ padded 15 ip)) =
        omega (arith, length-padded 15 ip) in
      let v : value % 256 ≡ value = omega arith in
      rw
        (
          store32-calloc [] (0 ∷ (calloc 15 ++ (calloc 5 ++ back))) 0 (char_to_word (tag % 256))
              refl,
          char_to_word-mod tag small,
          write-append (word_bytes tag) (0 ∷ []) (calloc 15 ++ (calloc 5 ++ back)) (u ∷ []) refl,
          char_to_size-mod (length ip) (omega arith),
          strncpy-padded (word_bytes tag ++ (u ∷ [])) (calloc 5 ++ back) buf 15 5 5 (length ip) ip
              address refl refl (omega arith),
          there,
          strncpy-padded (word_bytes tag ++ (u ∷ padded 15 ip)) back buf 5 20 (6 + length ip)
              (char_to_size g) port port_copied n (char_to_size-mod (length port) (omega arith))
              (omega arith),
        )
        (ap (λ (x : ℕ). ok (pos 0, group_reply_block tag x ip port back)) v)

-- The wire format of a reply to a group request unpacks, into a zeroed block of the struct's size or
-- more, to the reply.
unpack_group_create_reply-wire :
    (n : ℕ) (r : GroupCreateReply) (rest : Block)
    → 28 ≤ n
    → r.tag < 128
    → r.reply < 256
    → IsText r.ip
    → IsText r.port
    → length r.ip < 15
    → length r.port < 5
    → (unpack_group_create_reply (calloc n) (group_reply_wire r.tag r.reply r.ip r.port ++ rest)
        >>= λ u. read_group_create_reply u.1)
      ≡ ok r
unpack_group_create_reply-wire n r rest room small byte vi vp li lp =
    let back = calloc (n - 25) in
    let e : 25 + (n - 25) ≡ n = omega arith in
    let zeros : calloc n ≡ calloc 25 ++ back =
      subst (λ k. calloc k ≡ calloc 25 ++ back) e (calloc-add 25 (n - 25)) in
    rw (zeros, unpack_group_reply r.tag r.reply r.ip r.port small byte vi vp li lp back rest)
      (read_group_reply r.tag r.reply r.ip r.port small byte vi vp li lp back)

-- A group reply with an address of at most 14 characters, a port of at most 4, a tag below 128 and
-- a value of one byte, packed into a buffer with room for it and unpacked into a zeroed block of at
-- least the struct's 28 bytes, comes back as it was.
pub unpack-pack_group_create_reply :
    (m buffer : Block) (n : ℕ) (r : GroupCreateReply)
    → read_group_create_reply m ≡ ok r
    → length r.ip < 15
    → length r.port < 5
    → r.tag < 128
    → r.reply < 256
    → 6 + length r.ip + length r.port ≤ length buffer
    → 28 ≤ n
    → (do
      packed ← pack_group_create_reply m buffer
      unpacked ← unpack_group_create_reply (calloc n) packed.1
      read_group_create_reply unpacked.1)
      ≡ ok r
unfolding overlay
unpack-pack_group_create_reply m buffer n r e li lp small byte room size =
    let parts = read_group_create_reply-parts m r e in
    let wire = group_reply_wire r.tag r.reply r.ip r.port in
    let packed : pack_group_create_reply m buffer
        ≡ ok (pos (6 + length r.ip + length r.port), overlay wire buffer) =
      subst
        (λ b.
          pack_group_create_reply m b
          ≡ ok (pos (6 + length r.ip + length r.port), overlay wire buffer))
        (overlay-nil buffer) (pack_group_reply m buffer r e room) in
    rw packed (
      unpack_group_create_reply-wire n r (drop (length wire) buffer) size small byte
        (c_string-IsText (drop 5 m) r.ip parts.2) (c_string-IsText (drop 20 m) r.port parts.3) li
        lp)
