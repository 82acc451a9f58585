-- ===== src/Protocol/SeeAllTrip.antt =====
-- The reply that lists the groups. It is packed with no length in front of the names, and unpacked
-- as if the first character of the names were their length.
use ipc_project.Base.{
  ℕ, zero, suc, ◌+◌, ◌-◌, ◌%◌, ◌≤◌, ◌<◌, ◌≡◌, refl, sym, ap, ◌∙◌, subst, List, [], ◌∷◌, ◌++◌,
  length, drop, take, arith, length-append, length-replicate, append_assoc, ok, ◌>>=◌, pos, ◌==◌,
  true, get_elem?, some,
}
use ipc_project.CLib.{
  Block, write, Text, IsText, calloc, c_string, strlen, load32, load, store32, store, strncpy,
  unsigned_char, strncpy_bytes, word_bytes,
}
use ipc_project.CLib.Memory.{write-append}
use ipc_project.CLib.Strings.{
  c_string-append, strncpy_over, strncpy_bytes-c_string, c_string-IsText,
}
use ipc_project.CLib.Overlay.{overlay, overlay-nil, store-overlay, strncpy-overlay}
use ipc_project.CLib.Fields.{calloc-add, get_elem?-append_at, store32-calloc, load32-append}
use ipc_project.Protocol.Layout.{
  SeeAllGroupsReply, read_see_all_groups_reply, group_all_available_reply,
}
use ipc_project.Protocol.Replies.{
  write_see_all_groups_reply, pack_see_all_groups_reply, unpack_see_all_groups_reply,
}

abbrev pub see_all_wire : ℕ → ℕ → Text → List ℕ
see_all_wire tag value names = (tag % 256) ∷ ((4 + length names) % 256) ∷ 1 ∷ (value % 256) ∷ names

-- `strncpy` of a whole string with a NUL byte behind it: cut, or padded with zeros.
strncpy_bytes-take :
    (n : ℕ) (t rest : Block)
    → IsText t
    → strncpy_bytes n (t ++ (0 ∷ rest)) ≡ ok (take n t ++ calloc (n - length t))
unfolding strncpy_bytes
strncpy_bytes-take zero [] rest v = refl
strncpy_bytes-take zero (x ∷ t) rest v = let e : 0 - suc (length t) ≡ 0 = omega arith in rw e
strncpy_bytes-take (suc n) [] rest v = let e : suc n - 0 ≡ suc n = omega arith in rw e
strncpy_bytes-take (suc n) (zero ∷ t) rest v = absurd (omega arith)
strncpy_bytes-take (suc n) (suc b ∷ t) rest v =
    let e : suc n - suc (length t) ≡ n - length t = omega arith in
    rw (e, strncpy_bytes-take n t rest v.1)

length-take_padded : (n : ℕ) (t : Block) → length (take n t ++ calloc (n - length t)) ≡ n
length-take_padded zero [] = refl
length-take_padded zero (x ∷ t) = let e : 0 - suc (length t) ≡ 0 = omega arith in rw e
length-take_padded (suc n) [] =
    let e : suc n - 0 ≡ suc n = omega arith in rw e (length-replicate (suc n) 0)
length-take_padded (suc n) (x ∷ t) =
    let e : suc n - suc (length t) ≡ n - length t = omega arith in
    rw e (ap suc (length-take_padded n t))

IsText-take : (n : ℕ) (t : Text) → IsText t → IsText (take n t)
IsText-take zero t v = tt
IsText-take (suc n) [] v = tt
IsText-take (suc n) (x ∷ t) v = (v.0, IsText-take n t v.1)

calloc_pos : (n : ℕ) → 0 < n → calloc n ≡ 0 ∷ calloc (n - 1)
calloc_pos zero h = absurd (omega arith)
calloc_pos (suc n) h = let e : suc n - 1 ≡ n = omega arith in rw e

-- Zeros behind a string end it, however many they are.
c_string-zeros :
    (t : Text) (a : ℕ) (back : Block) → IsText t → c_string (t ++ (calloc a ++ (0 ∷ back))) ≡ ok t
c_string-zeros t zero back v = c_string-append t back v
c_string-zeros t (suc a) back v = c_string-append t (calloc a ++ (0 ∷ back)) v

abbrev see_all_block : ℕ → ℕ → Text → ℕ → Block → Block
see_all_block tag value names gap back =
    names ++ (calloc gap ++ (value ∷ 0 ∷ 0 ∷ 0 ∷ (word_bytes tag ++ back)))

-- `k` is the size of the array of names.
module _ (k : ℕ) (size : k ≡ 1000) (value x : ℕ) (xs : Text) (byte : value < 256) (char : x < 256)
    (vs : IsText (x ∷ xs)) (back rest : Block) where
  abbrev copied : Block
  copied = take x (x ∷ xs) ++ calloc (x - length (x ∷ xs))

  unpack_see_all :
      unpack_see_all_groups_reply
        (calloc k ++ (0 ∷ 0 ∷ 0 ∷ 0 ∷ (calloc 4 ++ back)))
        (see_all_wire 14 value (x ∷ xs) ++ (0 ∷ rest))
      ≡ ok (pos 0, see_all_block 14 value copied (k - x) back)
  unfolding unpack_see_all_groups_reply load store
  unpack_see_all =
      let u = value % 256 in
      let w : value % 256 % 256 ≡ value = omega arith in
      let c : x % 256 ≡ x = omega arith in
      let buf = see_all_wire 14 value (x ∷ xs) ++ (0 ∷ rest) in
      let zeros : calloc k ≡ calloc x ++ calloc (k - x) =
        let e : x + (k - x) ≡ k = omega arith in
        subst (λ m. calloc m ≡ calloc x ++ calloc (k - x)) e (calloc-add x (k - x)) in
      let at_end : 1004 ≡ length (calloc k ++ (0 ∷ 0 ∷ 0 ∷ 0 ∷ [])) =
        omega
          (arith, length-append (calloc k) (0 ∷ 0 ∷ 0 ∷ 0 ∷ []), length-replicate {A = ℕ} k 0) in
      let at_value : 1000 ≡ length (calloc k) = omega (arith, length-replicate {A = ℕ} k 0) in
      let tail : Block = 0 ∷ 0 ∷ 0 ∷ (word_bytes 14 ++ back) in
      let word : store32 (calloc k ++ (0 ∷ 0 ∷ 0 ∷ 0 ∷ (calloc 4 ++ back))) 1004 14
          ≡ ok (calloc k ++ (0 ∷ tail)) =
        rw (← append_assoc (calloc k) (0 ∷ 0 ∷ 0 ∷ 0 ∷ []) (calloc 4 ++ back)) (
          store32-calloc (calloc k ++ (0 ∷ 0 ∷ 0 ∷ 0 ∷ [])) back 1004 14 at_end
          ∙ ap ok (append_assoc (calloc k) (0 ∷ 0 ∷ 0 ∷ 0 ∷ []) (word_bytes 14 ++ back))) in
      let byte_set : write (calloc k ++ (0 ∷ tail)) 1000 (unsigned_char u ∷ [])
          ≡ ok (calloc k ++ (value ∷ tail)) =
        rw (at_value, w) (write-append (calloc k) (0 ∷ []) tail (value ∷ []) refl) in
      let names : strncpy (calloc k ++ (value ∷ tail)) 0 buf 4 x
          ≡ ok (see_all_block 14 value copied (k - x) back) =
        rw (zeros, append_assoc (calloc x) (calloc (k - x)) (value ∷ tail))
          (strncpy_over [] (calloc x) (calloc (k - x) ++ (value ∷ tail)) buf 0 4 x copied
            (strncpy_bytes-take x (x ∷ xs) rest vs) (length-take_padded x (x ∷ xs)) refl
            (length-replicate x 0)) in
      rw (word, byte_set, c, names)

  read_see_all :
      read_see_all_groups_reply (see_all_block 14 value copied (k - x) back)
      ≡ ok (record { all_group_names = take x (x ∷ xs); reply = value; tag = 14 })
  unfolding read_see_all_groups_reply load
  read_see_all =
      let tail : Block = 0 ∷ 0 ∷ 0 ∷ (word_bytes 14 ++ back) in
      let gap : calloc (k - x) ≡ 0 ∷ calloc (k - x - 1) = calloc_pos (k - x) (omega arith) in
      let m : length (copied ++ calloc (k - x)) ≡ 1000 = omega (
        arith,
        length-append copied (calloc (k - x)),
        length-take_padded x (x ∷ xs),
        length-replicate {A = ℕ} (k - x) 0,
      ) in
      let blk = see_all_block 14 value copied (k - x) back in
      let text : c_string blk ≡ ok (take x (x ∷ xs)) =
        rw
          (
            gap,
            append_assoc (take x (x ∷ xs)) (calloc (x - length (x ∷ xs)))
                (0 ∷ (calloc (k - x - 1) ++ (value ∷ tail))),
          )
          (c_string-zeros (take x (x ∷ xs)) (x - length (x ∷ xs)) _ (IsText-take x (x ∷ xs) vs)) in
      let the_value : get_elem? blk 1000 ≡ some value =
        rw (← append_assoc copied (calloc (k - x)) (value ∷ tail))
          (get_elem?-append_at (copied ++ calloc (k - x)) tail 1000 value (sym m)) in
      let the_tag : load32 blk 1004 ≡ ok 14 =
        rw
          (
            ← append_assoc copied (calloc (k - x)) (value ∷ tail),
            ← append_assoc (copied ++ calloc (k - x)) (value ∷ 0 ∷ 0 ∷ 0 ∷ [])
                (word_bytes 14 ++ back),
          )
          (load32-append ((copied ++ calloc (k - x)) ++ (value ∷ 0 ∷ 0 ∷ 0 ∷ [])) back 1004 14
            (omega (arith, m, length-append (copied ++ calloc (k - x)) (value ∷ 0 ∷ 0 ∷ 0 ∷ [])))
            (omega arith)) in
      rw (text, the_value, the_tag)

  unpack_see_all_groups_reply-wire :
      (unpack_see_all_groups_reply
          (calloc k ++ (0 ∷ 0 ∷ 0 ∷ 0 ∷ (calloc 4 ++ back)))
          (see_all_wire 14 value (x ∷ xs) ++ (0 ∷ rest))
        >>= λ u. read_see_all_groups_reply u.1)
      ≡ ok (record { all_group_names = take x (x ∷ xs); reply = value; tag = 14 })
  unpack_see_all_groups_reply-wire = rw unpack_see_all read_see_all

struct_zeros :
    (k n : ℕ)
    → k + 8 ≤ n
    → calloc n ≡ calloc k ++ (0 ∷ 0 ∷ 0 ∷ 0 ∷ (calloc 4 ++ calloc (n - (k + 8))))
struct_zeros k n h =
    let e : k + (8 + (n - (k + 8))) ≡ n = omega arith in
    subst (λ j. calloc j ≡ calloc k ++ (calloc 8 ++ calloc (n - (k + 8)))) e
      (rw (calloc-add k) (ap (◌++◌ (calloc k)) (calloc-add 8 (n - (k + 8)))))

read_see_all_groups_reply-parts :
    (m : Block) (r : SeeAllGroupsReply)
    → read_see_all_groups_reply m ≡ ok r
    → (c_string m ≡ ok r.all_group_names) × (load m 1000 ≡ ok r.reply) × (load32 m 1004 ≡ ok r.tag)
unfolding read_see_all_groups_reply
read_see_all_groups_reply-parts m r e = ground arith

write_see_all-wire :
    (m buffer : Block) (r : SeeAllGroupsReply)
    → read_see_all_groups_reply m ≡ ok r
    → 4 + length r.all_group_names ≤ length buffer
    → write_see_all_groups_reply m (overlay [] buffer) r.tag
      ≡ ok (
        pos (4 + length r.all_group_names),
        overlay (see_all_wire r.tag r.reply r.all_group_names) buffer,
      )
unfolding write_see_all_groups_reply strlen
write_see_all-wire m buffer r e room =
    let parts = read_see_all_groups_reply-parts m r e in
    let a = unsigned_char r.tag in
    let b = unsigned_char (4 + length r.all_group_names) in
    let c : ℕ = 1 in
    let d = unsigned_char r.reply in
    rw (
      parts.0,
      store-overlay [] buffer 0 a refl (omega arith),
      store-overlay (a ∷ []) buffer 1 b refl (omega arith),
      store-overlay (a ∷ b ∷ []) buffer 2 c refl (omega arith),
      parts.1,
      store-overlay (a ∷ b ∷ c ∷ []) buffer 3 d refl (omega arith),
      strncpy-overlay (a ∷ b ∷ c ∷ d ∷ []) buffer m 4 0 (length r.all_group_names) r.all_group_names
          (strncpy_bytes-c_string m r.all_group_names parts.0) refl refl (omega arith),
    )

-- The list of groups is packed behind a header of four bytes, and its length is not sent.
pub pack_see_all_groups_reply-wire :
    (m buffer : Block) (r : SeeAllGroupsReply)
    → read_see_all_groups_reply m ≡ ok r
    → r.tag ≡ group_all_available_reply
    → 4 + length r.all_group_names ≤ length buffer
    → pack_see_all_groups_reply m buffer
      ≡ ok (
        pos (4 + length r.all_group_names),
        overlay (see_all_wire r.tag r.reply r.all_group_names) buffer,
      )
unfolding pack_see_all_groups_reply
pack_see_all_groups_reply-wire m buffer r e tag room =
    let test : (r.tag == group_all_available_reply) ≡ true = ground arith in
    rw ((read_see_all_groups_reply-parts m r e).2, test)
      (subst
        (λ b.
          write_see_all_groups_reply m b r.tag
          ≡ ok (
            pos (4 + length r.all_group_names),
            overlay (see_all_wire r.tag r.reply r.all_group_names) buffer,
          ))
        (overlay-nil buffer) (write_see_all-wire m buffer r e room))

-- A list of groups that is packed and then unpacked into a zeroed struct is cut after as many
-- characters as the code of its first character says, if the buffer has a zero byte behind it. The
-- value and the tag come back.
pub unpack-pack_see_all_groups_reply :
    (m buffer : Block) (n x : ℕ) (xs rest : Block) (value : ℕ)
    → read_see_all_groups_reply m
      ≡ ok (record { all_group_names = x ∷ xs; reply = value; tag = group_all_available_reply })
    → x < 256
    → value < 256
    → 4 + length (x ∷ xs) ≤ length buffer
    → drop (4 + length (x ∷ xs)) buffer ≡ 0 ∷ rest
    → 1008 ≤ n
    → (do
      packed ← pack_see_all_groups_reply m buffer
      unpacked ← unpack_see_all_groups_reply (calloc n) packed.1
      read_see_all_groups_reply unpacked.1)
      ≡ ok (record {
        all_group_names = take x (x ∷ xs);
        reply = value;
        tag = group_all_available_reply;
      })
unfolding overlay
unpack-pack_see_all_groups_reply m buffer n x xs rest value e char byte room behind size =
    let r : SeeAllGroupsReply = record {
      all_group_names = x ∷ xs;
      reply = value;
      tag = group_all_available_reply;
    } in
    let k : 4 + suc (length xs) ≡ suc (suc (suc (suc (suc (length xs))))) = omega arith in
    let gap : drop (suc (suc (suc (suc (suc (length xs)))))) buffer ≡ 0 ∷ rest = rw k at behind in
    rw (pack_see_all_groups_reply-wire m buffer r e refl room, gap, struct_zeros 1000 n size)
      (unpack_see_all_groups_reply-wire 1000 refl value x xs byte char
        (c_string-IsText m (x ∷ xs) (read_see_all_groups_reply-parts m r e).0) (calloc (n - 1008))
        rest)
