-- ===== src/SrvMng/NamesReply.antt =====
-- The packet of srv_mng.c that lists the groups.
use ipc_project.Base.{
  ℕ, ◌+◌, ◌<◌, ◌≡◌, refl, sym, ap, ◌∙◌, some, [], ◌∷◌, ◌++◌, length, arith, length-append,
  append_assoc, ok, pos, get_elem?, append-nil,
}
use ipc_project.CLib.{Block, Text, IsText, store, store32, strcpy, word_bytes, load, load32}
use ipc_project.CLib.Memory.{split, write_at}
use ipc_project.CLib.Strings.{c_string-append}
use ipc_project.CLib.Overlay.{overlay}
use ipc_project.CLib.Fields.{load32-append, get_elem?-append_at}
use ipc_project.Protocol.Layout.{read_see_all_groups_reply, group_all_available_reply}
use ipc_project.Protocol.Dispatch.{protocol_pack, pack_by_tag}
use ipc_project.Protocol.SeeAllTrip.{see_all_wire, pack_see_all_groups_reply-wire}
use ipc_project.SrvMng.Handlers.{Locals, Packet, pack_packet, success}
use ipc_project.SrvMng.Replies.{IsSized}

module _ (b1 b2 x y z : Block) (names : Text) (text : IsText names)
    (l1 : length b1 ≡ length names + 1) (l2 : length b1 + length b2 ≡ 1000) (lx : length x ≡ 1)
    (ly : length y ≡ 3) (lz : length z ≡ 4) where
  -- A struct `SeeAllGroupsReply`, cut into the pieces that are written.
  abbrev pieces : Block
  pieces = (b1 ++ b2) ++ (x ++ (y ++ z))

  abbrev tail : Block
  tail = success ∷ (y ++ word_bytes group_all_available_reply)

  abbrev filled : Block
  filled = names ++ (0 ∷ (b2 ++ tail))

  length-middle : length (names ++ (0 ∷ b2)) ≡ 1000
  length-middle = omega (arith, length-append names (0 ∷ b2), l1, l2)

  -- What stands before the tag.
  regroup :
      (w : Block)
      → (names ++ (0 ∷ (b2 ++ (success ∷ y)))) ++ w ≡ names ++ (0 ∷ (b2 ++ (success ∷ (y ++ w))))
  regroup w =
      append_assoc names (0 ∷ (b2 ++ (success ∷ y))) w
      ∙ ap (λ (q : Block). names ++ (0 ∷ q)) (append_assoc b2 (success ∷ y) w)

  length-front : length (names ++ (0 ∷ (b2 ++ (success ∷ y)))) ≡ 1004
  length-front = omega (
    arith,
    length-append names (0 ∷ (b2 ++ (success ∷ y))),
    length-append b2 (success ∷ y),
    l1,
    l2,
    ly,
  )

  -- The three steps that fill it in.
  fills :
      (d1 d2 : Block) × (store pieces 1000 success ≡ ok d1)
      × (strcpy d1 0 names ≡ ok d2)
      × (store32 d2 1004 group_all_available_reply ≡ ok filled)
  unfolding store store32 strcpy
  fills =
      let names0 : Block = names ++ (0 ∷ []) in
      let rest : Block = success ∷ (y ++ z) in
      let front : Block = names ++ (0 ∷ (b2 ++ (success ∷ y))) in
      let w : Block = word_bytes group_all_available_reply in
      (
        (b1 ++ b2) ++ rest,
        names0 ++ (b2 ++ rest),
        write_at pieces (b1 ++ b2) x (y ++ z) (success ∷ []) 1000 refl
            (omega (arith, length-append b1 b2, l2)) lx,
        write_at ((b1 ++ b2) ++ rest) [] b1 (b2 ++ rest) names0 0 (sym (append_assoc b1 b2 rest))
            refl (omega (arith, l1, length-append names (0 ∷ []))),
        write_at (names0 ++ (b2 ++ rest)) front z [] w 1004
              (ap (◌++◌ front) (append-nil z)
                ∙ regroup z
                ∙ sym (append_assoc names (0 ∷ []) (b2 ++ rest)))
              (sym length-front) lz
            ∙ ap ok (regroup w),
      )

  filled-read :
      read_see_all_groups_reply filled
      ≡ ok (record { all_group_names = names; reply = success; tag = group_all_available_reply })
  unfolding read_see_all_groups_reply load
  filled-read =
      let front : Block = names ++ (0 ∷ (b2 ++ (success ∷ y))) in
      let value : get_elem? filled 1000 ≡ some success =
        ap (λ (q : Block). get_elem? q 1000) (sym (append_assoc names (0 ∷ b2) tail))
        ∙ get_elem?-append_at (names ++ (0 ∷ b2)) (y ++ word_bytes group_all_available_reply) 1000
            success (sym length-middle) in
      let tagged : load32 filled 1004 ≡ ok group_all_available_reply =
        ap (λ (q : Block). load32 q 1004) (sym (regroup (word_bytes group_all_available_reply)))
        ∙ load32-append front [] 1004 group_all_available_reply (sym length-front) (omega arith) in
      rw (c_string-append names (b2 ++ tail) text, value, tagged) refl

joined_pieces :
    (d f r r2 b1 b2 x y z : Block)
    → d ≡ f ++ r
    → f ≡ b1 ++ b2
    → r ≡ x ++ r2
    → r2 ≡ y ++ z
    → d ≡ (b1 ++ b2) ++ (x ++ (y ++ z))
joined_pieces d f r r2 b1 b2 x y z e1 e2 e3 e4 = rw (e1, e2, e3, e4) refl

-- Any struct of 1008 bytes, cut into the pieces.
cut :
    (d : Block) (n : ℕ)
    → length d ≡ 1008
    → n < 1000
    → (b1 b2 x y z : Block) × (d ≡ (b1 ++ b2) ++ (x ++ (y ++ z)))
      × (length b1 ≡ n + 1)
      × (length b1 + length b2 ≡ 1000)
      × (length x ≡ 1)
      × (length y ≡ 3)
      × (length z ≡ 4)
cut d n size short =
    let (f, r, e1, lf, s1) = split 1000 d (omega (arith, size)) in
    let (b1, b2, e2, l1, l2) = split (n + 1) f (omega (arith, lf, short)) in
    let (x, r2, e3, lx, s3) = split 1 r (omega (arith, size, s1)) in
    let (y, z, e4, ly, lz) = split 3 r2 (omega (arith, size, s1, s3)) in
    (
      b1,
      b2,
      x,
      y,
      z,
      joined_pieces d f r r2 b1 b2 x y z e1 e2 e3 e4,
      l1,
      omega (arith, l1, l2, lf, short),
      lx,
      ly,
      omega (arith, lz, s3, s1, size),
    )

-- It is filled in.
pub any_filled :
    (d : Block) (names : Text)
    → length d ≡ 1008
    → IsText names
    → length names < 1000
    → (d1 d2 m : Block) × (store d 1000 success ≡ ok d1)
      × (strcpy d1 0 names ≡ ok d2)
      × (store32 d2 1004 group_all_available_reply ≡ ok m)
      × (read_see_all_groups_reply m
          ≡ ok (record {
            all_group_names = names;
            reply = success;
            tag = group_all_available_reply;
          }))
any_filled d names size text short =
    let (b1, b2, x, y, z, whole, l1, l2, lx, ly, lz) = cut d (length names) size short in
    let (d1, d2, first, second, third) = fills b1 b2 x y z names text l1 l2 lx ly lz in
    (
      d1,
      d2,
      filled b1 b2 x y z names text l1 l2 lx ly lz,
      ap (λ (q : Block). store q 1000 success) whole ∙ first,
      second,
      third,
      filled-read b1 b2 x y z names text l1 l2 lx ly lz,
    )

-- The packet with a list of names. Its length is not sent.
abbrev pub names_packet : Locals → Text → Packet
names_packet locals names = record {
  size = pos (4 + length names);
  bytes = overlay (see_all_wire group_all_available_reply success names) locals.internal_buffer;
}

pub packs_names :
    (locals : Locals) (m : Block) (names : Text)
    → IsSized locals
    → length names < 1000
    → read_see_all_groups_reply m
      ≡ ok (record { all_group_names = names; reply = success; tag = group_all_available_reply })
    → pack_packet locals m group_all_available_reply ≡ ok (names_packet locals names)
unfolding pack_packet protocol_pack pack_by_tag
packs_names locals m names sized short read =
    let wire =
      pack_see_all_groups_reply-wire m locals.internal_buffer
        (record { all_group_names = names; reply = success; tag = group_all_available_reply }) read
        refl (omega (arith, sized.buffer_size)) in
    rw wire refl
