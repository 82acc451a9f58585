-- ===== src/SrvMng/GroupReplies.antt =====
-- The packets of srv_mng.c that answer a request to create or join a group.
use ipc_project.Base.{
  ℕ, ◌+◌, ◌<◌, ◌≡◌, refl, sym, ap, ◌∙◌, subst, [], ◌∷◌, ◌++◌, length, drop, arith, length-append,
  drop-append, append_assoc, Exec, ok, fault, ◌>>=◌, ℤ,
}
use ipc_project.CLib.{
  Block, Text, IsText, load, load32, store, store32, strcpy, write, word_bytes, calloc, c_string,
}
use ipc_project.CLib.Memory.{write-append, split, write_at}
use ipc_project.CLib.Strings.{c_string-append}
use ipc_project.CLib.Fields.{load32-append}
use ipc_project.SrvMng.Handlers.{fill_group_reply, Locals, Packet, pack_packet}
use ipc_project.Protocol.Dispatch.{protocol_pack, pack_by_tag}
use ipc_project.Protocol.Replies.{pack_group_create_reply, unpack_group_create_reply}
use ipc_project.Protocol.GroupReplyTrip.{unpack-pack_group_create_reply}
use ipc_project.Protocol.Layout.{
  GroupCreateReply, read_group_create_reply, GroupCreateReply, group_create_reply,
}

module _ (a x b1 b2 c e : Block) (value tag : ℕ) (ip port : Text) (la : length a ≡ 4)
    (lx : length x ≡ 1) (l1 : length b1 ≡ length ip + 1) (lb : length b1 + length b2 ≡ 15)
    (lc : length c ≡ 5) (lp : length port ≡ 4) where
  -- A struct `GroupCreateReply`, cut into the pieces that are written.
  abbrev pieces : Block
  pieces = a ++ (x ++ ((b1 ++ b2) ++ (c ++ e)))

  abbrev filled : Block
  filled = word_bytes tag ++ (value ∷ ((ip ++ (0 ∷ [])) ++ (b2 ++ ((port ++ (0 ∷ [])) ++ e))))

  filled_lem : fill_group_reply pieces value port ip tag ≡ ok filled
  unfolding fill_group_reply store store32 strcpy
  filled_lem =
      let port0 : Block = port ++ (0 ∷ []) in
      let ip0 : Block = ip ++ (0 ∷ []) in
      let front : Block = a ++ (value ∷ (b1 ++ b2)) in
      let at20 : length front ≡ 20 =
        omega (arith, length-append a (value ∷ (b1 ++ b2)), length-append b1 b2, la, lb) in
      let one : write pieces 4 (value ∷ []) ≡ ok (a ++ (value ∷ ((b1 ++ b2) ++ (c ++ e)))) =
        subst (λ n. write pieces n (value ∷ []) ≡ ok (a ++ (value ∷ ((b1 ++ b2) ++ (c ++ e))))) la
          (write-append a x ((b1 ++ b2) ++ (c ++ e)) (value ∷ []) lx) in
      let two : write (a ++ (value ∷ ((b1 ++ b2) ++ (c ++ e)))) 20 port0
          ≡ ok (a ++ (value ∷ (b1 ++ (b2 ++ (port0 ++ e))))) =
        write_at (a ++ (value ∷ ((b1 ++ b2) ++ (c ++ e)))) front c e port0 20
          (append_assoc a (value ∷ (b1 ++ b2)) (c ++ e)) (sym at20)
          (omega (arith, length-append port (0 ∷ []), lc, lp))
        ∙ ap ok (
            append_assoc a (value ∷ (b1 ++ b2)) (port0 ++ e)
            ∙ ap (λ (y : Block). a ++ (value ∷ y)) (append_assoc b1 b2 (port0 ++ e))) in
      let three : write (a ++ (value ∷ (b1 ++ (b2 ++ (port0 ++ e))))) 5 ip0
          ≡ ok (a ++ (value ∷ (ip0 ++ (b2 ++ (port0 ++ e))))) =
        write_at (a ++ (value ∷ (b1 ++ (b2 ++ (port0 ++ e))))) (a ++ (value ∷ [])) b1
          (b2 ++ (port0 ++ e)) ip0 5 (append_assoc a (value ∷ []) (b1 ++ (b2 ++ (port0 ++ e))))
          (omega (arith, length-append a (value ∷ []), la))
          (omega (arith, length-append ip (0 ∷ []), l1))
        ∙ ap ok (append_assoc a (value ∷ []) (ip0 ++ (b2 ++ (port0 ++ e)))) in
      let four : write (a ++ (value ∷ (ip0 ++ (b2 ++ (port0 ++ e))))) 0 (word_bytes tag)
          ≡ ok filled =
        write-append [] a (value ∷ (ip0 ++ (b2 ++ (port0 ++ e)))) (word_bytes tag) la in
      rw (one, two, three, four) refl

  -- The struct that is filled in reads as what was written.
  filled-read :
      IsText ip
      → IsText port
      → tag < 256
      → read_group_create_reply filled
        ≡ ok (record { tag = tag; reply = value; ip = ip; port = port })
  unfolding read_group_create_reply load
  filled-read ti tp small =
      let ip0 : Block = ip ++ (0 ∷ []) in
      let port0 : Block = port ++ (0 ∷ []) in
      let rest : Block = value ∷ (ip0 ++ (b2 ++ (port0 ++ e))) in
      let tagged : load32 (word_bytes tag ++ rest) 0 ≡ ok tag =
        load32-append [] rest 0 tag refl (omega arith) in
      let ip_read : c_string (ip0 ++ (b2 ++ (port0 ++ e))) ≡ ok ip =
        rw (append_assoc ip (0 ∷ []) (b2 ++ (port0 ++ e)))
          (c_string-append ip (b2 ++ (port0 ++ e)) ti) in
      let fifteen : length (ip0 ++ b2) ≡ 15 =
        omega (arith, length-append ip0 b2, length-append ip (0 ∷ []), l1, lb) in
      let behind : drop 15 (ip0 ++ (b2 ++ (port0 ++ e))) ≡ port0 ++ e =
        rw (← append_assoc ip0 b2 (port0 ++ e)) (
          subst (λ n. drop n ((ip0 ++ b2) ++ (port0 ++ e)) ≡ port0 ++ e) fifteen
            (drop-append (ip0 ++ b2) (port0 ++ e))) in
      let port_read : c_string (port0 ++ e) ≡ ok port =
        rw (append_assoc port (0 ∷ []) e) (c_string-append port e tp) in
      rw (tagged, ip_read, behind, port_read) refl

joined_pieces :
    (d d1 d2 d3 a x b b1 b2 c e : Block)
    → d ≡ a ++ d1
    → d1 ≡ x ++ d2
    → d2 ≡ b ++ d3
    → d3 ≡ c ++ e
    → b ≡ b1 ++ b2
    → d ≡ a ++ (x ++ ((b1 ++ b2) ++ (c ++ e)))
joined_pieces d d1 d2 d3 a x b b1 b2 c e e1 e2 e3 e4 e5 = rw (e1, e2, e3, e4, e5) refl

-- The steps fill in any struct of 28 bytes.
any_filled :
    (d : Block) (value tag : ℕ) (ip port : Text)
    → length d ≡ 28
    → length ip < 15
    → length port ≡ 4
    → IsText ip
    → IsText port
    → tag < 256
    → (m : Block) × (fill_group_reply d value port ip tag ≡ ok m)
      × (read_group_create_reply m ≡ ok (record { tag = tag; reply = value; ip = ip; port = port }))
any_filled d value tag ip port size li lp ti tp small =
    let (a, d1, e1, la, s1) = split 4 d (omega (arith, size)) in
    let (x, d2, e2, lx, s2) = split 1 d1 (omega (arith, size, s1)) in
    let (b, d3, e3, lb, s3) = split 15 d2 (omega (arith, size, s1, s2)) in
    let (c, e, e4, lc, _) = split 5 d3 (omega (arith, size, s1, s2, s3)) in
    let (b1, b2, e5, l1, l2) = split (length ip + 1) b (omega (arith, lb, li)) in
    let whole = joined_pieces d d1 d2 d3 a x b b1 b2 c e e1 e2 e3 e4 e5 in
    let b15 : length b1 + length b2 ≡ 15 = omega (arith, lb, l1, l2, li) in
    (
      filled a x b1 b2 c e value tag ip port la lx l1 b15 lc lp,
      ap (λ (q : Block). fill_group_reply q value port ip tag) whole
          ∙ filled_lem a x b1 b2 c e value tag ip port la lx l1 b15 lc lp,
      filled-read a x b1 b2 c e value tag ip port la lx l1 b15 lc lp ti tp small,
    )

-- What a client reads from a packet, in a zeroed struct.
abbrev pub reads : Packet → Exec GroupCreateReply
reads packet = do
  unpacked ← unpack_group_create_reply (calloc 28) packet.bytes
  read_group_create_reply unpacked.1

read_packet :
    (run : Exec (ℤ × Block)) (r : GroupCreateReply)
    → (do
      packed ← run
      unpacked ← unpack_group_create_reply (calloc 28) packed.1
      read_group_create_reply unpacked.1)
      ≡ ok r
    → (packet : Packet) × (run ≡ ok (packet.size, packet.bytes)) × (reads packet ≡ ok r)
read_packet fault r e = cc
read_packet (ok (size, bytes)) r e = (record { size = size; bytes = bytes }, refl, e)

-- The struct of a reply is packed, and reads as it was at the other end.
pub packed_reply :
    (locals : Locals) (value tag : ℕ) (ip port : Text)
    → length locals.internal_buffer ≡ 4096
    → length locals.data_to_send_group ≡ 28
    → length ip < 15
    → length port ≡ 4
    → IsText ip
    → IsText port
    → tag < 128
    → value < 256
    → (packet : Packet) × ((fill_group_reply locals.data_to_send_group value port ip tag
          >>= λ message. pack_packet locals message group_create_reply)
        ≡ ok packet)
      × (reads packet ≡ ok (record { tag = tag; reply = value; ip = ip; port = port }))
unfolding pack_packet protocol_pack pack_by_tag
packed_reply locals value tag ip port wide size li lp ti tp small byte =
    let r : GroupCreateReply = record { tag = tag; reply = value; ip = ip; port = port } in
    let (m, filled_in, read) =
      any_filled locals.data_to_send_group value tag ip port size li lp ti tp (omega arith) in
    let (packet, packed, reads_back) =
      read_packet (pack_group_create_reply m locals.internal_buffer) r (
        unpack-pack_group_create_reply m locals.internal_buffer 28 r read li (omega (arith, lp))
          small byte (omega (arith, li, lp, wide)) (omega arith)) in
    (packet, rw (filled_in, packed) refl, reads_back)
