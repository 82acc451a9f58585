-- ===== src/SrvMng/Requests.antt =====
-- A request on its way from a client, who packs it with protocol.c, into the server's memory.
use ipc_project.Base.{
  ℕ, ◌+◌, ◌<◌, ◌≤◌, ◌≡◌, refl, subst, ap, ◌∙◌, Bool, true, ◌||◌, ◌==◌, length, arith, some, ok, pos,
  ℤ, ◌>>=◌, Exec, fault, lt→ltb_no,
}
use ipc_project.CLib.{Block, char_to_word, calloc, load, string_at}
use ipc_project.CLib.Fields.{char_to_word-mod}
use ipc_project.CLib.Overlay.{overlay}
use ipc_project.Protocol.Layout.{
  LogOutOrSeeGroupsReq, read_log_out_or_see_groups, logout_request, log_out_or_see_groups_size,
  RegisterOrLoginRequest, read_register_or_login, register_request, login_request,
  group_create_request, group_join_request, group_leave_request, register_or_login_size,
}
use ipc_project.Protocol.Requests.{
  unpack_log_out_or_see_groups_request, pack_register_or_login_request,
  unpack_register_or_login_request,
}
use ipc_project.Protocol.Dispatch.{
  protocol_pack, protocol_unpack, protocol_get_tag, pack_by_tag, unpack_by_tag,
}
use ipc_project.Protocol.Wire.{
  pack_log_out_or_see_groups_request-wire, one_string_wire, pack_register_or_login_request-wire,
  pack_grp_req-pack_register_or_login, two_strings_wire,
}
use ipc_project.Protocol.RoundTrip.{
  unpack-pack_log_out_or_see_groups_request, unpack-pack_register_or_login_request,
  unpack_grp_req-unpack_register_or_login,
}
use ipc_project.SrvMng.Handlers.{unpack_request}

-- The tags of the requests with two strings.
abbrev pub has_two_strings : ℕ → Bool
has_two_strings tag =
    tag == register_request
    || tag == login_request
    || tag == group_create_request
    || tag == group_join_request
    || tag == group_leave_request

pub packs_two_strings :
    (m b : Block) (tag : ℕ)
    → has_two_strings tag ≡ true
    → pack_by_tag m b tag ≡ pack_register_or_login_request m b
unfolding pack_by_tag
packs_two_strings m b tag two = ground (arith, pack_grp_req-pack_register_or_login m b)

pub unpacks_two_strings :
    (m b : Block) (tag : ℕ)
    → has_two_strings tag ≡ true
    → unpack_by_tag m b tag ≡ unpack_register_or_login_request m b
unfolding unpack_by_tag
unpacks_two_strings m b tag two = ground (arith, unpack_grp_req-unpack_register_or_login m b)

pub two_strings_range : (tag : ℕ) → has_two_strings tag ≡ true → (1 ≤ tag) × (tag ≤ 14)
two_strings_range tag two = ground arith

-- The block of a run that is read as a request.
read_block :
    (run : Exec (ℤ × Block)) (r : RegisterOrLoginRequest)
    → (run >>= λ u. read_register_or_login u.1) ≡ ok r
    → (result : ℤ) × (blk : Block) × (run ≡ ok (result, blk))
      × (string_at blk 0 ≡ ok r.username)
      × (string_at blk 30 ≡ ok r.password)
unfolding read_register_or_login
read_block fault r e = cc
read_block (ok (result, blk)) r e = (result, blk, refl, ground arith, ground arith)

-- What a client packs under a tag, the server unpacks: the tag selects the case, and the two strings
-- stand where the case reads them.
abbrev pub Arrives : Block → Block → RegisterOrLoginRequest → ℕ → Type 0
Arrives m out r tag =
    (size : ℤ) × (buffer blk : Block) × (protocol_pack (some m) (some out) tag
      ≡ ok (size, some buffer))
    × (protocol_get_tag (some buffer) ≡ ok tag)
    × (unpack_request true register_or_login_size buffer tag ≡ ok blk)
    × (string_at blk 0 ≡ ok r.username)
    × (string_at blk 30 ≡ ok r.password)

two_strings_arrive :
    (m out : Block) (r : RegisterOrLoginRequest)
    → read_register_or_login m ≡ ok r
    → has_two_strings r.tag ≡ true
    → length r.username < 30
    → length r.password < 30
    → length r.username + length r.password + 4 ≤ length out
    → Arrives m out r r.tag
unfolding protocol_pack protocol_unpack protocol_get_tag unpack_request overlay load
two_strings_arrive m out r e two lu lp room =
    let (low, high) = two_strings_range r.tag two in
    let wire = pack_register_or_login_request-wire m out r e room in
    let buffer = overlay (two_strings_wire r.tag r.username r.password) out in
    let trip =
      unpack-pack_register_or_login_request m out 1920 r e lu lp (omega arith) room (omega arith) in
    let (result, blk, unpacked, user, pass) =
      read_block (unpack_register_or_login_request (calloc 1920) buffer) r (
        subst
          (λ p.
            (do
              packed ← p
              unpacked ← unpack_register_or_login_request (calloc 1920) packed.1
              read_register_or_login unpacked.1)
            ≡ ok r)
          wire trip) in
    (
      pos (length r.username + length r.password + 4),
      buffer,
      blk,
      rw (lt→ltb_no r.tag 1 low, lt→ltb_no 14 r.tag high, packs_two_strings m out r.tag two, wire)
          refl,
      ap ok (char_to_word-mod r.tag (omega arith)),
      rw
          (
            lt→ltb_no r.tag 1 low,
            lt→ltb_no 14 r.tag high,
            unpacks_two_strings (calloc 1920) buffer r.tag two,
            unpacked,
          )
          refl,
      user,
      pass,
    )

pub two_strings_arrive_as :
    (m out : Block) (r : RegisterOrLoginRequest) (tag : ℕ)
    → read_register_or_login m ≡ ok r
    → r.tag ≡ tag
    → has_two_strings tag ≡ true
    → length r.username < 30
    → length r.password < 30
    → length r.username + length r.password + 4 ≤ length out
    → Arrives m out r tag
two_strings_arrive_as m out r tag e t two lu lp room =
    subst (Arrives m out r) t (two_strings_arrive m out r e (ap has_two_strings t ∙ two) lu lp room)

-- The block of a run that is read as a log-out request.
read_name :
    (run : Exec (ℤ × Block)) (r : LogOutOrSeeGroupsReq)
    → (run >>= λ u. read_log_out_or_see_groups u.1) ≡ ok r
    → (result : ℤ) × (blk : Block) × (run ≡ ok (result, blk)) × (string_at blk 0 ≡ ok r.username)
unfolding read_log_out_or_see_groups
read_name fault r e = cc
read_name (ok (result, blk)) r e = (result, blk, refl, ground arith)

-- The same for a log-out, whose request has one string.
pub log_out_arrives :
    (m out : Block) (r : LogOutOrSeeGroupsReq)
    → read_log_out_or_see_groups m ≡ ok r
    → r.tag ≡ logout_request
    → length r.username < 30
    → length r.username + 3 ≤ length out
    → (size : ℤ) × (buffer blk : Block) × (protocol_pack (some m) (some out) logout_request
        ≡ ok (size, some buffer))
      × (protocol_get_tag (some buffer) ≡ ok logout_request)
      × (unpack_request true log_out_or_see_groups_size buffer logout_request ≡ ok blk)
      × (string_at blk 0 ≡ ok r.username)
unfolding protocol_pack pack_by_tag protocol_unpack unpack_by_tag protocol_get_tag unpack_request
    overlay load char_to_word
log_out_arrives m out r e t lu room =
    let small : r.tag < 128 = omega (arith, t) in
    let wire = pack_log_out_or_see_groups_request-wire m out r e room in
    let buffer = overlay (one_string_wire r.tag r.username) out in
    let trip =
      unpack-pack_log_out_or_see_groups_request m out 1080 r e lu small room (omega arith) in
    let (result, blk, unpacked, user) =
      read_name (unpack_log_out_or_see_groups_request (calloc 1080) buffer) r (
        subst
          (λ p.
            (do
              packed ← p
              unpacked ← unpack_log_out_or_see_groups_request (calloc 1080) packed.1
              read_log_out_or_see_groups unpacked.1)
            ≡ ok r)
          wire trip) in
    (pos (length r.username + 3), buffer, blk, rw wire refl, rw t refl, rw unpacked refl, user)
