-- ===== src/Protocol/RoundTrip.antt =====
-- protocol.c: the pack functions of the requests followed by their unpack functions.
use ipc_project.Base.{
  ℕ, ◌+◌, ◌≤◌, ◌<◌, ◌≡◌, refl, length, drop, Exec, ok, fault, ℤ, ◌>>=◌, arith, ◌++◌,
}
use ipc_project.CLib.{Block, calloc}
use ipc_project.CLib.Strings.{c_string-IsText}
use ipc_project.CLib.Overlay.{overlay}
use ipc_project.Protocol.Layout.{
  RegisterOrLoginRequest, read_register_or_login, LogOutOrSeeGroupsReq, read_log_out_or_see_groups,
  GrpReqStruct, read_grp_req,
}
use ipc_project.Protocol.Requests.{
  pack_register_or_login_request, unpack_register_or_login_request, pack_grp_req, unpack_grp_req,
  pack_log_out_or_see_groups_request, unpack_log_out_or_see_groups_request,
}
use ipc_project.Protocol.Wire.{
  pack_grp_req-pack_register_or_login, two_strings_wire, one_string_wire,
  read_register_or_login-parts, pack_register_or_login_request-wire,
  read_log_out_or_see_groups-parts, pack_log_out_or_see_groups_request-wire,
}
use ipc_project.Protocol.Unpack.{
  unpack_register_or_login_request-wire, unpack_log_out_or_see_groups_request-wire,
}

-- A register or login request with a name and a password of at most 29 characters and a tag below
-- 128, packed into a buffer with room for it and unpacked into a zeroed block of at least the
-- struct's 64 bytes, comes back with the same name, password and tag.
pub unpack-pack_register_or_login_request :
    (m buffer : Block) (n : ℕ) (r : RegisterOrLoginRequest)
    → read_register_or_login m ≡ ok r
    → length r.username < 30
    → length r.password < 30
    → r.tag < 128
    → length r.username + length r.password + 4 ≤ length buffer
    → 64 ≤ n
    → (do
      packed ← pack_register_or_login_request m buffer
      unpacked ← unpack_register_or_login_request (calloc n) packed.1
      read_register_or_login unpacked.1)
      ≡ ok r
unfolding overlay
unpack-pack_register_or_login_request m buffer n r e lu lp small room size =
    let parts = read_register_or_login-parts m r e in
    rw (pack_register_or_login_request-wire m buffer r e room) (
      unpack_register_or_login_request-wire n r.tag r.username r.password
        (drop (length (two_strings_wire r.tag r.username r.password)) buffer) size small
        (c_string-IsText m r.username parts.0) (c_string-IsText (drop 30 m) r.password parts.1) lu
        lp)

pub read_grp_req-read_register_or_login :
    (m : Block) (r : GrpReqStruct)
    → read_grp_req m ≡ ok r
    → read_register_or_login m
      ≡ ok (record { username = r.username; password = r.group_name; tag = r.tag })
unfolding read_grp_req read_register_or_login
read_grp_req-read_register_or_login m r e = ground arith

read_register_or_login-read_grp_req :
    (m : Block) (r : RegisterOrLoginRequest)
    → read_register_or_login m ≡ ok r
    → read_grp_req m ≡ ok (record { username = r.username; group_name = r.password; tag = r.tag })
unfolding read_grp_req read_register_or_login
read_register_or_login-read_grp_req m r e = ground arith

-- What unpacks to a login request is a request about a group to whoever reads it as one.
as_grp_req :
    (u : Exec (ℤ × Block)) (r : RegisterOrLoginRequest)
    → (u >>= λ p. read_register_or_login p.1) ≡ ok r
    → (u >>= λ p. read_grp_req p.1)
      ≡ ok (record { username = r.username; group_name = r.password; tag = r.tag })
as_grp_req (ok p) r e = read_register_or_login-read_grp_req p.1 r e
as_grp_req fault r e = cc

pub unpack_grp_req-unpack_register_or_login :
    (m buffer : Block) → unpack_grp_req m buffer ≡ unpack_register_or_login_request m buffer
unfolding unpack_grp_req unpack_register_or_login_request
unpack_grp_req-unpack_register_or_login m buffer = refl

-- A request about a group, with a name and a group name of at most 29 characters and a tag below
-- 128, packed into a buffer with room for it and unpacked into a zeroed block of at least the
-- struct's 64 bytes, comes back with the same name, group name and tag.
pub unpack-pack_grp_req :
    (m buffer : Block) (n : ℕ) (r : GrpReqStruct)
    → read_grp_req m ≡ ok r
    → length r.username < 30
    → length r.group_name < 30
    → r.tag < 128
    → length r.username + length r.group_name + 4 ≤ length buffer
    → 64 ≤ n
    → (do
      packed ← pack_grp_req m buffer
      unpacked ← unpack_grp_req (calloc n) packed.1
      read_grp_req unpacked.1)
      ≡ ok r
unfolding overlay
unpack-pack_grp_req m buffer n r e lu lp small room size =
    let q : RegisterOrLoginRequest = record {
      username = r.username;
      password = r.group_name;
      tag = r.tag;
    } in
    let read = read_grp_req-read_register_or_login m r e in
    let parts = read_register_or_login-parts m q read in
    let rest = drop (length (two_strings_wire q.tag q.username q.password)) buffer in
    rw
      (
        pack_grp_req-pack_register_or_login m buffer,
        pack_register_or_login_request-wire m buffer q read room,
        unpack_grp_req-unpack_register_or_login (calloc n),
      )
      (as_grp_req
        (unpack_register_or_login_request (calloc n)
          (two_strings_wire q.tag q.username q.password ++ rest))
        q
        (unpack_register_or_login_request-wire n q.tag q.username q.password rest size small
          (c_string-IsText m q.username parts.0) (c_string-IsText (drop 30 m) q.password parts.1) lu
          lp))

-- A log-out or see-groups request with a name of at most 29 characters and a tag below 128, packed
-- into a buffer with room for it and unpacked into a zeroed block of at least the struct's 36 bytes,
-- comes back with the same name and tag.
pub unpack-pack_log_out_or_see_groups_request :
    (m buffer : Block) (n : ℕ) (r : LogOutOrSeeGroupsReq)
    → read_log_out_or_see_groups m ≡ ok r
    → length r.username < 30
    → r.tag < 128
    → length r.username + 3 ≤ length buffer
    → 36 ≤ n
    → (do
      packed ← pack_log_out_or_see_groups_request m buffer
      unpacked ← unpack_log_out_or_see_groups_request (calloc n) packed.1
      read_log_out_or_see_groups unpacked.1)
      ≡ ok r
unfolding overlay
unpack-pack_log_out_or_see_groups_request m buffer n r e lu small room size =
    let parts = read_log_out_or_see_groups-parts m r e in
    rw (pack_log_out_or_see_groups_request-wire m buffer r e room) (
      unpack_log_out_or_see_groups_request-wire n r.tag r.username
        (drop (length (one_string_wire r.tag r.username)) buffer) size small
        (c_string-IsText m r.username parts.0) lu)
