-- ===== src/Protocol/Wire.antt =====
-- The bytes of each message, and that packing writes them to the head of the buffer.
use ipc_project.Base.{
  ℕ, ◌+◌, ◌%◌, ◌≤◌, ◌≡◌, refl, ap, List, [], ◌∷◌, ◌++◌, length, drop, arith, length-append,
  append_assoc, ok, pos, subst,
}
use ipc_project.CLib.{Block, Text, c_string, strlen, load32, unsigned_char}
use ipc_project.CLib.Strings.{strncpy_bytes-c_string}
use ipc_project.CLib.Overlay.{overlay, overlay-nil, store-overlay, strncpy-overlay}
use ipc_project.Protocol.Layout.{
  RegisterOrLoginRequest, read_register_or_login, LogOutOrSeeGroupsReq, read_log_out_or_see_groups,
}
use ipc_project.Protocol.Requests.{
  pack_register_or_login_request, pack_grp_req, pack_log_out_or_see_groups_request,
}

-- Two strings under a tag, each after its length.
abbrev pub two_strings_wire : ℕ → Text → Text → List ℕ
two_strings_wire tag s t =
    (tag % 256)
    ∷ ((length s + length t + 4) % 256)
    ∷ (length s % 256)
    ∷ (s ++ ((length t % 256) ∷ t))

module _ (m buffer : Block) (tag : ℕ) (s t : Text) (hs : c_string m ≡ ok s)
    (ht : c_string (drop 30 m) ≡ ok t) (htag : load32 m 60 ≡ ok tag)
    (room : length s + length t + 4 ≤ length buffer) where
  pack_two_strings :
      pack_register_or_login_request m (overlay [] buffer)
      ≡ ok (pos (length s + length t + 4), overlay (two_strings_wire tag s t) buffer)
  unfolding pack_register_or_login_request strlen
  pack_two_strings =
      let a = unsigned_char tag in
      let b = unsigned_char (length s + length t + 4) in
      let c = unsigned_char (length s) in
      let d = unsigned_char (length t) in
      let w = a ∷ b ∷ c ∷ s in
      rw
        (
          hs,
          ht,
          htag,
          store-overlay [] buffer 0 a refl (omega arith),
          store-overlay (a ∷ []) buffer 1 b refl (omega arith),
          store-overlay (a ∷ b ∷ []) buffer 2 c refl (omega arith),
          strncpy-overlay (a ∷ b ∷ c ∷ []) buffer m 3 0 (length s) s (strncpy_bytes-c_string m s hs)
              refl refl (omega arith),
          store-overlay w buffer (3 + length s) d (omega arith) (omega arith),
          strncpy-overlay (w ++ (d ∷ [])) buffer m (4 + length s) 30 (length t) t
              (strncpy_bytes-c_string (drop 30 m) t ht) (omega (arith, length-append s (d ∷ [])))
              refl (omega (arith, length-append s (d ∷ []))),
        )
        (ap (λ (x : Block). ok (pos (length s + length t + 4), overlay (a ∷ b ∷ c ∷ x) buffer))
          (append_assoc s (d ∷ []) t))

pub read_register_or_login-parts :
    (m : Block) (r : RegisterOrLoginRequest)
    → read_register_or_login m ≡ ok r
    → (c_string m ≡ ok r.username)
      × (c_string (drop 30 m) ≡ ok r.password)
      × (load32 m 60 ≡ ok r.tag)
unfolding read_register_or_login
read_register_or_login-parts m r e = ground arith

-- A register or login request is packed into its wire format, at the head of the buffer, and the
-- value returned is the length of that. The rest of the buffer keeps its bytes.
pub pack_register_or_login_request-wire :
    (m buffer : Block) (r : RegisterOrLoginRequest)
    → read_register_or_login m ≡ ok r
    → length r.username + length r.password + 4 ≤ length buffer
    → pack_register_or_login_request m buffer
      ≡ ok (
        pos (length r.username + length r.password + 4),
        overlay (two_strings_wire r.tag r.username r.password) buffer,
      )
pack_register_or_login_request-wire m buffer r e room =
    let parts = read_register_or_login-parts m r e in
    subst
      (λ b.
        pack_register_or_login_request m b
        ≡ ok (
          pos (length r.username + length r.password + 4),
          overlay (two_strings_wire r.tag r.username r.password) buffer,
        ))
      (overlay-nil buffer)
      (pack_two_strings m buffer r.tag r.username r.password parts.0 parts.1 parts.2 room)

-- The two request structs with two strings are packed by the same steps.
pub pack_grp_req-pack_register_or_login :
    (m buffer : Block) → pack_grp_req m buffer ≡ pack_register_or_login_request m buffer
unfolding pack_grp_req pack_register_or_login_request
pack_grp_req-pack_register_or_login m buffer = refl

-- One string under a tag, after its length.
abbrev pub one_string_wire : ℕ → Text → List ℕ
one_string_wire tag s = (tag % 256) ∷ ((length s + 3) % 256) ∷ (length s % 256) ∷ s

pub read_log_out_or_see_groups-parts :
    (m : Block) (r : LogOutOrSeeGroupsReq)
    → read_log_out_or_see_groups m ≡ ok r
    → (c_string m ≡ ok r.username) × (load32 m 32 ≡ ok r.tag)
unfolding read_log_out_or_see_groups
read_log_out_or_see_groups-parts m r e = ground arith

pack_one_string :
    (m buffer : Block) (tag : ℕ) (s : Text)
    → c_string m ≡ ok s
    → load32 m 32 ≡ ok tag
    → length s + 3 ≤ length buffer
    → pack_log_out_or_see_groups_request m (overlay [] buffer)
      ≡ ok (pos (length s + 3), overlay (one_string_wire tag s) buffer)
unfolding pack_log_out_or_see_groups_request strlen
pack_one_string m buffer tag s hs htag room =
    let a = unsigned_char tag in
    let b = unsigned_char (length s + 3) in
    let c = unsigned_char (length s) in
    rw (
      hs,
      htag,
      store-overlay [] buffer 0 a refl (omega arith),
      store-overlay (a ∷ []) buffer 1 b refl (omega arith),
      store-overlay (a ∷ b ∷ []) buffer 2 c refl (omega arith),
      strncpy-overlay (a ∷ b ∷ c ∷ []) buffer m 3 0 (length s) s (strncpy_bytes-c_string m s hs)
          refl refl (omega arith),
    )

-- A log-out or see-groups request likewise.
pub pack_log_out_or_see_groups_request-wire :
    (m buffer : Block) (r : LogOutOrSeeGroupsReq)
    → read_log_out_or_see_groups m ≡ ok r
    → length r.username + 3 ≤ length buffer
    → pack_log_out_or_see_groups_request m buffer
      ≡ ok (pos (length r.username + 3), overlay (one_string_wire r.tag r.username) buffer)
pack_log_out_or_see_groups_request-wire m buffer r e room =
    let parts = read_log_out_or_see_groups-parts m r e in
    subst
      (λ b.
        pack_log_out_or_see_groups_request m b
        ≡ ok (pos (length r.username + 3), overlay (one_string_wire r.tag r.username) buffer))
      (overlay-nil buffer) (pack_one_string m buffer r.tag r.username parts.0 parts.1 room)
