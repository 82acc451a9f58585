-- ===== src/Protocol/Unpack.antt =====
-- Unpacking the wire format into a zeroed block, as the server does, gives the message back.
use ipc_project.Base.{
  ℕ, ◌+◌, ◌-◌, ◌%◌, ◌≤◌, ◌<◌, ◌≡◌, refl, sym, ap, [], ◌∷◌, ◌++◌, length, drop, arith, length-append,
  append_assoc, ok, ◌>>=◌, pos, subst, get_elem?, some,
}
use ipc_project.CLib.{
  Block, Text, IsText, calloc, load32, load, strncpy_bytes, char_to_size, char_to_word, word_bytes,
}
use ipc_project.CLib.Strings.{strncpy_bytes-append}
use ipc_project.CLib.Fields.{
  padded, length-padded, calloc-add, strncpy-padded, c_string-padded, get_elem?-append_at,
  drop-append_at, store32-calloc, load32-append, char_to_size-mod, char_to_word-mod,
}
use ipc_project.Protocol.Layout.{read_register_or_login, read_log_out_or_see_groups}
use ipc_project.Protocol.Requests.{
  unpack_register_or_login_request, unpack_log_out_or_see_groups_request,
}
use ipc_project.Protocol.Wire.{two_strings_wire, one_string_wire}

-- A block of a struct with two strings and a tag, and what follows the struct.
abbrev two_strings_block : Text → Text → ℕ → Block → Block
two_strings_block s t tag back = padded 30 s ++ (padded 30 t ++ (word_bytes tag ++ back))

module _ (tag : ℕ) (s t : Text) (vs : IsText s) (vt : IsText t) (ls : length s < 30)
    (lt : length t < 30) (back : Block) where
  read_two_strings :
      tag < 128
      → read_register_or_login (two_strings_block s t tag back)
        ≡ ok (record { username = s; password = t; tag = tag })
  unfolding read_register_or_login
  read_two_strings small =
      let n : length (padded 30 s) ≡ 30 = length-padded 30 s (omega arith) in
      let m : 60 ≡ length (padded 30 s ++ padded 30 t) =
        omega (arith, n, length-append (padded 30 s) (padded 30 t), length-padded 30 t) in
      let w : load32 (two_strings_block s t tag back) 60 ≡ ok tag =
        rw (← append_assoc (padded 30 s) (padded 30 t) (word_bytes tag ++ back))
          (load32-append (padded 30 s ++ padded 30 t) back 60 tag m (omega arith)) in
      rw (
        c_string-padded (padded 30 t ++ (word_bytes tag ++ back)) 30 s vs ls,
        drop-append_at (padded 30 s) (padded 30 t ++ (word_bytes tag ++ back)) 30 (sym n),
        c_string-padded (word_bytes tag ++ back) 30 t vt lt,
        w,
      )

  -- The wire format, and what follows it in the buffer.
  abbrev sent : Block → Block
  sent rest = two_strings_wire tag s t ++ rest

  unpack_two_strings :
      (rest : Block)
      → tag < 128
      → unpack_register_or_login_request
          (calloc 30 ++ (calloc 30 ++ (calloc 4 ++ back)))
          (sent rest)
        ≡ ok (pos 0, two_strings_block s t tag back)
  unfolding unpack_register_or_login_request load
  unpack_two_strings rest small =
      let n : length (padded 30 s) ≡ 30 = length-padded 30 s (omega arith) in
      let a = tag % 256 in
      let b = (length s + length t + 4) % 256 in
      let c = length s % 256 in
      let d = length t % 256 in
      let w = a ∷ b ∷ c ∷ s in
      let split : sent rest ≡ w ++ (d ∷ (t ++ rest)) =
        ap (λ (x : Block). a ∷ b ∷ c ∷ x) (append_assoc s (d ∷ t) rest) in
      let there : get_elem? (sent rest) (3 + length s) ≡ some d =
        rw split (get_elem?-append_at w (t ++ rest) (3 + length s) d (omega arith)) in
      let name : strncpy_bytes (length s) (drop 3 (sent rest)) ≡ ok s =
        rw (append_assoc s (d ∷ t) rest) (strncpy_bytes-append s (d ∷ (t ++ rest)) vs) in
      let behind : drop (4 + length s) (sent rest) ≡ t ++ rest =
        rw (split, ← append_assoc s (d ∷ []) (t ++ rest))
          (drop-append_at (w ++ (d ∷ [])) (t ++ rest) (4 + length s)
            (omega (arith, length-append s (d ∷ [])))) in
      let pass : strncpy_bytes (length t) (drop (4 + length s) (sent rest)) ≡ ok t =
        rw behind (strncpy_bytes-append t rest vt) in
      rw (
        store32-calloc (calloc 30 ++ calloc 30) back 60 (char_to_word a) refl,
        char_to_word-mod tag small,
        char_to_size-mod (length s) (omega arith),
        strncpy-padded [] (calloc 30 ++ (word_bytes tag ++ back)) (sent rest) 30 0 3 (length s) s
            name refl refl (omega arith),
        there,
        strncpy-padded (padded 30 s) (word_bytes tag ++ back) (sent rest) 30 30 (4 + length s)
            (char_to_size d) t pass (sym n) (char_to_size-mod (length t) (omega arith))
            (omega arith),
      )

-- The wire format of a login request unpacks, into a zeroed block with room for the struct, to the
-- message with that tag and those two strings.
pub unpack_register_or_login_request-wire :
    (n tag : ℕ) (s t : Text) (rest : Block)
    → 64 ≤ n
    → tag < 128
    → IsText s
    → IsText t
    → length s < 30
    → length t < 30
    → (unpack_register_or_login_request (calloc n) (two_strings_wire tag s t ++ rest) >>= λ r.
        read_register_or_login r.1)
      ≡ ok (record { username = s; password = t; tag = tag })
unpack_register_or_login_request-wire n tag s t rest room small vs vt ls lt =
    let e : 64 + (n - 64) ≡ n = omega arith in
    let zeros : calloc n ≡ calloc 64 ++ calloc (n - 64) =
      subst (λ k. calloc k ≡ calloc 64 ++ calloc (n - 64)) e (calloc-add 64 (n - 64)) in
    rw (zeros, unpack_two_strings tag s t vs vt ls lt (calloc (n - 64)) rest small)
      (read_two_strings tag s t vs vt ls lt (calloc (n - 64)) small)

-- A block of the struct with one string and a tag, and what follows the struct.
abbrev one_string_block : Text → ℕ → Block → Block
one_string_block s tag back = padded 30 s ++ (calloc 2 ++ (word_bytes tag ++ back))

module _ (tag : ℕ) (s : Text) (vs : IsText s) (ls : length s < 30) (back : Block) where
  read_one_string :
      tag < 128
      → read_log_out_or_see_groups (one_string_block s tag back)
        ≡ ok (record { username = s; tag = tag })
  unfolding read_log_out_or_see_groups
  read_one_string small =
      let n : 32 ≡ length (padded 30 s ++ calloc 2) =
        omega (arith, length-append (padded 30 s) (calloc 2), length-padded 30 s) in
      let w : load32 (one_string_block s tag back) 32 ≡ ok tag =
        rw (← append_assoc (padded 30 s) (calloc 2) (word_bytes tag ++ back))
          (load32-append (padded 30 s ++ calloc 2) back 32 tag n (omega arith)) in
      rw (c_string-padded (calloc 2 ++ (word_bytes tag ++ back)) 30 s vs ls, w)

  unpack_one_string :
      (rest : Block)
      → tag < 128
      → unpack_log_out_or_see_groups_request
          (calloc 30 ++ (calloc 2 ++ (calloc 4 ++ back)))
          (one_string_wire tag s ++ rest)
        ≡ ok (pos 0, one_string_block s tag back)
  unfolding unpack_log_out_or_see_groups_request load
  unpack_one_string rest small = rw (
    store32-calloc (calloc 30 ++ calloc 2) back 32 (char_to_word (tag % 256)) refl,
    char_to_word-mod tag small,
    strncpy-padded [] (calloc 2 ++ (word_bytes tag ++ back)) (one_string_wire tag s ++ rest) 30 0 3
        (char_to_size (length s % 256)) s (strncpy_bytes-append s rest vs) refl
        (char_to_size-mod (length s) (omega arith)) (omega arith),
  )

-- So does the wire format of a log-out or see-groups request.
pub unpack_log_out_or_see_groups_request-wire :
    (n tag : ℕ) (s : Text) (rest : Block)
    → 36 ≤ n
    → tag < 128
    → IsText s
    → length s < 30
    → (unpack_log_out_or_see_groups_request (calloc n) (one_string_wire tag s ++ rest) >>= λ r.
        read_log_out_or_see_groups r.1)
      ≡ ok (record { username = s; tag = tag })
unpack_log_out_or_see_groups_request-wire n tag s rest room small vs ls =
    let e : 36 + (n - 36) ≡ n = omega arith in
    let zeros : calloc n ≡ calloc 36 ++ calloc (n - 36) =
      subst (λ k. calloc k ≡ calloc 36 ++ calloc (n - 36)) e (calloc-add 36 (n - 36)) in
    rw (zeros, unpack_one_string tag s vs ls (calloc (n - 36)) rest small)
      (read_one_string tag s vs ls (calloc (n - 36)) small)
