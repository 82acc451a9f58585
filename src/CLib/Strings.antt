-- ===== src/CLib/Strings.antt =====
-- Laws of the string functions.
use ipc_project.Base.{
  ℕ, zero, suc, ◌+◌, ◌≤◌, ◌≡◌, refl, ap, ◌∙◌, inl, inr, true, [], ◌∷◌, ◌++◌, length, drop, arith,
  length-append, le→leb, ◌↔◌, ok, Exec-cases, append_assoc,
}
use ipc_project.CLib.{Block, Text, IsText, c_string, strncpy_bytes, strncpy, strcpy, strcmp_eq}
use ipc_project.CLib.Memory.{write-append, write-append_rest}

-- A string followed by a NUL byte is read back.
pub c_string-append : (t rest : Block) → IsText t → c_string (t ++ (0 ∷ rest)) ≡ ok t
unfolding c_string
c_string-append [] rest h = refl
c_string-append (zero ∷ t) rest h = absurd (omega arith)
c_string-append (suc b ∷ t) rest h = rw (c_string-append t rest h.1)

-- Copying a string by its own length copies exactly its characters.
pub strncpy_bytes-c_string :
    (blk : Block) (t : Text) → c_string blk ≡ ok t → strncpy_bytes (length t) blk ≡ ok t
unfolding c_string strncpy_bytes
strncpy_bytes-c_string [] t e = cc
strncpy_bytes-c_string (zero ∷ blk) [] e = refl
strncpy_bytes-c_string (zero ∷ blk) (x ∷ t) e = cc
strncpy_bytes-c_string (suc b ∷ blk) t e = elim (Exec-cases (c_string blk)) [
  | inl bad ↦ cc
  | inr (r, good) ↦
      let p : suc b ∷ r ≡ t = ground (arith, good) in
      rw (← p) (rw (strncpy_bytes-c_string blk r good))
]

pub strncpy_bytes-append : (t rest : Block) → IsText t → strncpy_bytes (length t) (t ++ rest) ≡ ok t
unfolding strncpy_bytes
strncpy_bytes-append [] rest h = refl
strncpy_bytes-append (zero ∷ t) rest h = absurd (omega arith)
strncpy_bytes-append (suc b ∷ t) rest h = rw (strncpy_bytes-append t rest h.1)

-- A string that is found in a block has no NUL byte.
pub c_string-IsText : (blk : Block) (t : Text) → c_string blk ≡ ok t → IsText t
unfolding c_string
c_string-IsText [] t e = cc
c_string-IsText (zero ∷ blk) [] e = tt
c_string-IsText (zero ∷ blk) (x ∷ t) e = cc
c_string-IsText (suc b ∷ blk) [] e = tt
c_string-IsText (suc b ∷ blk) (x ∷ t) e = elim (Exec-cases (c_string blk)) [
  | inl bad ↦ cc
  | inr (r, good) ↦
      let p : suc b ≡ x = ground (arith, good) in
      let q : r ≡ t = ground (arith, good) in (omega arith, c_string-IsText blk t (rw (← q) good))
]

-- `strncpy` over a middle piece of as many bytes as it writes.
pub strncpy_over :
    (front old back src : Block) (off src_off n : ℕ) (bytes : Block)
    → strncpy_bytes n (drop src_off src) ≡ ok bytes
    → length bytes ≡ n
    → off ≡ length front
    → length old ≡ n
    → strncpy (front ++ (old ++ back)) off src src_off n ≡ ok (front ++ (bytes ++ back))
unfolding strncpy
strncpy_over front old back src off src_off n bytes copied size at_end e =
    let fits : length front + n ≤ length (front ++ (old ++ back)) =
      omega (arith, length-append front (old ++ back), length-append old back) in
    rw (at_end, le→leb _ _ fits, copied) (write-append front old back bytes (omega arith))

-- `strncpy` of a whole string over a middle piece of its length.
pub strncpy-append :
    (front old back src : Block) (src_off : ℕ) (t : Text)
    → strncpy_bytes (length t) (drop src_off src) ≡ ok t
    → length old ≡ length t
    → strncpy (front ++ (old ++ back)) (length front) src src_off (length t)
      ≡ ok (front ++ (t ++ back))
strncpy-append front old back src src_off t copied e =
    strncpy_over front old back src (length front) src_off (length t) t copied refl refl e

-- `strncpy` of a whole string to the end of what was written so far.
pub strncpy-append_rest :
    (front rest src : Block) (src_off : ℕ) (t : Text)
    → strncpy_bytes (length t) (drop src_off src) ≡ ok t
    → length t ≤ length rest
    → strncpy (front ++ rest) (length front) src src_off (length t)
      ≡ ok (front ++ (t ++ drop (length t) rest))
unfolding strncpy
strncpy-append_rest front rest src src_off t copied h =
    let fits : length front + length t ≤ length (front ++ rest) =
      omega (arith, length-append front rest) in
    rw (le→leb _ _ fits, copied) (write-append_rest front rest t h)

-- `strcpy` to the head of a block with room for the NUL byte.
pub strcpy-append :
    (old back : Block) (t : Text)
    → length old ≡ length t + 1
    → strcpy (old ++ back) 0 t ≡ ok (t ++ (0 ∷ back))
unfolding strcpy
strcpy-append old back t e =
    write-append [] old back (t ++ (0 ∷ [])) (omega (arith, e, length-append t (0 ∷ [])))
    ∙ ap ok (append_assoc t (0 ∷ []) back)

-- `strcmp` answers 0 on equal strings only.
pub strcmp_eq_iff : (s t : Text) → (strcmp_eq s t ≡ true) ↔ (s ≡ t)
unfolding strcmp_eq
strcmp_eq_iff [] [] = (λ _. refl, λ _. refl)
strcmp_eq_iff [] (b ∷ t) = (λ e. cc, λ e. cc)
strcmp_eq_iff (a ∷ s) [] = (λ e. cc, λ e. cc)
strcmp_eq_iff (a ∷ s) (b ∷ t) = ground (arith, strcmp_eq_iff s t)
