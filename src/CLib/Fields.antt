-- ===== src/CLib/Fields.antt =====
-- A struct as its members in a row: a character array that holds a string and zeros behind it, and
-- a word of four bytes.
use ipc_project.Base.{
  ℕ, suc, ◌+◌, ◌-◌, ◌/◌, ◌%◌, ◌^◌, ◌≤◌, ◌<◌, ◌≡◌, refl, sym, ap, ◌∙◌, subst,
  get_elem?-append_length, some, [], ◌∷◌, ◌++◌, length, drop, replicate, get_elem?, arith,
  length-append, length-replicate, replicate-add, append_assoc, drop-append, ok,
}
use ipc_project.CLib.{
  Block, Text, IsText, calloc, load, load32, store32, word_bytes, c_string, strncpy, strncpy_bytes,
  char_to_size, char_to_word,
}
use ipc_project.CLib.Memory.{write-append}
use ipc_project.CLib.Strings.{c_string-append, strncpy-append}

-- A character array of `k` bytes that holds the string `t`.
unfoldable pub padded : ℕ → Text → Block
padded k t = t ++ replicate (k - length t) 0

pub length-padded : (k : ℕ) (t : Text) → length t ≤ k → length (padded k t) ≡ k
unfolding padded
length-padded k t h = omega (
  arith,
  length-append t (replicate (k - length t) 0),
  length-replicate {0} {A = ℕ} (k - length t) 0,
)

pub calloc-add : (m n : ℕ) → calloc (m + n) ≡ calloc m ++ calloc n
calloc-add m n = replicate-add m n 0

-- A string that is copied into an array of zeros pads it.
pub strncpy-padded :
    (front back src : Block) (k off src_off n : ℕ) (t : Text)
    → strncpy_bytes (length t) (drop src_off src) ≡ ok t
    → off ≡ length front
    → n ≡ length t
    → length t ≤ k
    → strncpy (front ++ (calloc k ++ back)) off src src_off n ≡ ok (front ++ (padded k t ++ back))
unfolding padded
strncpy-padded front back src k off src_off n t copied at_end size h =
    let e : length t + (k - length t) ≡ k = omega arith in
    let split : calloc k ++ back ≡ calloc (length t) ++ (calloc (k - length t) ++ back) =
      ap (λ (b : Block). b ++ back)
        (subst (λ n. calloc n ≡ calloc (length t) ++ calloc (k - length t)) e
          (calloc-add (length t) (k - length t)))
      ∙ append_assoc (calloc (length t)) (calloc (k - length t)) back in
    rw (at_end, size, split)
      (strncpy-append front (calloc (length t)) (calloc (k - length t) ++ back) src src_off t copied
          (length-replicate (length t) 0)
        ∙ ap (λ (x : Block). ok (front ++ x)) (sym (append_assoc t (calloc (k - length t)) back)))

-- It is read back where there is room for its NUL byte.
pub c_string-padded :
    (back : Block) (k : ℕ) (t : Text)
    → IsText t
    → length t < k
    → c_string (padded k t ++ back) ≡ ok t
unfolding padded
c_string-padded back k t v h =
    let e : k - length t ≡ suc (k - length t - 1) = omega arith in
    rw (e, append_assoc) (c_string-append t (calloc (k - length t - 1) ++ back) v)

pub drop-append_at :
    (front back : Block) (off : ℕ) → off ≡ length front → drop off (front ++ back) ≡ back
drop-append_at front back off e = rw e (drop-append front back)

pub get_elem?-append_at :
    (front back : Block) (off x : ℕ)
    → off ≡ length front
    → get_elem? (front ++ (x ∷ back)) off ≡ some x
get_elem?-append_at front back off x e = rw e (get_elem?-append_length front back x)

-- A zero word becomes the word that is stored over it.
pub store32-calloc :
    (front back : Block) (off w : ℕ)
    → off ≡ length front
    → store32 (front ++ (calloc 4 ++ back)) off w ≡ ok (front ++ (word_bytes w ++ back))
unfolding store32
store32-calloc front back off w e = rw e (write-append front (calloc 4) back (word_bytes w) refl)

pub get_elem?-append_add :
    (front back : Block) (i : ℕ) → get_elem? (front ++ back) (length front + i) ≡ get_elem? back i
get_elem?-append_add [] back i = let e : 0 + i ≡ i = omega arith in rw e
get_elem?-append_add (x ∷ front) back i =
    let e : suc (length front) + i ≡ suc (length front + i) = omega arith in
    rw e (get_elem?-append_add front back i)

-- A word is read back as it was written.
pub load32-append :
    (front back : Block) (off w : ℕ)
    → off ≡ length front
    → w < 2 ^ 32
    → load32 (front ++ (word_bytes w ++ back)) off ≡ ok w
unfolding load32 load
load32-append front back off w e h =
    let blk : Block = front ++ (word_bytes w ++ back) in
    let b₀ : get_elem? blk (length front) ≡ some (w % 256) =
      get_elem?-append_length front _ (w % 256) in
    let b₁ : get_elem? blk (length front + 1) ≡ some (w / 256 % 256) =
      get_elem?-append_add front _ 1 in
    let b₂ : get_elem? blk (length front + 2) ≡ some (w / 65536 % 256) =
      get_elem?-append_add front _ 2 in
    let b₃ : get_elem? blk (length front + 3) ≡ some (w / 16777216 % 256) =
      get_elem?-append_add front _ 3 in
    rw (e, b₀, b₁, b₂, b₃) (ap ok (omega arith))

pub char_to_size-mod : (n : ℕ) → n < 128 → char_to_size (n % 256) ≡ n
unfolding char_to_size
char_to_size-mod n h = ground arith

pub char_to_word-mod : (n : ℕ) → n < 128 → char_to_word (n % 256) ≡ n
unfolding char_to_word
char_to_word-mod n h = ground arith
