-- ===== src/ClientManager/Structs.antt =====
-- The structs that client_manager.c fills in.
use ipc_project.Base.{
  ℕ, zero, suc, ◌+◌, ◌*◌, ◌-◌, ◌%◌, ◌≤◌, ◌<◌, ◌≡◌, refl, sym, ap, ◌∙◌, subst, some, get_elem?, [],
  ◌∷◌, ◌++◌, length, arith, length-append, length-replicate, replicate, append_assoc, ok,
}
use ipc_project.CLib.{Block, Text, IsText, calloc, store32, strcpy, word_bytes, load, load32}
use ipc_project.CLib.Memory.{write-append}
use ipc_project.CLib.Fields.{
  padded, length-padded, calloc-add, c_string-padded, drop-append_at, store32-calloc, load32-append,
  get_elem?-append_add,
}
use ipc_project.Protocol.Layout.{read_register_or_login, read_log_out_or_see_groups}
use ipc_project.ClientManager.{two_strings_struct, one_string_struct}

-- A string copied into an array of zeros, with its NUL byte.
strcpy-padded :
    (front back : Block) (k off : ℕ) (t : Text)
    → off ≡ length front
    → length t < k
    → strcpy (front ++ (calloc k ++ back)) off t ≡ ok (front ++ (padded k t ++ back))
unfolding strcpy padded
strcpy-padded front back k off t at h =
    let n = k - length t - 1 in
    let e : suc (length t) + n ≡ k = omega arith in
    let f : k - length t ≡ suc n = omega arith in
    let cut : calloc k ++ back ≡ calloc (suc (length t)) ++ (calloc n ++ back) =
      ap (λ (b : Block). b ++ back)
        (subst (λ j. calloc j ≡ calloc (suc (length t)) ++ calloc n) e
          (calloc-add (suc (length t)) n))
      ∙ append_assoc (calloc (suc (length t))) (calloc n) back in
    let size : length (calloc (suc (length t))) ≡ length (t ++ (0 ∷ [])) =
      omega (arith, length-replicate {A = ℕ} (suc (length t)) 0, length-append t (0 ∷ [])) in
    rw (at, cut)
      (write-append front (calloc (suc (length t))) (calloc n ++ back) (t ++ (0 ∷ [])) size
        ∙ ap (λ (x : Block). ok (front ++ x))
            (append_assoc t (0 ∷ []) (calloc n ++ back)
              ∙ sym (append_assoc t (0 ∷ calloc n) back)
              ∙ ap (λ (j : ℕ). (t ++ replicate j 0) ++ back) (sym f)))

-- The two strings with zeros behind them, and the tag.
abbrev pub two_strings_block : ℕ → Text → Text → Block
two_strings_block tag first second = padded 30 first ++ (padded 30 second ++ (word_bytes tag ++ []))

pub two_strings_struct_lem :
    (tag : ℕ) (first second : Text)
    → length first < 30
    → length second < 30
    → two_strings_struct tag first second ≡ ok (two_strings_block tag first second)
unfolding two_strings_struct
two_strings_struct_lem tag first second lf ls =
    let word : Block = word_bytes tag ++ [] in
    let a = padded 30 first in
    let b = padded 30 second in
    let la : length a ≡ 30 = length-padded 30 first (omega arith) in
    let one : store32 (calloc 64) 60 tag ≡ ok (calloc 60 ++ word) =
      store32-calloc (calloc 60) [] 60 tag refl in
    let two : strcpy (calloc 60 ++ word) 0 first ≡ ok (a ++ (calloc 30 ++ word)) =
      strcpy-padded [] (calloc 30 ++ word) 30 0 first refl lf in
    let three : strcpy (a ++ (calloc 30 ++ word)) 30 second ≡ ok (a ++ (b ++ word)) =
      strcpy-padded a word 30 30 second (sym la) ls in
    rw (one, two, three) refl

-- A struct with two strings reads as what was written.
pub two_strings_struct-read :
    (tag : ℕ) (first second : Text)
    → IsText first
    → IsText second
    → length first < 30
    → length second < 30
    → tag < 256
    → (msg : Block) × (two_strings_struct tag first second ≡ ok msg)
      × (read_register_or_login msg
          ≡ ok (record { username = first; password = second; tag = tag }))
unfolding read_register_or_login
two_strings_struct-read tag first second tf ts lf ls small =
    let word : Block = word_bytes tag ++ [] in
    let a = padded 30 first in
    let b = padded 30 second in
    let la : length a ≡ 30 = length-padded 30 first (omega arith) in
    let lb : length b ≡ 30 = length-padded 30 second (omega arith) in
    let tagged : load32 (a ++ (b ++ word)) 60 ≡ ok tag =
      rw (← append_assoc a b word) (
        load32-append (a ++ b) [] 60 tag (omega (arith, length-append a b, la, lb))
          (omega arith)) in
    (
      two_strings_block tag first second,
      two_strings_struct_lem tag first second lf ls,
      rw
          (
            c_string-padded (b ++ word) 30 first tf lf,
            drop-append_at a (b ++ word) 30 (sym la),
            c_string-padded word 30 second ts ls,
            tagged,
          )
          refl,
    )

-- A struct with one string likewise.
pub one_string_struct-read :
    (tag : ℕ) (first : Text)
    → IsText first
    → length first < 30
    → tag < 256
    → (msg : Block) × (one_string_struct tag first ≡ ok msg)
      × (read_log_out_or_see_groups msg ≡ ok (record { username = first; tag = tag }))
unfolding one_string_struct read_log_out_or_see_groups
one_string_struct-read tag first tf lf small =
    let word : Block = word_bytes tag ++ [] in
    let a = padded 32 first in
    let la : length a ≡ 32 = length-padded 32 first (omega arith) in
    let one : store32 (calloc 36) 32 tag ≡ ok (calloc 32 ++ word) =
      store32-calloc (calloc 32) [] 32 tag refl in
    let two : strcpy (calloc 32 ++ word) 0 first ≡ ok (a ++ word) =
      strcpy-padded [] word 32 0 first refl (omega arith) in
    let tagged : load32 (a ++ word) 32 ≡ ok tag =
      load32-append a [] 32 tag (sym la) (omega arith) in
    (
      a ++ word,
      rw (one, two) refl,
      rw (c_string-padded word 32 first tf (omega arith), tagged) refl,
    )

-- The third character of a string, or the zero that stands there.
abbrev pub third : Text → ℕ
third (a ∷ b ∷ c ∷ rest) = c
third rest = 0

get_elem?-inside : (blk : Block) (i : ℕ) → i < length blk → (x : ℕ) × (get_elem? blk i ≡ some x)
get_elem?-inside [] i h = absurd (omega arith)
get_elem?-inside (x ∷ blk) zero h = (x, refl)
get_elem?-inside (x ∷ blk) (suc i) h = get_elem?-inside blk i (omega arith)

load32-inside :
    (blk : Block) (off a : ℕ)
    → get_elem? blk off ≡ some a
    → off + 4 ≤ length blk
    → (w : ℕ) × (load32 blk off ≡ ok w) × (w % 256 ≡ a % 256)
unfolding load32 load
load32-inside blk off a e h =
    let (b, eb) = get_elem?-inside blk (off + 1) (omega arith) in
    let (c, ec) = get_elem?-inside blk (off + 2) (omega arith) in
    let (d, ed) = get_elem?-inside blk (off + 3) (omega arith) in
    (a + b * 256 + c * 65536 + d * 16777216, rw (e, eb, ec, ed) refl, omega arith)

padded-third :
    (t : Text) (back : Block) → length t < 30 → get_elem? (padded 30 t ++ back) 2 ≡ some (third t)
unfolding padded
padded-third [] back h = refl
padded-third (a ∷ []) back h = refl
padded-third (a ∷ b ∷ []) back h = refl
padded-third (a ∷ b ∷ c ∷ t) back h = refl

-- A struct with two strings that is read as one with one string: the tag is found in the second
-- string.
pub two_strings_struct-read_as_one :
    (tag : ℕ) (first second : Text)
    → IsText first
    → length first < 30
    → length second < 30
    → (w : ℕ) × (w % 256 ≡ third second % 256)
      × (read_log_out_or_see_groups (two_strings_block tag first second)
          ≡ ok (record { username = first; tag = w }))
unfolding read_log_out_or_see_groups
two_strings_struct-read_as_one tag first second tf lf ls =
    let word : Block = word_bytes tag ++ [] in
    let a = padded 30 first in
    let b = padded 30 second in
    let la : length a ≡ 30 = length-padded 30 first (omega arith) in
    let lb : length b ≡ 30 = length-padded 30 second (omega arith) in
    let at : get_elem? (a ++ (b ++ word)) 32 ≡ some (third second) =
      subst (λ n. get_elem? (a ++ (b ++ word)) (n + 2) ≡ some (third second)) la
        (get_elem?-append_add a (b ++ word) 2 ∙ padded-third second word ls) in
    let (w, read, same) =
      load32-inside (a ++ (b ++ word)) 32 (third second) at
        (omega (arith, length-append a (b ++ word), length-append b word, la, lb)) in
    (w, same, rw (c_string-padded (b ++ word) 30 first tf lf, read) refl)
