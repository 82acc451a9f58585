-- ===== src/CLib.antt =====
-- The parts of the C library and of the machine that the sources use. A block is what an address
-- points to: the bytes of an array, a struct or an allocation, from its first to its last. Every
-- access is checked against the end of the block, and one outside of it is a fault.
pub mod Memory
pub mod Strings
pub mod Overlay
pub mod Fields
pub mod Atoi
use ipc_project.Base.{
  ℕ, zero, suc, ◌+◌, ◌-◌, ◌*◌, ◌/◌, ◌%◌, ◌^◌, ◌≤◌, ◌<◌, Bool, true, false, ◌&&◌, Option, none, some,
  List, [], ◌∷◌, ◌++◌, length, get_elem?, take, drop, replicate, All, leb, ltb, ◌==◌, if◌then◌else◌,
  Exec, ok, fault, ◌>>=◌, or_fault,
}

abbrev pub Block : Type 0
Block = List ℕ

-- The content of a C string, without the NUL byte that ends it.
abbrev pub Text : Type 0
Text = List ℕ

-- No character is the NUL byte.
abbrev pub IsText : Text → Type 0
IsText = All λ b. 0 < b

-- `calloc`: a block of zero bytes.
abbrev pub calloc : ℕ → Block
calloc n = replicate n 0

unfoldable pub load : Block → ℕ → Exec ℕ
load blk off = or_fault (get_elem? blk off)

unfoldable pub write : Block → ℕ → List ℕ → Exec Block
write blk off bytes =
    if leb (off + length bytes) (length blk)
    then ok (take off blk ++ (bytes ++ drop (off + length bytes) blk))
    else fault

-- One byte, and an `int` or an enum in four bytes, the lowest first.
unfoldable pub store : Block → ℕ → ℕ → Exec Block
store blk off b = write blk off (b ∷ [])

abbrev pub word_bytes : ℕ → List ℕ
word_bytes w = (w % 256) ∷ (w / 256 % 256) ∷ (w / 65536 % 256) ∷ (w / 16777216 % 256) ∷ []

unfoldable pub store32 : Block → ℕ → ℕ → Exec Block
store32 blk off w = write blk off (word_bytes w)

unfoldable pub load32 : Block → ℕ → Exec ℕ
load32 blk off = do
  a ← load blk off
  b ← load blk (off + 1)
  c ← load blk (off + 2)
  d ← load blk (off + 3)
  ok (a + b * 256 + c * 65536 + d * 16777216)

-- `(unsigned char) x`
abbrev pub unsigned_char : ℕ → ℕ
unsigned_char x = x % 256

-- A `char` is signed: as an `int` or an enum, and as the `size_t` that the string functions take.
unfoldable pub char_to_word : ℕ → ℕ
char_to_word b = if ltb b 128 then b else b + (2 ^ 32 - 256)

unfoldable pub char_to_size : ℕ → ℕ
char_to_size b = if ltb b 128 then b else b + (2 ^ 64 - 256)

-- The string that begins at the head of the block, up to its NUL byte.
unfoldable pub c_string : Block → Exec Text
c_string [] = fault
c_string (zero ∷ blk) = ok []
c_string (suc b ∷ blk) = do rest ← c_string blk; ok (suc b ∷ rest)

abbrev pub string_at : Block → ℕ → Exec Text
string_at blk off = c_string (drop off blk)

unfoldable pub strlen : Block → ℕ → Exec ℕ
strlen blk off = do t ← string_at blk off; ok (length t)

-- The bytes that `strncpy` writes: `n` of them, zeros from the first NUL on.
unfoldable pub strncpy_bytes : ℕ → Block → Exec (List ℕ)
strncpy_bytes zero src = ok []
strncpy_bytes (suc n) [] = fault
strncpy_bytes (suc n) (zero ∷ src) = ok (replicate (suc n) 0)
strncpy_bytes (suc n) (suc b ∷ src) = do rest ← strncpy_bytes n src; ok (suc b ∷ rest)

-- `strncpy(&dst[off], &src[src_off], n)` writes `n` bytes whatever it reads.
unfoldable pub strncpy : Block → ℕ → Block → ℕ → ℕ → Exec Block
strncpy dst off src src_off n =
    if leb (off + n) (length dst)
    then (strncpy_bytes n (drop src_off src) >>= write dst off)
    else fault

-- `strcpy` and `strcat` of a string, to an offset of a block.
unfoldable pub strcpy : Block → ℕ → Text → Exec Block
strcpy dst off t = write dst off (t ++ (0 ∷ []))

unfoldable pub strcat : Block → Text → Exec Block
strcat dst t = do old ← c_string dst; write dst (length old) (t ++ (0 ∷ []))

-- `strcpy` into an array of `size` bytes that from then on is read as a string only.
unfoldable pub copy_string : ℕ → Text → Exec Text
copy_string size t = if ltb (length t) size then ok t else fault

-- `strcmp(s, t) == 0`
unfoldable pub strcmp_eq : Text → Text → Bool
strcmp_eq [] [] = true
strcmp_eq [] (b ∷ t) = false
strcmp_eq (a ∷ s) [] = false
strcmp_eq (a ∷ s) (b ∷ t) = (a == b) && strcmp_eq s t
