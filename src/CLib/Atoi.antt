-- ===== src/CLib/Atoi.antt =====
-- `atoi` of the C library, and the hash that the managers make of it: `atoi(key) % 100`, where `%`
-- of a negative `int` is not positive and the result becomes a `size_t`.
use ipc_project.Base.{
  ℕ, ◌+◌, ◌-◌, ◌*◌, ◌%◌, ◌^◌, min, Bool, ◌&&◌, ◌||◌, [], ◌∷◌, ltb, leb, ◌==◌, if◌then◌else◌,
}
use ipc_project.CLib.{Text}

abbrev pub is_digit : ℕ → Bool
is_digit c = leb b'0' c && leb c b'9'

-- What `isspace` accepts: a blank, and the codes from tab to carriage return.
abbrev is_space : ℕ → Bool
is_space c = c == 32 || leb 9 c && leb c 13

unfoldable pub digits : ℕ → Text → ℕ
digits value [] = value
digits value (c ∷ t) =
    let rest = digits (value * 10 + (c - b'0')) t in if is_digit c then rest else value

-- `strtol` stays within a `long`, and the cast to `int` keeps the low 32 bits.
abbrev positive : ℕ → ℕ
positive value = min value (2 ^ 63 - 1) % 2 ^ 32

abbrev negative : ℕ → ℕ
negative value = (2 ^ 64 - min value (2 ^ 63)) % 2 ^ 32

signed_digits : Text → ℕ
signed_digits [] = 0
signed_digits (c ∷ t) =
    if c == b'-'
    then negative (digits 0 t)
    else if c == b'+'
    then positive (digits 0 t)
    else positive (digits 0 (c ∷ t))

skip_spaces : Text → Text
skip_spaces [] = []
skip_spaces (c ∷ t) = let rest = skip_spaces t in if is_space c then rest else c ∷ t

-- The bit pattern of the `int`.
unfoldable pub atoi : Text → ℕ
unfolding signed_digits skip_spaces digits
atoi t = signed_digits (skip_spaces t)

-- `(size_t) (value % capacity)` for an `int` with this bit pattern.
unfoldable pub remainder_size : ℕ → ℕ → ℕ
remainder_size word capacity =
    if ltb word (2 ^ 31)
    then word % capacity
    else if (2 ^ 32 - word) % capacity == 0
    then 0
    else 2 ^ 64 - (2 ^ 32 - word) % capacity
