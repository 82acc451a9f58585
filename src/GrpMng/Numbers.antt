-- ===== src/GrpMng/Numbers.antt =====
-- `integerLength` and `myItoA` of grp_mng.c: what they compute.
use ipc_project.Base.{
  ℕ, zero, suc, ◌+◌, ◌-◌, ◌*◌, ◌/◌, ◌%◌, ◌≤◌, ◌<◌, ◌≡◌, refl, ap, ◌∙◌, inl, inr, Bool-cases, [],
  ◌∷◌, ◌++◌, length, length-drop, drop-drop, drop, le→leb, arith, length-append, append_assoc, All,
  All-append, ◌==◌, ==_iff, ok, ◌>>=◌, subst, sym,
}
use ipc_project.CLib.{Block, Text, IsText, store, write, strlen, c_string}
use ipc_project.CLib.Memory.{write-append_rest, store-drop}
use ipc_project.CLib.Strings.{c_string-append}
use ipc_project.CLib.Atoi.{digits}
use ipc_project.GrpMng.Decimal.{
  integer_length, integer_length_loop, digit_loop, number_loop, my_ito_a,
}

-- The last `k` digits of a number, the highest first.
unfoldable pub fixed_digits : ℕ → ℕ → Text
fixed_digits zero num = []
fixed_digits (suc k) num = fixed_digits k (num / 10) ++ ((num % 10 + b'0') ∷ [])

-- The number without its last `k` digits.
unfoldable pub without_digits : ℕ → ℕ → ℕ
without_digits zero num = num
without_digits (suc k) num = without_digits k (num / 10)

pub length-fixed_digits : (k num : ℕ) → length (fixed_digits k num) ≡ k
unfolding fixed_digits
length-fixed_digits zero num = refl
length-fixed_digits (suc k) num = omega (
  arith,
  length-append (fixed_digits k (num / 10)) ((num % 10 + b'0') ∷ []),
  length-fixed_digits k (num / 10),
)

pub fixed_digits-IsText : (k num : ℕ) → IsText (fixed_digits k num)
unfolding fixed_digits
fixed_digits-IsText zero num = tt
fixed_digits-IsText (suc k) num =
    All-append _ (fixed_digits k (num / 10)) _ (fixed_digits-IsText k (num / 10)) (omega arith, tt)

-- A round of the outer loop writes the last `k` digits.
pub digit_loop-fixed_digits :
    (k : ℕ) (str : Block) (num : ℕ)
    → k ≤ length str
    → digit_loop k str num ≡ ok (fixed_digits k num ++ drop k str, without_digits k num)
unfolding digit_loop fixed_digits without_digits
digit_loop-fixed_digits zero str num h = refl
digit_loop-fixed_digits (suc k) str num h =
    let (str', stored, rest, size) = store-drop str k (num % 10 + b'0') (omega arith) in
    rw (stored, digit_loop-fixed_digits k str' (num / 10) (omega arith), rest)
      (ap (λ t. ok (t, without_digits k (num / 10)))
        (sym
          (append_assoc (fixed_digits k (num / 10)) ((num % 10 + b'0') ∷ []) (drop (suc k) str))))

-- The number of rounds of the loop, and that they use the number up.
pub integer_length_loop_lem :
    (fuel num i : ℕ)
    → num ≤ fuel
    → (k : ℕ) × (integer_length_loop fuel num i ≡ i + k) × (without_digits k num ≡ 0)
unfolding integer_length_loop without_digits
integer_length_loop_lem zero num i h = (0, omega arith, omega arith)
integer_length_loop_lem (suc fuel) num i h = elim (Bool-cases (num == 0)) [
  | inl e ↦ (0, rw e (omega arith), (==_iff num 0).0 e)
  | inr e ↦
      let small : num / 10 ≤ fuel = ground arith in
      let (k, counted, used) = integer_length_loop_lem fuel (num / 10) (i + 1) small in
      (suc k, rw (e, counted) (omega arith), used)
]

integer_length_loop_le :
    (fuel k num i : ℕ) → without_digits k num ≡ 0 → integer_length_loop fuel num i ≤ i + k
unfolding integer_length_loop without_digits
integer_length_loop_le zero k num i e = omega arith
integer_length_loop_le (suc fuel) zero num i e = ground arith
integer_length_loop_le (suc fuel) (suc k) num i e =
    ground (arith, integer_length_loop_le fuel k (num / 10) (i + 1) e)

-- The digits that a text ends in are read last.
digits-append :
    (t : Text) (value c : ℕ)
    → All (λ d. (b'0' ≤ d) × (d ≤ b'9')) t
    → b'0' ≤ c
    → c ≤ b'9'
    → digits value (t ++ (c ∷ [])) ≡ digits value t * 10 + (c - b'0')
unfolding digits
digits-append [] value c h l u = ground arith
digits-append (d ∷ t) value c h l u =
    rw (le→leb _ _ h.0.0, le→leb _ _ h.0.1) (digits-append t (value * 10 + (d - b'0')) c h.1 l u)

fixed_digits-All : (k num : ℕ) → All (λ d. (b'0' ≤ d) × (d ≤ b'9')) (fixed_digits k num)
unfolding fixed_digits
fixed_digits-All zero num = tt
fixed_digits-All (suc k) num =
    All-append _ (fixed_digits k (num / 10)) _ (fixed_digits-All k (num / 10))
      ((omega arith, omega arith), tt)

-- The digits are those of the number.
pub digits-fixed_digits :
    (k num : ℕ) → without_digits k num ≡ 0 → digits 0 (fixed_digits k num) ≡ num
unfolding fixed_digits without_digits digits
digits-fixed_digits zero num e = sym e
digits-fixed_digits (suc k) num e =
    digits-append (fixed_digits k (num / 10)) 0 (num % 10 + b'0') (fixed_digits-All k (num / 10))
      (omega arith) (omega arith)
    ∙ rw (digits-fixed_digits k (num / 10) e) (omega arith)

-- The string of a number, as `myItoA` writes it.
abbrev pub decimal : ℕ → Text
decimal num = fixed_digits (integer_length num) num

pub integer_length_lem : (num : ℕ) → without_digits (integer_length num) num ≡ 0
unfolding integer_length
integer_length_lem num =
    let (k, counted, used) = integer_length_loop_lem num num 0 (omega arith) in
    let e : integer_length_loop num num 0 ≡ k = counted ∙ omega arith in rw e used

number_loop-decimal :
    (num : ℕ) (str : Block)
    → integer_length num ≤ length str
    → number_loop (suc num) (integer_length num) str num
      ≡ ok (decimal num ++ drop (integer_length num) str)
unfolding number_loop integer_length integer_length_loop fixed_digits
number_loop-decimal zero str h = refl
number_loop-decimal (suc num) str h =
    rw
      (
        digit_loop-fixed_digits (integer_length (suc num)) str (suc num) h,
        integer_length_lem (suc num),
      )
      refl

-- What `myItoA` leaves in an array that holds a string and has room for the digits: the digits of
-- the number and a NUL byte.
pub my_ito_a-decimal :
    (num : ℕ) (str : Block) (old : Text)
    → c_string str ≡ ok old
    → integer_length num < length str
    → my_ito_a num str ≡ ok (decimal num ++ (0 ∷ drop (suc (integer_length num)) str))
unfolding my_ito_a strlen store
my_ito_a-decimal num str old e h =
    let k = integer_length num in
    let size : length (decimal num) ≡ k = length-fixed_digits k num in
    let more : drop 1 (drop k str) ≡ drop (suc k) str =
      drop-drop k 1 str ∙ (let e : k + 1 ≡ suc k = omega arith in rw e) in
    let written =
      write-append_rest (decimal num) (drop k str) (0 ∷ []) (omega (arith, length-drop k str)) in
    rw (e, number_loop-decimal num str (omega arith))
      (subst
        (λ n.
          write (decimal num ++ drop k str) n (0 ∷ []) ≡ ok (decimal num ++ (0 ∷ drop (suc k) str)))
        size (written ∙ rw more refl))

-- A number that has at most `k` digits is that long.
pub integer_length_le : (k num : ℕ) → without_digits k num ≡ 0 → integer_length num ≤ k
unfolding integer_length
integer_length_le k num e = omega (arith, integer_length_loop_le num k num 0 e)

-- `myItoA` writes a number as its decimal digits: the string in the array reads as the number again.
-- The array holds a string before, and has room for the digits and the NUL byte.
pub my_ito_a_lem :
    (num : ℕ) (str : Block) (old : Text)
    → c_string str ≡ ok old
    → integer_length num < length str
    → (text : Text) × ((my_ito_a num str >>= c_string) ≡ ok text)
      × (digits 0 text ≡ num)
      × (length text ≡ integer_length num)
my_ito_a_lem num str old e h =
    let k = integer_length num in
    (
      decimal num,
      rw (my_ito_a-decimal num str old e h)
          (c_string-append (decimal num) (drop (suc k) str) (fixed_digits-IsText k num)),
      digits-fixed_digits k num (integer_length_lem num),
      length-fixed_digits k num,
    )
