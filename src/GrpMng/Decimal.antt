-- ===== src/GrpMng/Decimal.antt =====
-- `integerLength` and `myItoA`. An `int` here is not negative.
use ipc_project.Base.{ℕ, zero, suc, ◌+◌, ◌/◌, ◌%◌, ◌==◌, if◌then◌else◌, Exec, ok, fault, ◌>>=◌}
use ipc_project.CLib.{Block, store, strlen}

-- `while (_num != 0)`: a round divides by ten, so `num` rounds are enough.
unfoldable pub integer_length_loop : ℕ → ℕ → ℕ → ℕ
integer_length_loop zero num i = i
integer_length_loop (suc fuel) num i =
    let rest = integer_length_loop fuel (num / 10) (i + 1) in if num == 0 then i else rest

unfoldable pub integer_length : ℕ → ℕ
unfolding integer_length_loop
integer_length num = integer_length_loop num num 0

-- `for (i = sizeInt-1; i >= 0; i--)`, with `k` rounds to go: the digits from the last to the first.
unfoldable pub digit_loop : ℕ → Block → ℕ → Exec (Block × ℕ)
digit_loop zero str num = ok (str, num)
digit_loop (suc k) str num = do str ← store str k (num % 10 + b'0'); digit_loop k str (num / 10)

-- `while (_num != 0)` around it. A number of `size` digits is used up in one round; the fuel is for
-- the rounds, and where it ends the loop is cut short as a fault.
unfoldable pub number_loop : ℕ → ℕ → Block → ℕ → Exec Block
number_loop fuel size str zero = ok str
number_loop zero size str (suc num) = fault
number_loop (suc fuel) size str (suc num) = do
  r ← digit_loop size str (suc num)
  number_loop fuel size r.0 r.1

-- `strlen(_str)` is called on the array before anything is written to it.
unfoldable pub my_ito_a : ℕ → Block → Exec Block
my_ito_a num str = do
  let size = integer_length num
  old_size ← strlen str 0
  str ← number_loop (suc num) size str num
  store str size 0
