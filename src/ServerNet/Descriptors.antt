-- ===== src/ServerNet/Descriptors.antt =====
-- Sets of descriptors, `fd_set` with its macros. A descriptor beyond the end of the set is a fault.
use ipc_project.Base.{
  ℕ, zero, suc, ◌+◌, ◌≤◌, ◌<◌, ◌≡◌, ◌≢◌, refl, sym, subst, Bool, true, false, Bool-cases, inl, inr,
  ltb, ◌==◌, ==_iff, if◌then◌else◌, Exec, ok, fault, arith,
}

abbrev pub fd_setsize : ℕ
fd_setsize = 1024

abbrev pub FdSet : Type 0
FdSet = ℕ → Bool

abbrev pub put : FdSet → ℕ → Bool → FdSet
put s fd b i = if i == fd then b else s i

unfoldable pub fd_zero : FdSet
fd_zero i = false

unfoldable pub fd_isset : ℕ → FdSet → Exec Bool
fd_isset fd s = if ltb fd fd_setsize then ok (s fd) else fault

-- `FD_SET` is `add` and `FD_CLR` is `clear`.
unfoldable pub add : ℕ → FdSet → Exec FdSet
add fd s = if ltb fd fd_setsize then ok (put s fd true) else fault

unfoldable pub clear : ℕ → FdSet → Exec FdSet
clear fd s = if ltb fd fd_setsize then ok (put s fd false) else fault

abbrev pub one_if : Bool → ℕ
one_if true = 1
one_if false = 0

-- How many descriptors below a bound are in a set.
unfoldable pub count : ℕ → FdSet → ℕ
count zero s = 0
count (suc n) s = count n s + one_if (s n)

-- A set that is changed at or above the bound.
count-put_ge : (n : ℕ) (s : FdSet) (fd : ℕ) (b : Bool) → n ≤ fd → count n (put s fd b) ≡ count n s
unfolding count
count-put_ge zero s fd b h = refl
count-put_ge (suc n) s fd b h = ground (arith, count-put_ge n s fd b)

pub count-put-true :
    (n : ℕ) (s : FdSet) (fd : ℕ) → fd < n → s fd ≡ false → count n (put s fd true) ≡ count n s + 1
unfolding count
count-put-true zero s fd h e = elim h [ ]
count-put-true (suc n) s fd h e = elim (Bool-cases (n == fd)) [
  | inl here ↦
      let same : fd ≡ n = sym ((==_iff n fd).0 here) in
      let was : s n ≡ false = subst (λ x. s x ≡ false) same e in
      ground (arith, was, count-put_ge n s fd true)
  | inr there ↦ ground (arith, count-put-true n s fd)
]

pub count-put-false :
    (n : ℕ) (s : FdSet) (fd : ℕ) → fd < n → s fd ≡ true → count n (put s fd false) + 1 ≡ count n s
unfolding count
count-put-false zero s fd h e = elim h [ ]
count-put-false (suc n) s fd h e = elim (Bool-cases (n == fd)) [
  | inl here ↦
      let same : fd ≡ n = sym ((==_iff n fd).0 here) in
      let was : s n ≡ true = subst (λ x. s x ≡ true) same e in
      ground (arith, was, count-put_ge n s fd false)
  | inr there ↦ ground (arith, count-put-false n s fd)
]

-- The members of a set that was changed.
pub put_mono : (s : FdSet) (fd i : ℕ) → s i ≡ true → put s fd true i ≡ true
put_mono s fd i e = ground arith

pub put_self : (s : FdSet) (fd : ℕ) (b : Bool) → put s fd b fd ≡ b
put_self s fd b = ground arith

pub put_other : (s : FdSet) (fd i : ℕ) (b : Bool) → i ≢ fd → put s fd b i ≡ s i
put_other s fd i b h = ground arith

-- The highest member of a set with one more.
pub put-highest :
    (s : FdSet) (fd high : ℕ)
    → s high ≡ true
    → put s fd true (if ltb high fd then fd else high) ≡ true
put-highest s fd high e = elim (Bool-cases (ltb high fd)) [
  | inl more ↦ rw more (put_self s fd true)
  | inr less ↦ rw less (put_mono s fd high e)
]

pub put-bounded :
    (s : FdSet) (fd high i : ℕ)
    → (s i ≡ true → i ≤ high)
    → put s fd true i ≡ true
    → i ≤ (if ltb high fd then fd else high)
put-bounded s fd high i bounded e = ground (arith, bounded)

pub cleared_cases : (s : FdSet) (fd i : ℕ) → put s fd false i ≡ true → (i ≢ fd) × (s i ≡ true)
cleared_cases s fd i e = elim (Bool-cases (i == fd)) [
  | inl same ↦ absurd (ground arith)
  | inr other ↦ (ground arith, ground arith)
]

pub count_pos : (n : ℕ) (s : FdSet) (fd : ℕ) → fd < n → s fd ≡ true → 0 < count n s
count_pos n s fd h e = omega (arith, count-put-false n s fd h e)
