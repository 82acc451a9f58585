-- ===== src/ServerNet/Clean.antt =====
-- What `CleanMyList` and the search for the highest descriptor come to.
use ipc_project.Base.{
  ℕ, zero, suc, ◌+◌, ◌≤◌, ◌<◌, ◌≡◌, true, false, Bool-cases, inl, inr, List, [], ◌∷◌, length, All,
  ok, ◌==◌, ==_iff, subst, lt→leb, lt→ltb, arith,
}
use ipc_project.Containers.Chain.{ListLib, IsLawful}
use ipc_project.ServerNet.Descriptors.{FdSet, fd_isset, fd_setsize}
use ipc_project.ServerNet.Loop.{clean_from, clean_my_list, lower}

module _ (K : ListLib) (H : IsLawful K) where
  clean_from_lem :
      (list : K.Chain ℕ) (sockets : List ℕ) (fuel : ℕ) (begin : K.Itr)
      → H.IsOf ℕ list begin
      → K.rest ℕ list begin ≡ sockets
      → All (λ s. 0 < s) sockets
      → length sockets < fuel
      → clean_from K fuel list begin ≡ ok list
  unfolding clean_from
  clean_from_lem list sockets zero begin of e p h = elim h [ ]
  clean_from_lem list [] (suc fuel) begin of e p h = rw (H.rest_end ℕ list begin of e)
  clean_from_lem list (s ∷ sockets) (suc fuel) begin of e p h =
      let (more, moved, got, rest, of') = H.rest_more ℕ list begin s sockets e in
      rw (more, moved, got, lt→leb s 0 p.0)
        (clean_from_lem list sockets fuel (K.next ℕ list begin) of' rest p.1 (omega arith))

  -- A list of sockets, which all have positive numbers, stays as it is: nothing is ever erased.
  pub clean_my_list-kept :
      (list : K.Chain ℕ) → All (λ s. 0 < s) (K.items ℕ list) → clean_my_list K list ≡ ok list
  unfolding clean_my_list
  clean_my_list-kept list p =
      clean_from_lem list (K.items ℕ list) (length (K.items ℕ list) + 1) (K.first ℕ list)
        (H.first-IsOf ℕ list) (H.rest-first ℕ list) p (omega arith)

-- A member at or below a number that is no member is below it.
member_below : (n i : ℕ) (s : FdSet) → s (suc n) ≡ false → i ≤ suc n → s i ≡ true → i ≤ n
member_below n i s out le e = elim (Bool-cases (i == suc n)) [
  | inl same ↦
      let here : s (suc n) ≡ true = subst (λ x. s x ≡ true) ((==_iff i (suc n)).0 same) e in
      absurd (ground arith)
  | inr other ↦ ground arith
]

-- The search finds the highest member at or below the bound, if there is one.
pub lower-highest :
    (n : ℕ) (s : FdSet) (fd : ℕ)
    → n < fd_setsize
    → fd ≤ n
    → s fd ≡ true
    → (m : ℕ) × (lower n s ≡ ok m) × (s m ≡ true) × (m ≤ n) × ((i : ℕ) → i ≤ n → s i ≡ true → i ≤ m)
unfolding lower fd_isset
lower-highest zero s fd h le e =
    let none_below : fd ≡ 0 = omega arith in
    let zero_in : s 0 ≡ true = subst (λ x. s x ≡ true) none_below e in
    (0, rw zero_in, zero_in, omega arith, λ i hi si. hi)
lower-highest (suc n) s fd h le e = elim (Bool-cases (s (suc n))) [
  | inl here ↦ (suc n, rw (lt→ltb (suc n) fd_setsize h, here), here, omega arith, λ i hi si. hi)
  | inr there ↦
      let (m, found, in_set, le', highest) =
        lower-highest n s fd (omega arith) (member_below n fd s there le e) e in
      (
        m,
        rw (lt→ltb (suc n) fd_setsize h, there) found,
        in_set,
        omega arith,
        λ i hi si. highest i (member_below n i s there hi si) si,
      )
]
