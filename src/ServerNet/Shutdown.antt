-- ===== src/ServerNet/Shutdown.antt =====
-- The end of `RunServer`.
use ipc_project.Base.{
  ℕ, zero, suc, ◌+◌, ◌≤◌, ◌≡◌, refl, Bool-cases, ap, ==_iff, inl, inr, List, [], ◌∷◌, ltb, leb,
  ◌&&◌, ◌==◌, ok, if◌then◌else◌, lt→ltb, arith,
}
use ipc_project.Containers.Chain.{ListLib, IsLawful}
use ipc_project.ServerNet.Descriptors.{FdSet, fd_isset, fd_setsize, one_if}
use ipc_project.ServerNet.Loop.{Loop, Event, called, sent, closed, close_from, close_all}
use ipc_project.ServerNet.Serving.{IsServing}

-- How often a connection is closed.
abbrev pub closings : {E : Type 0} → List (Event E) → ℕ → ℕ
closings [] j = 0
closings (called e ∷ events) j = closings events j
closings (sent m ∷ events) j = closings events j
closings (closed i ∷ events) j = (if i == j then 1 else 0) + closings events j

-- One more descriptor in a range of which each member is counted once.
range_more :
    (master : FdSet) (i left j n : ℕ)
    → n ≡ (if leb (i + 1) j && ltb j (i + 1 + left) then one_if (master j) else 0)
    → (if i == j then one_if (master i) else 0) + n
      ≡ (if leb i j && ltb j (i + suc left) then one_if (master j) else 0)
range_more master i left j n e = elim (Bool-cases (i == j)) [
  | inl same ↦
      let here : one_if (master i) ≡ one_if (master j) =
        ap (λ x. one_if (master x)) ((==_iff i j).0 same) in
      ground (arith, here)
  | inr other ↦ ground arith
]

module _ (K : ListLib) (C E : Type 0) where
  close_from_lem :
      (left i : ℕ) (master : FdSet)
      → i + left ≤ fd_setsize
      → (events : List (Event E)) × (close_from K C E left i master ≡ ok events)
        × ((j : ℕ)
            → closings events j ≡ (if leb i j && ltb j (i + left) then one_if (master j) else 0))
  unfolding close_from fd_isset
  close_from_lem zero i master h = ([], refl, λ j. ground arith)
  close_from_lem (suc left) i master h =
      let (events, ran, each) = close_from_lem left (i + 1) master (omega arith) in
      elim (Bool-cases (master i)) [
        | inl open_i ↦ (
          closed i ∷ events,
          rw (lt→ltb i fd_setsize (omega arith), ran, open_i) refl,
          λ j.
              let one : one_if (master i) ≡ 1 = ap one_if open_i in
              ground (arith, one, range_more master i left j (closings events j) (each j)),
        )
        | inr shut ↦ (
          events,
          rw (lt→ltb i fd_setsize (omega arith), ran, shut) refl,
          λ j.
              let nothing : one_if (master i) ≡ 0 = ap one_if shut in
              ground (arith, nothing, range_more master i left j (closings events j) (each j)),
        )
      ]

  module _ (H : IsLawful K) (listen_sd : ℕ) where
    -- Every descriptor of the master set is closed, once, and no other is.
    pub close_all-closings :
        (loop : Loop K C E)
        → IsServing K H C E listen_sd loop
        → (events : List (Event E)) × (close_all K C E loop.max_sd loop.master ≡ ok events)
          × ((j : ℕ) → closings events j ≡ one_if (loop.master j))
    unfolding close_all
    close_all-closings loop v =
        let (events, ran, each) =
          close_from_lem (loop.max_sd + 1) 0 loop.master (omega (arith, v.in_set)) in
        (
          events,
          ran,
          λ j. elim (Bool-cases (loop.master j)) [
            | inl member ↦ ground (arith, each j, v.bounded j member)
            | inr other ↦ ground (arith, each j)
          ],
        )
