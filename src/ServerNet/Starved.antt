-- ===== src/ServerNet/Starved.antt =====
-- Connections that `select` is never asked about: `SelectOperation` copies eight bytes of the set.
use ipc_project.Base.{
  ℕ, zero, suc, ◌+◌, ◌-◌, ◌<◌, ◌≡◌, refl, ◌∙◌, true, Bool, ◌&&◌, Bool-cases, inl, inr, List, [],
  ◌∷◌, map, ℤ, pos, negsuc, ltb, leb, ◌==◌, All, Exec-cases, ok, if◌then◌else◌, lt→ltb, arith,
}
use ipc_project.Containers.Chain.{ListLib}
use ipc_project.ServerNet.{Server}
use ipc_project.ServerNet.Descriptors.{FdSet, fd_setsize}
use ipc_project.ServerNet.Loop.{
  Loop, Round, Received, copy_set, take_connection, hand_on, serve, close_connection, ready_at,
  scan, after_select, run_round, run_rounds, select_operation, select_result,
}

-- What the system documents of `select`: it reports only descriptors that it was asked about.
abbrev pub SelectsAsked : Round → Type 0
SelectsAsked round = (n : ℕ) (s : FdSet) (i : ℕ) → (round.select n s).ready i ≡ true → s i ≡ true

-- No descriptor from the 65th on.
abbrev pub IsLow : FdSet → Type 0
IsLow s = (i : ℕ) → s i ≡ true → i < 64

-- The same round, but for what arrives on the connections from the 65th descriptor on.
abbrev pub with_high : (ℕ → Received) → Round → Round
with_high other round = record round { recv = λ i. if ltb i 64 then round.recv i else other i }

module _ (K : ListLib) (C E : Type 0) (server : Server K C E) (listen_sd : ℕ)
    (other : ℕ → Received) where
  -- A descriptor that is ready leaves the working set as it is.
  take_connection-working :
      (round : Round) (loop : Loop K C E) {loop' : Loop K C E} {over : Bool}
      → take_connection K C E server round loop ≡ ok (loop', over)
      → loop'.working ≡ loop.working
  unfolding take_connection
  take_connection-working round loop e = ground arith

  close_connection-working :
      (i : ℕ) (loop : Loop K C E) {loop' : Loop K C E}
      → close_connection K C E server i loop ≡ ok loop'
      → loop'.working ≡ loop.working
  unfolding close_connection
  close_connection-working i loop e = ground arith

  hand_on-working :
      (round : Round) (i : ℕ) (loop : Loop K C E) {loop' : Loop K C E}
      → hand_on K C E server round i loop ≡ ok loop'
      → loop'.working ≡ loop.working
  unfolding hand_on
  hand_on-working round i loop e = ground arith

  serve-working :
      (round : Round) (i : ℕ) (loop : Loop K C E) {loop' : Loop K C E} {over : Bool}
      → serve K C E server round i loop ≡ ok (loop', over)
      → loop'.working ≡ loop.working
  unfolding serve
  serve-working round i loop e = elim (Exec-cases (hand_on K C E server round i loop)) [
    | inl faulted ↦ absurd (ground arith)
    | inr (handed, ran) ↦ elim (Exec-cases (close_connection K C E server i handed)) [
      | inl faulted ↦ ground (arith, hand_on-working round i loop ran)
      | inr (final, closed) ↦
          ground (arith, hand_on-working round i loop ran, close_connection-working i handed closed)
    ]
  ]

  ready_at-working :
      (round : Round) (i : ℕ) (loop : Loop K C E) {loop' : Loop K C E} {over : Bool}
      → ready_at K C E server round listen_sd i loop ≡ ok (loop', over)
      → loop'.working ≡ loop.working
  unfolding ready_at
  ready_at-working round i loop e = elim (Bool-cases (i == listen_sd)) [
    | inl listens ↦ take_connection-working round loop (rw (listens) at e)
    | inr connection ↦ serve-working round i loop (rw (connection) at e)
  ]

  ready_at-same :
      (round : Round) (i : ℕ) (loop : Loop K C E)
      → i < 64
      → ready_at K C E server (with_high other round) listen_sd i loop
        ≡ ready_at K C E server round listen_sd i loop
  unfolding ready_at serve hand_on take_connection
  ready_at-same round i loop low = rw (lt→ltb i 64 low)

  scan-same :
      (round : Round) (left i desc_ready : ℕ) (loop : Loop K C E)
      → IsLow loop.working
      → scan K C E server (with_high other round) listen_sd left i desc_ready loop
        ≡ scan K C E server round listen_sd left i desc_ready loop
  unfolding scan
  scan-same round zero i desc_ready loop low = refl
  scan-same round (suc left) i desc_ready loop low = elim (Bool-cases (loop.working i)) [
    | inr not_ready ↦ rw (not_ready, scan-same round left (i + 1) desc_ready loop low)
    | inl ready ↦ elim (Exec-cases (ready_at K C E server round listen_sd i loop)) [
      | inl faulted ↦ rw (ready, ready_at-same round i loop (low i ready), faulted)
      | inr ((loop', over), ran) ↦
          let low' : IsLow loop'.working = rw (ready_at-working round i loop ran) low in
          rw (
            ready,
            ready_at-same round i loop (low i ready),
            ran,
            scan-same round left (i + 1) (desc_ready - 1) loop' low',
          )
    ]
  ]

  scan-working :
      (round : Round) (left i desc_ready : ℕ) (loop : Loop K C E) {loop' : Loop K C E}
      → scan K C E server round listen_sd left i desc_ready loop ≡ ok loop'
      → loop'.working ≡ loop.working
  unfolding scan
  scan-working round zero i desc_ready loop e = ground arith
  scan-working round (suc left) i desc_ready loop e =
      elim (Bool-cases (leb i loop.max_sd && ltb 0 desc_ready)) [
        | inr stops ↦ let e' = rw (stops) at e in cc
        | inl goes_on ↦ elim (Bool-cases (loop.working i)) [
          | inr not_ready ↦
              scan-working round left (i + 1) desc_ready loop (rw (goes_on, not_ready) at e)
          | inl ready ↦ elim (Exec-cases (ready_at K C E server round listen_sd i loop)) [
            | inl faulted ↦ let e' = rw (goes_on, ready, faulted) at e in absurd (ground arith)
            | inr ((between, over), ran) ↦ elim (Bool-cases over) [
              | inl stops ↦
                  let e' = rw (goes_on, ready, ran, stops) at e in
                  ground (arith, ready_at-working round i loop ran)
              | inr more ↦
                  scan-working round left (i + 1) (desc_ready - 1) between
                    (rw (goes_on, ready, ran, more) at e)
                  ∙ ready_at-working round i loop ran
            ]
          ]
        ]
      ]

  after_select-same :
      (round : Round) (rc : ℤ) (loop : Loop K C E)
      → IsLow loop.working
      → after_select K C E server listen_sd (with_high other round) rc loop
        ≡ after_select K C E server listen_sd round rc loop
  unfolding after_select
  after_select-same round (negsuc n) loop low = refl
  after_select-same round (pos n) loop low = rw (scan-same round fd_setsize 0 n loop low)

  after_select-working :
      (round : Round) (rc : ℤ) (loop : Loop K C E) {loop' : Loop K C E} {over : Bool}
      → after_select K C E server listen_sd round rc loop ≡ ok (loop', over)
      → loop'.working ≡ loop.working
  unfolding after_select
  after_select-working round (negsuc n) loop e = ground arith
  after_select-working round (pos n) loop e =
      elim (Exec-cases (scan K C E server round listen_sd fd_setsize 0 n loop)) [
        | inl faulted ↦ absurd (ground arith)
        | inr (final, ran) ↦ ground (arith, scan-working round fd_setsize 0 n loop ran)
      ]

  asked-IsLow :
      (round : Round) (loop : Loop K C E)
      → SelectsAsked round
      → IsLow loop.working
      → IsLow (round.select (loop.max_sd + 1) (copy_set loop.working loop.master)).ready
  asked-IsLow round loop asked low i e =
      let asked_about = asked (loop.max_sd + 1) (copy_set loop.working loop.master) i e in
      elim (Bool-cases (ltb i 64)) [
        | inl inside ↦ ground arith
        | inr beyond ↦ low i (rw (beyond) at asked_about)
      ]

  -- What arrives on a connection whose descriptor is 64 or more is never read: whatever it is,
  -- the rounds of the server come to the same. The working set has no such descriptor at the
  -- start, and `select` reports only descriptors that it was asked about.
  pub run_rounds-starved :
      (rounds : List Round) (loop : Loop K C E)
      → IsLow loop.working
      → All SelectsAsked rounds
      → run_rounds K C E server listen_sd (map (with_high other) rounds) loop
        ≡ run_rounds K C E server listen_sd rounds loop
  unfolding run_rounds run_round select_operation
  run_rounds-starved [] loop low asked = refl
  run_rounds-starved (round ∷ rounds) loop low asked =
      let selected = round.select (loop.max_sd + 1) (copy_set loop.working loop.master) in
      let loop' : Loop K C E = record loop { working = selected.ready } in
      let low' = asked-IsLow round loop asked.0 low in
      let rc = select_result selected.rc in
      elim (Exec-cases (after_select K C E server listen_sd round rc loop')) [
        | inl faulted ↦ rw (after_select-same round rc loop' low', faulted)
        | inr ((loop'', over), ran) ↦
            let low'' : IsLow loop''.working = rw (after_select-working round rc loop' ran) low' in
            rw (
              after_select-same round rc loop' low',
              ran,
              run_rounds-starved rounds loop'' low'' asked.1,
            )
      ]
