-- ===== src/ServerNet/Scan.antt =====
-- A round of the loop of `RunServer`: the scan over the descriptors that are ready.
use ipc_project.Base.{
  ℕ, zero, suc, ◌+◌, ◌-◌, ◌≤◌, ◌≡◌, ◌≢◌, ◌⊎◌, refl, sym, ◌∙◌, subst, ap, true, false, Bool, ◌&&◌,
  ◌||◌, Bool-cases, some, inl, inr, ℤ, pos, negsuc, ltb, leb, ◌==◌, ==_iff, Exec-cases, ok, fault,
  lt→leb, arith,
}
use ipc_project.Containers.Chain.{ListLib, IsLawful}
use ipc_project.ServerNet.{Server, GotMsg}
use ipc_project.ServerNet.Descriptors.{FdSet, fd_setsize}
use ipc_project.ServerNet.Loop.{
  Loop, Round, to_size, received_rc, received_into, handed, is_negative, is_zero, copy_set, hand_on,
  serve, ready_at, scan, after_select, run_round, select_operation, select_result,
}
use ipc_project.ServerNet.Visits.{Visits, begins, skips, serves, FaultsAt, Faulting}
use ipc_project.ServerNet.Serving.{
  IsServing, AcceptsNew, take_connection-IsServing, close_connection-IsServing,
}

-- What the system documents of `select`: it reports only descriptors that are open.
abbrev pub SelectsOpen : (K : ListLib) (C E : Type 0) → Round → Loop K C E → Type 0
SelectsOpen K C E round loop =
    (i : ℕ)
    → (round.select (loop.max_sd + 1) (copy_set loop.working loop.master)).ready i ≡ true
    → loop.master i ≡ true

module _ (K : ListLib) (H : IsLawful K) (C E : Type 0) (listen_sd : ℕ) (server : Server K C E)
    (got_msg : GotMsg C) (has_handler : server.user_func_got_msg ≡ some got_msg) where
  -- What arrives is handed on, and the connections stay as they are.
  hand_on-IsServing :
      (round : Round) (i : ℕ) (loop : Loop K C E)
      → IsServing K H C E listen_sd loop
      → ((loop' : Loop K C E) × (hand_on K C E server round i loop ≡ ok loop')
          × IsServing K H C E listen_sd loop'
          × (loop'.master ≡ loop.master)
          × (loop'.working ≡ loop.working))
        ⊎ ((hand_on K C E server round i loop ≡ fault)
            × (got_msg
                  (received_into (round.recv i) loop.buffer)
                  (to_size (received_rc (round.recv i)))
                  loop.contxt
                  i
                ≡ fault))
  unfolding hand_on
  hand_on-IsServing round i loop v =
      let buffer = received_into (round.recv i) loop.buffer in
      let rc = received_rc (round.recv i) in
      elim (Exec-cases (got_msg buffer (to_size rc) loop.contxt i)) [
        | inl faulted ↦ inr (rw (has_handler, faulted) refl, faulted)
        | inr (r, ran) ↦ inl (
          handed K C E server (is_negative rc) buffer r.0 r.1 loop,
          rw (has_handler, ran) refl,
          record {
            listening = v.listening;
            highest = v.highest;
            bounded = v.bounded;
            in_set = v.in_set;
            counted = v.counted;
            listed = v.listed;
          },
          refl,
          refl,
        )
      ]

  -- A connection is served, or closed.
  serve-IsServing :
      (round : Round) (i : ℕ) (loop : Loop K C E)
      → IsServing K H C E listen_sd loop
      → loop.master i ≡ true
      → i ≢ listen_sd
      → ((loop' : Loop K C E) × (over : Bool) × (serve K C E server round i loop ≡ ok (loop', over))
          × IsServing K H C E listen_sd loop'
          × (over ≡ false → (loop'.master ≡ loop.master) × (loop'.working ≡ loop.working)))
        ⊎ ((serve K C E server round i loop ≡ fault)
            × (got_msg
                  (received_into (round.recv i) loop.buffer)
                  (to_size (received_rc (round.recv i)))
                  loop.contxt
                  i
                ≡ fault))
  unfolding serve
  serve-IsServing round i loop v open_i other =
      let rc = received_rc (round.recv i) in
      elim (hand_on-IsServing round i loop v) [
        | inr (ran, why) ↦ inr (rw ran refl, why)
        | inl (loop', ran, v', same_master, same_working) ↦
            elim (Bool-cases (is_negative rc || is_zero rc)) [
              | inl ends ↦
                  let open' : loop'.master i ≡ true = rw same_master open_i in
                  let (loop'', closed, v'', gone) =
                    close_connection-IsServing K H C E listen_sd server i loop' v' open' other in
                  inl (loop'', true, rw (ran, ends, closed) refl, v'', λ e. absurd (ground arith))
              | inr goes_on ↦
                  inl (loop', false, rw (ran, goes_on) refl, v', λ e. (same_master, same_working))
            ]
      ]

  -- What a descriptor that is ready leads to.
  ready_at-IsServing :
      (round : Round) (i : ℕ) (loop : Loop K C E)
      → IsServing K H C E listen_sd loop
      → loop.master i ≡ true
      → (i ≡ listen_sd → AcceptsNew round loop.master)
      → ((loop' : Loop K C E) × (over : Bool) × (ready_at K C E server round listen_sd i loop
            ≡ ok (loop', over))
          × IsServing K H C E listen_sd loop'
          × (over ≡ false
              → ((j : ℕ) → loop.master j ≡ true → loop'.master j ≡ true)
                × (loop'.working ≡ loop.working)
                × (i ≢ listen_sd → loop'.master ≡ loop.master)))
        ⊎ ((ready_at K C E server round listen_sd i loop ≡ fault)
            × FaultsAt K C E listen_sd server round got_msg i loop)
  unfolding ready_at
  ready_at-IsServing round i loop v open_i new = elim (Bool-cases (i == listen_sd)) [
    | inl listens ↦
        let same : i ≡ listen_sd = (==_iff i listen_sd).0 listens in
        elim (take_connection-IsServing K H C E listen_sd server round loop v (new same)) [
          | inl (loop', over, ran, v', mono, working) ↦
              inl (
                loop',
                over,
                rw listens ran,
                v',
                λ e. (mono, working, λ other. absurd (other same)),
              )
          | inr (ran, fd, e, beyond) ↦ inr (rw listens ran, inl (same, fd, e, beyond))
        ]
    | inr other ↦ elim (serve-IsServing round i loop v open_i (ground arith)) [
      | inr (ran, why) ↦ inr (rw other ran, inr (ground arith, why))
      | inl (loop', over, ran, v', same) ↦ inl (
        loop',
        over,
        rw other ran,
        v',
        λ e. (λ j h. ap (λ (s : FdSet). s j) (same e).0 ∙ h, (same e).1, λ x. (same e).0),
      )
    ]
  ]

  -- The scan from descriptor `i` on.
  scan-IsServing :
      (round : Round) (start : Loop K C E) (ready left i desc_ready : ℕ) (loop : Loop K C E)
      → i + left ≡ fd_setsize
      → Visits K C E listen_sd server round start ready i desc_ready loop
      → IsServing K H C E listen_sd loop
      → ((j : ℕ) → i ≤ j → loop.working j ≡ true → loop.master j ≡ true)
      → (i ≤ listen_sd → AcceptsNew round loop.master)
      → ((loop' : Loop K C E) × (scan K C E server round listen_sd left i desc_ready loop
            ≡ ok loop')
          × IsServing K H C E listen_sd loop')
        ⊎ ((scan K C E server round listen_sd left i desc_ready loop ≡ fault)
            × Faulting K C E listen_sd server round H got_msg start ready)
  unfolding scan
  scan-IsServing round start n zero i desc_ready loop end at v open_from new =
      inl (loop, rw (lt→leb i loop.max_sd (omega (arith, v.in_set))) refl, v)
  scan-IsServing round start n (suc left) i desc_ready loop end at v open_from new =
      elim (Bool-cases (leb i loop.max_sd && ltb 0 desc_ready)) [
        | inr stops ↦ inl (loop, rw stops refl, v)
        | inl goes_on ↦ elim (Bool-cases (loop.working i)) [
          | inr not_ready ↦
              elim (scan-IsServing round start n left (i + 1) desc_ready loop (omega arith)
                (skips at goes_on not_ready) v (λ j h. open_from j (omega arith))
                (λ h. new (omega arith))) [
                  | inl (loop', ran, v') ↦ inl (loop', rw (goes_on, not_ready) ran, v')
                  | inr (ran, why) ↦ inr (rw (goes_on, not_ready) ran, why)
                ]
          | inl ready ↦
              elim (ready_at-IsServing round i loop v (open_from i (omega arith) ready)
                (λ e. new (omega arith))) [
                  | inr (ran, why) ↦ inr (
                    rw (goes_on, ready, ran) refl,
                    record {
                      descriptor = i;
                      left = desc_ready;
                      state = loop;
                      visited = at;
                      in_range = goes_on;
                      is_ready = ready;
                      serving = v;
                      faults = why;
                    },
                  )
                  | inl (loop', over, ran, v', kept) ↦ elim (Bool-cases over) [
                    | inl stops ↦ inl (loop', rw (goes_on, ready, ran, stops) refl, v')
                    | inr more ↦
                        let (mono, working, same) = kept more in
                        elim (scan-IsServing round start n left (i + 1) (desc_ready - 1) loop'
                          (omega arith)
                          (serves at goes_on ready (ran ∙ ap (λ b. ok (loop', b)) more)) v'
                          (λ j h e.
                            mono j (
                              open_from j (omega arith)
                                (ap (λ (s : FdSet). s j) (sym working) ∙ e)))
                          (λ h.
                            subst (AcceptsNew round) (sym (same (omega arith)))
                              (new (omega arith)))) [
                                | inl (loop'', ran'', v'') ↦
                                    inl (loop'', rw (goes_on, ready, ran, more) ran'', v'')
                                | inr (ran'', why) ↦ inr (rw (goes_on, ready, ran, more) ran'', why)
                              ]
                  ]
                ]
        ]
      ]

  after_select-IsServing :
      (round : Round) (rc : ℤ) (loop : Loop K C E)
      → IsServing K H C E listen_sd loop
      → ((j : ℕ) → loop.working j ≡ true → loop.master j ≡ true)
      → AcceptsNew round loop.master
      → ((loop' : Loop K C E) × (over : Bool) × (after_select K C E server listen_sd round rc loop
            ≡ ok (loop', over))
          × IsServing K H C E listen_sd loop')
        ⊎ ((after_select K C E server listen_sd round rc loop ≡ fault)
            × (ready : ℕ) × (rc ≡ pos ready)
            × Faulting K C E listen_sd server round H got_msg loop ready)
  unfolding after_select
  after_select-IsServing round (negsuc n) loop v selects new = inl (loop, true, refl, v)
  after_select-IsServing round (pos n) loop v selects new =
      elim (scan-IsServing round loop n fd_setsize 0 n loop refl begins v (λ j h. selects j)
        (λ h. new)) [
          | inl (loop', ran, v') ↦ inl (loop', loop'.end_server, rw ran refl, v')
          | inr (ran, why) ↦ inr (rw ran refl, n, refl, why)
        ]

  -- The loop once `select` has reported what is ready.
  abbrev pub selected : Round → Loop K C E → Loop K C E
  selected round loop = record loop {
    working = (select_operation round loop.working loop.master loop.max_sd).1;
  }

  -- Between two rounds of the server's loop the master set holds the listening socket and the
  -- connections, its highest member is known and within the set, and the counter is the number
  -- of connections. A round keeps this or faults, and it faults only at a descriptor that its scan
  -- comes to and that is ready: at the listening socket, where `accept` gives a descriptor of 1024
  -- or more, which no set can hold, or at a connection, where the handler faults on the buffer
  -- with what `recv` has just put into it, the size, and the context at that time. The server has a
  -- handler, `select` reports only open descriptors, and `accept` gives one that is not in use,
  -- which is not 0, as the standard input stays open.
  pub run_round-IsServing :
      (round : Round) (loop : Loop K C E)
      → IsServing K H C E listen_sd loop
      → SelectsOpen K C E round loop
      → AcceptsNew round loop.master
      → ((loop' : Loop K C E) × (over : Bool) × (run_round K C E server listen_sd round loop
            ≡ ok (loop', over))
          × IsServing K H C E listen_sd loop')
        ⊎ ((run_round K C E server listen_sd round loop ≡ fault)
            × (ready : ℕ) × ((select_operation round loop.working loop.master loop.max_sd).0
                ≡ pos ready)
            × Faulting K C E listen_sd server round H got_msg (selected round loop) ready)
  unfolding run_round select_operation
  run_round-IsServing round loop v selects new =
      let v' : IsServing K H C E listen_sd (selected round loop) = record {
        listening = v.listening;
        highest = v.highest;
        bounded = v.bounded;
        in_set = v.in_set;
        counted = v.counted;
        listed = v.listed;
      } in
      let rc = (round.select (loop.max_sd + 1) (copy_set loop.working loop.master)).rc in
      after_select-IsServing round (select_result rc) (selected round loop) v' (λ j h. selects j h)
        new
