-- ===== src/ServerNet/Serving.antt =====
-- What holds of the loop of `RunServer` from round to round.
use ipc_project.Base.{
  ℕ, zero, suc, ◌+◌, ◌-◌, ◌≤◌, ◌<◌, ◌≡◌, ◌≢◌, ◌⊎◌, refl, sym, ◌∙◌, ap, true, false, Bool,
  Bool-cases, some, inl, inr, [], ◌∷◌, ◌++◌, All, All-append, pos, ltb, ◌==◌, ok, fault,
  if◌then◌else◌, lt→ltb, arith,
}
use ipc_project.Containers.Chain.{ListLib, IsLawful}
use ipc_project.ServerNet.{Server, accept_error}
use ipc_project.ServerNet.Descriptors.{
  FdSet, put, add, clear, fd_setsize, count, count-put-true, count-put-false, count_pos, put_mono,
  put_self, put_other, put-highest, put-bounded, cleared_cases,
}
use ipc_project.ServerNet.Loop.{
  Loop, note, Round, Accepted, refused, accepted, closed, report, take_connection, lower,
  close_connection, push_socket_to_list, decrement,
}
use ipc_project.ServerNet.Clean.{clean_my_list-kept, lower-highest}

Accepted-cases : (a : Accepted) → ((b : Bool) × (a ≡ refused b)) ⊎ ((fd : ℕ) × (a ≡ accepted fd))
Accepted-cases (refused b) = inl (b, refl)
Accepted-cases (accepted fd) = inr (fd, refl)

decrement_pos : (k : ℕ) → 0 < k → decrement (pos k) ≡ pos (k - 1)
decrement_pos zero h = elim h [ ]
decrement_pos (suc k) h = ap pos (omega arith)

-- What the system documents of `accept`: it gives a descriptor that is not in use. Descriptor 0 is
-- in use, as the standard input stays open.
abbrev pub AcceptsNew : Round → FdSet → Type 0
AcceptsNew round master = (fd : ℕ) → round.accept ≡ accepted fd → (0 < fd) × (master fd ≡ false)

module _ (K : ListLib) (H : IsLawful K) (C E : Type 0) (listen_sd : ℕ) where
  -- The master set holds the socket that listens and the connections; `max_sd` is its highest
  -- member, and the counter is the number of connections.
  pub record IsServing (loop : Loop K C E) : Type 0 where
    pub listening : loop.master listen_sd ≡ true
    pub highest : loop.master loop.max_sd ≡ true
    pub bounded : (i : ℕ) → loop.master i ≡ true → i ≤ loop.max_sd
    pub in_set : loop.max_sd < fd_setsize
    pub counted : (k : ℕ) × (loop.client_counter ≡ pos k) × (count fd_setsize loop.master ≡ suc k)
    pub listed : (list : K.Chain ℕ) × (loop.clients ≡ some list) × All (λ s. 0 < s) (K.items ℕ list)

  -- A socket that was accepted is listed, or the list stays as it is.
  push-positive :
      (for_socket for_node : Bool) (list : K.Chain ℕ) (fd : ℕ)
      → 0 < fd
      → All (λ s. 0 < s) (K.items ℕ list)
      → (list' : K.Chain ℕ) × (push_socket_to_list K for_socket for_node (some list) fd
          ≡ some list')
        × All (λ s. 0 < s) (K.items ℕ list')
  unfolding push_socket_to_list
  push-positive false for_node list fd h p = (list, refl, p)
  push-positive true false list fd h p = (list, rw (H.push_full ℕ list fd), p)
  push-positive true true list fd h p =
      let (list', pushed, items) = H.push_room ℕ list fd in
      (list', rw pushed, rw items (All-append (λ s. 0 < s) (K.items ℕ list) (fd ∷ []) p (h, tt)))

  module _ (server : Server K C E) where
    abbrev put_open : FdSet → ℕ → FdSet
    put_open s fd = put s fd true

    -- A connection that is taken.
    take_accepted :
        (round : Round) (loop : Loop K C E) (fd : ℕ)
        → IsServing loop
        → round.accept ≡ accepted fd
        → 0 < fd
        → fd < fd_setsize
        → loop.master fd ≡ false
        → (loop' : Loop K C E) × (take_connection K C E server round loop ≡ ok (loop', false))
          × IsServing loop'
          × ((i : ℕ) → loop.master i ≡ true → loop'.master i ≡ true)
          × (loop'.working ≡ loop.working)
    unfolding take_connection add
    take_accepted round loop fd v e pos_fd fd_in fresh =
        let (k, counter, number) = v.counted in
        let (list, present, positive) = v.listed in
        let (list', pushed, positive') =
          push-positive round.for_socket round.for_node list fd pos_fd positive in
        (
          record loop {
            master = put loop.master fd true;
            max_sd = if ltb loop.max_sd fd then fd else loop.max_sd;
            client_counter = pos (k + 1);
            clients = some list';
            events = loop.events ++ report server.user_func_new_client (pos (k + 1));
          },
          rw (e, take_connection, lt→ltb fd fd_setsize fd_in, present, pushed, counter) refl,
          record {
            listening = put_mono loop.master fd listen_sd v.listening;
            highest = put-highest loop.master fd loop.max_sd v.highest;
            bounded = λ i h. put-bounded loop.master fd loop.max_sd i (v.bounded i) h;
            in_set = ground arith;
            counted =
                (k + 1, refl, omega (arith, count-put-true fd_setsize loop.master fd fd_in fresh));
            listed = (list', refl, positive');
          },
          λ i h. put_mono loop.master fd i h,
          refl,
        )

    -- A connection that is taken, or not, or is beyond the end of the set.
    pub take_connection-IsServing :
        (round : Round) (loop : Loop K C E)
        → IsServing loop
        → AcceptsNew round loop.master
        → ((loop' : Loop K C E) × (over : Bool) × (take_connection K C E server round loop
              ≡ ok (loop', over))
            × IsServing loop'
            × ((i : ℕ) → loop.master i ≡ true → loop'.master i ≡ true)
            × (loop'.working ≡ loop.working))
          ⊎ ((take_connection K C E server round loop ≡ fault)
              × (fd : ℕ) × (round.accept ≡ accepted fd)
              × (fd_setsize ≤ fd))
    unfolding take_connection add
    take_connection-IsServing round loop v new = elim (Accepted-cases round.accept) [
      | inl (would_block, e) ↦ elim (Bool-cases would_block) [
        | inl waits ↦ inl (loop, true, rw (e, waits) refl, v, λ i h. h, refl)
        | inr fails ↦ inl (
          note K C E (record loop { end_server = true })
              (report server.user_func_fail_msg accept_error),
          true,
          rw (e, fails) refl,
          record {
            listening = v.listening;
            highest = v.highest;
            bounded = v.bounded;
            in_set = v.in_set;
            counted = v.counted;
            listed = v.listed;
          },
          λ i h. h,
          refl,
        )
      ]
      | inr (fd, e) ↦
          let (pos_fd, fresh) = new fd e in
          elim (Bool-cases (ltb fd fd_setsize)) [
            | inl fits ↦
                let (loop', ran, v', mono, same) =
                  take_accepted round loop fd v e pos_fd (ground arith) fresh in
                inl (loop', false, ran, v', mono, same)
            | inr beyond ↦ inr (rw (e, beyond) refl, fd, e, ground arith)
          ]
    ]

    -- The highest descriptor once one is gone.
    highest_left :
        (i : ℕ) (loop : Loop K C E)
        → IsServing loop
        → put loop.master i false listen_sd ≡ true
        → (m : ℕ) × ((if i == loop.max_sd
              then lower loop.max_sd (put loop.master i false)
              else ok loop.max_sd)
            ≡ ok m)
          × (put loop.master i false m ≡ true)
          × (m ≤ loop.max_sd)
          × ((j : ℕ) → put loop.master i false j ≡ true → j ≤ m)
    highest_left i loop v listening = elim (Bool-cases (i == loop.max_sd)) [
      | inl top ↦
          let (m, found, member, below, highest) =
            lower-highest loop.max_sd (put loop.master i false) listen_sd v.in_set
              (v.bounded listen_sd v.listening) listening in
          (
            m,
            rw top found,
            member,
            below,
            λ j h. highest j (v.bounded j (cleared_cases loop.master i j h).1) h,
          )
      | inr inner ↦ (
        loop.max_sd,
        rw inner refl,
        put_other loop.master i loop.max_sd false (ground arith) ∙ v.highest,
        omega arith,
        λ j h. v.bounded j (cleared_cases loop.master i j h).1,
      )
    ]

    -- A connection that is closed.
    pub close_connection-IsServing :
        (i : ℕ) (loop : Loop K C E)
        → IsServing loop
        → loop.master i ≡ true
        → i ≢ listen_sd
        → (loop' : Loop K C E) × (close_connection K C E server i loop ≡ ok loop')
          × IsServing loop'
          × (loop'.master i ≡ false)
    unfolding close_connection clear
    close_connection-IsServing i loop v open_i other =
        let (k, counter, number) = v.counted in
        let (list, present, positive) = v.listed in
        let cleared = put loop.master i false in
        let inside : i < fd_setsize = omega (arith, v.bounded i open_i, v.in_set) in
        let listening : cleared listen_sd ≡ true =
          put_other loop.master i listen_sd false (λ e. other (sym e)) ∙ v.listening in
        let (high, found, member, below, highest) = highest_left i loop v listening in
        let number' = count-put-false fd_setsize loop.master i inside open_i in
        let some_left =
          count_pos fd_setsize cleared listen_sd
            (omega (arith, v.bounded listen_sd v.listening, v.in_set)) listening in
        (
          record loop {
            master = cleared;
            max_sd = high;
            client_counter = pos (k - 1);
            clients = some list;
            events = loop.events ++ (closed i ∷ report server.user_func_close_client (pos k));
          },
          rw
              (
                lt→ltb i fd_setsize inside,
                present,
                clean_my_list-kept K H list positive,
                found,
                counter,
                decrement_pos k (omega arith),
              )
              refl,
          record {
            listening = listening;
            highest = member;
            bounded = highest;
            in_set = omega (arith, v.in_set);
            counted = (k - 1, refl, omega arith);
            listed = (list, refl, positive);
          },
          put_self loop.master i false,
        )
