-- ===== src/ServerNet/Rounds.antt =====
-- `RunServer` over the rounds that happen.
use ipc_project.Base.{
  ◌∷◌, Bool-cases, Exec-cases, ℕ, zero, suc, ◌+◌, ◌≤◌, ◌<◌, ◌≡◌, refl, ap, subst, ◌∙◌, true, false,
  Bool, List, some, inl, inr, [], All, pos, ok, lt→ltb, arith,
}
use ipc_project.CLib.{Block}
use ipc_project.Containers.Chain.{ListLib, IsLawful}
use ipc_project.ServerNet.{Server, GotMsg}
use ipc_project.ServerNet.Descriptors.{
  FdSet, one_if, add, fd_zero, put, put_self, fd_setsize, count, count-put-true,
}
use ipc_project.ServerNet.Loop.{
  Loop, note, Round, Event, before_loop, run_round, run_rounds, run_server,
}
use ipc_project.ServerNet.Shutdown.{closings, close_all-closings}
use ipc_project.ServerNet.Serving.{IsServing, AcceptsNew}
use ipc_project.ServerNet.Scan.{SelectsOpen, run_round-IsServing}

count-zero : (n : ℕ) → count n fd_zero ≡ 0
unfolding count fd_zero
count-zero zero = refl
count-zero (suc n) = omega (arith, count-zero n)

only_listener : (listen_sd i : ℕ) → put fd_zero listen_sd true i ≡ true → i ≤ listen_sd
unfolding fd_zero
only_listener listen_sd i e = ground arith

one_member :
    (listen_sd : ℕ) → listen_sd < fd_setsize → count fd_setsize (put fd_zero listen_sd true) ≡ 1
unfolding fd_zero
one_member listen_sd inside =
    count-put-true fd_setsize fd_zero listen_sd inside refl
    ∙ ap (λ n. n + 1) (count-zero fd_setsize)

module _ (K : ListLib) (H : IsLawful K) (C E : Type 0) (listen_sd : ℕ) (server : Server K C E) where
  -- Before the first round.
  before_loop-IsServing :
      (list : K.Chain ℕ) (working : FdSet) (buffer : Block)
      → server.clients ≡ some list
      → All (λ s. 0 < s) (K.items ℕ list)
      → listen_sd < fd_setsize
      → (loop : Loop K C E) × (before_loop K C E server listen_sd working buffer ≡ ok loop)
        × IsServing K H C E listen_sd loop
  unfolding before_loop add
  before_loop-IsServing list working buffer has_list positive inside = (
    record {
      master = put fd_zero listen_sd true;
      working = working;
      max_sd = listen_sd;
      client_counter = pos 0;
      end_server = false;
      buffer = buffer;
      clients = server.clients;
      contxt = server.contxt;
      events = [];
    },
    rw (lt→ltb listen_sd fd_setsize inside) refl,
    record {
      listening = put_self fd_zero listen_sd true;
      highest = put_self fd_zero listen_sd true;
      bounded = λ i e. only_listener listen_sd i e;
      in_set = inside;
      counted = (0, refl, one_member listen_sd inside);
      listed = (list, has_list, positive);
    },
  )

  -- The calls of the system behave as documented in each of the rounds that happen.
  abbrev pub AsDocumented : List Round → Loop K C E → Type 0
  AsDocumented [] loop = Unit {0}
  AsDocumented (round ∷ rounds) loop =
      SelectsOpen K C E round loop
      × AcceptsNew round loop.master
      × ((loop' : Loop K C E)
          → run_round K C E server listen_sd round loop ≡ ok (loop', false)
          → AsDocumented rounds loop')

  module _ (got_msg : GotMsg C) (has_handler : server.user_func_got_msg ≡ some got_msg) where
    -- A round that ends with no fault.
    run-IsServing :
        (round : Round) (loop : Loop K C E) {loop' : Loop K C E} {over : Bool}
        → IsServing K H C E listen_sd loop
        → SelectsOpen K C E round loop
        → AcceptsNew round loop.master
        → run_round K C E server listen_sd round loop ≡ ok (loop', over)
        → IsServing K H C E listen_sd loop'
    run-IsServing round loop v selects new e =
        elim (run_round-IsServing K H C E listen_sd server got_msg has_handler round loop v selects
          new) [
            | inl (found, over, ran, v') ↦ subst (IsServing K H C E listen_sd) (cc) v'
            | inr (faulted, ready, some_ready, why) ↦ absurd (ground arith)
          ]

    run_rounds-IsServing :
        (rounds : List Round) (loop : Loop K C E) {loop' : Loop K C E} {over : Bool}
        → IsServing K H C E listen_sd loop
        → AsDocumented rounds loop
        → run_rounds K C E server listen_sd rounds loop ≡ ok (loop', over)
        → IsServing K H C E listen_sd loop'
    unfolding run_rounds
    run_rounds-IsServing [] loop v documented e = subst (IsServing K H C E listen_sd) (cc) v
    run_rounds-IsServing (round ∷ rounds) loop v (selects, new, later) e =
        elim (Exec-cases (run_round K C E server listen_sd round loop)) [
          | inl faulted ↦ let e' = rw (faulted) at e in absurd (ground arith)
          | inr ((between, over), ran) ↦
              let v' = run-IsServing round loop v selects new ran in
              elim (Bool-cases over) [
                | inl stops ↦
                    let e' = rw (ran, stops) at e in subst (IsServing K H C E listen_sd) (cc) v'
                | inr more ↦
                    run_rounds-IsServing rounds between v'
                      (later between (ran ∙ ap (λ b. ok (between, b)) more)) (rw (ran, more) at e)
              ]
        ]

    -- When the loop of `RunServer` has ended, after any rounds in which `select` reports only open
    -- descriptors and `accept` gives one that is not in use and not 0, `RunServer` returns with no
    -- fault, and has then closed every descriptor of the master set once, and no other. The server
    -- has a handler and a list of sockets with positive numbers, and its listening socket is below
    -- the size of a set, 1024.
    pub run_server-closings :
        (list : K.Chain ℕ) (working : FdSet) (buffer : Block) (rounds : List Round)
        (start ended : Loop K C E)
        → server.clients ≡ some list
        → All (λ s. 0 < s) (K.items ℕ list)
        → listen_sd < fd_setsize
        → before_loop K C E server listen_sd working buffer ≡ ok start
        → AsDocumented rounds start
        → run_rounds K C E server listen_sd rounds start ≡ ok (ended, true)
        → (events : List (Event E)) × (run_server K C E server listen_sd working buffer rounds
            ≡ ok (note K C E ended events, true))
          × ((j : ℕ) → closings events j ≡ one_if (ended.master j))
    unfolding run_server
    run_server-closings list working buffer rounds start ended has_list positive inside begins
          documented ends =
        let (first, ran, v) = before_loop-IsServing list working buffer has_list positive inside in
        let v' : IsServing K H C E listen_sd start = subst (IsServing K H C E listen_sd) (cc) v in
        let (events, closed_all, each) =
          close_all-closings K C E H listen_sd ended
            (run_rounds-IsServing rounds start v' documented ends) in
        (events, rw (begins, ends, closed_all) refl, each)
