-- ===== src/Tests/Net.antt =====
-- The network module with a handler that counts, and the theorems about it.
use ipc_project.Base.{
  ℕ, ◌+◌, ◌<◌, ◌≡◌, ◌⊎◌, refl, subst, Bool, true, false, none, some, List, [], fault, ◌∷◌, ok, pos,
  ℤ, arith, map,
}
use ipc_project.CLib.{calloc}
use ipc_project.Containers.Chain.{list_chain, list_chain-IsLawful}
use ipc_project.ServerNet.{GotMsg, Server, send_to_client}
use ipc_project.ServerNet.Descriptors.{add, fd_zero, put, count, one_if}
use ipc_project.ServerNet.Loop.{
  run_server, note, called, Loop, Round, Event, accepted, arrived, failed, run_round, run_rounds,
  before_loop, select_operation, refused, scan,
}
use ipc_project.ServerNet.Serving.{IsServing}
use ipc_project.ServerNet.Scan.{selected, run_round-IsServing}
use ipc_project.ServerNet.Visits.{Faulting}
use ipc_project.ServerNet.Shutdown.{closings}
use ipc_project.ServerNet.Rounds.{AsDocumented, run_server-closings}
use ipc_project.ServerNet.Starved.{with_high, run_rounds-starved}

-- Every message is counted and sent back.
abbrev echo : GotMsg ℕ
echo buffer size counter client = ok (counter + 1, send_to_client buffer (pos size) client)

abbrev server : Server list_chain ℕ ℤ
server = record {
  user_func_new_client = some (λ n. n);
  user_func_got_msg = some echo;
  user_func_fail_msg = none;
  user_func_close_client = some (λ n. n);
  clients = some [];
  contxt = 0;
  num_clients = 0;
  max_clients = 1020;
  port = 2021;
  listen_socket = 0;
  ip_type = pos 0;
  buff_size = 0;
  ip = some (calloc 4);
}

-- The socket 3 listens, and 5 is a connection.
abbrev loop : Loop list_chain ℕ ℤ
loop = record {
  master = put (put fd_zero 3 true) 5 true;
  working = fd_zero;
  max_sd = 5;
  client_counter = pos 1;
  end_server = false;
  buffer = calloc 100;
  clients = some (5 ∷ []);
  contxt = 0;
  events = [];
}

serving : IsServing list_chain list_chain-IsLawful ℕ ℤ 3 loop
unfolding fd_zero count
serving = record {
  listening = refl;
  highest = refl;
  bounded = λ i e. ground arith;
  in_set = omega arith;
  counted = (1, refl, refl);
  listed = (5 ∷ [], refl, (omega arith, tt));
}

-- A client comes, and the connection 5 sends two bytes.
abbrev both_ready : Round
both_ready = record {
  select = λ n s. record { rc = pos 2; ready = s };
  accept = accepted 6;
  for_socket = true;
  for_node = true;
  recv = λ i. arrived (7 ∷ 8 ∷ []);
}

six_is_new : (fd : ℕ) → both_ready.accept ≡ accepted fd → (0 < fd) × (loop.master fd ≡ false)
unfolding fd_zero
six_is_new fd e =
    let same : 6 ≡ fd = cc in
    subst (λ x. (0 < x) × (loop.master x ≡ false)) same (omega arith, refl)

run_round-IsServing_example :
    ((loop' : Loop list_chain ℕ ℤ) × (over : Bool) × (run_round list_chain ℕ ℤ server 3 both_ready
          loop
        ≡ ok (loop', over))
      × IsServing list_chain list_chain-IsLawful ℕ ℤ 3 loop')
    ⊎ ((run_round list_chain ℕ ℤ server 3 both_ready loop ≡ fault)
        × (ready : ℕ) × ((select_operation both_ready loop.working loop.master loop.max_sd).0
            ≡ pos ready)
        × Faulting list_chain ℕ ℤ 3 server both_ready list_chain-IsLawful echo
            (selected list_chain list_chain-IsLawful ℕ ℤ 3 server echo refl both_ready loop)
            ready)
unfolding fd_zero
run_round-IsServing_example =
    run_round-IsServing list_chain list_chain-IsLawful ℕ ℤ 3 server echo refl both_ready loop
      serving (λ i e. ground arith) six_is_new

-- The loop of a server that has just begun to listen, a round in which the connection 5 is taken, and
-- one in which nothing comes in time.
abbrev first_loop : Loop list_chain ℕ ℤ
first_loop = record loop {
  master = put fd_zero 3 true;
  max_sd = 3;
  client_counter = pos 0;
  clients = some [];
}

abbrev one_comes : Round
one_comes = record both_ready {
  select = λ n s. record { rc = pos 1; ready = put fd_zero 3 true };
  accept = accepted 5;
}

abbrev nothing_ready : Round
nothing_ready = record both_ready {
  select = λ n s. record { rc = pos 0; ready = fd_zero };
  accept = refused true;
}

abbrev last_loop : Loop list_chain ℕ ℤ
last_loop = record loop { events = called (pos 1) ∷ [] }

five_is_new : (fd : ℕ) → one_comes.accept ≡ accepted fd → (0 < fd) × (first_loop.master fd ≡ false)
unfolding fd_zero
five_is_new fd e =
    let same : 5 ≡ fd = cc in
    subst (λ x. (0 < x) × (first_loop.master x ≡ false)) same (omega arith, refl)

documented :
    AsDocumented list_chain list_chain-IsLawful ℕ ℤ 3 server
      (one_comes ∷ nothing_ready ∷ [])
      first_loop
unfolding fd_zero
documented = (
  λ i e. e,
  five_is_new,
  λ loop' ran. (λ i e. absurd (ground arith), λ fd e. absurd (ground arith), λ loop'' ran'. tt),
)

run_server-closings_example :
    (events : List (Event ℤ)) × (run_server list_chain ℕ ℤ server 3 fd_zero
        (calloc 100)
        (one_comes ∷ nothing_ready ∷ [])
      ≡ ok (note list_chain ℕ ℤ last_loop events, true))
    × ((j : ℕ) → closings events j ≡ one_if (last_loop.master j))
unfolding run_rounds before_loop add fd_zero scan
run_server-closings_example =
    run_server-closings list_chain list_chain-IsLawful ℕ ℤ 3 server echo refl [] fd_zero
      (calloc 100) (one_comes ∷ nothing_ready ∷ []) first_loop last_loop refl tt (omega arith) refl
      documented refl

run_rounds-starved_example :
    run_rounds list_chain ℕ ℤ server 3
      (map (with_high (λ i. failed)) (both_ready ∷ both_ready ∷ []))
      loop
    ≡ run_rounds list_chain ℕ ℤ server 3 (both_ready ∷ both_ready ∷ []) loop
unfolding fd_zero
run_rounds-starved_example =
    run_rounds-starved list_chain ℕ ℤ server 3 (λ i. failed) (both_ready ∷ both_ready ∷ []) loop
      (λ i e. absurd (ground arith)) (λ n s i e. e, (λ n s i e. e, tt))
