-- ===== src/ServerNet/Loop.antt =====
-- `RunServer` of server_net.c, with `SelectOperation` and `CleanMyList`.
--
-- A round of the loop is a call of `select` and what follows it. What the calls of the system come to
-- in a round is an argument: `select` as a function of what it is given, and the outcome of `accept`
-- and, for each descriptor, of `recv`, each of which happens at most once in a round.
pub mod Calls
pub use ipc_project.ServerNet.Loop.Calls.{
  copied, Selected, Accepted, refused, accepted, Received, failed, arrived, Round, copy_set,
  received_rc, received_into, to_size, is_negative, is_zero, increment, decrement, Event, called,
  sent, closed, report, report_if,
}
unfoldable pub use ipc_project.ServerNet.Loop.Calls.{select_result, select_operation, lower}
use ipc_project.Base.{
  ℕ, zero, suc, ◌+◌, ◌-◌, ◌^◌, ℤ, pos, negsuc, Bool, true, false, not, ◌&&◌, ◌||◌, Option, none,
  some, List, [], ◌∷◌, ◌++◌, map, length, take, drop, ltb, leb, ◌==◌, if◌then◌else◌, Exec, ok,
  fault, ◌>>=◌, or_fault,
}
use ipc_project.CLib.{Block}
use ipc_project.Containers.Chain.{ListLib}
use ipc_project.ServerNet.{Server, Sending, accept_error, recv_error, send_error, buffer_size}
use ipc_project.ServerNet.Descriptors.{FdSet, fd_zero, fd_isset, add, clear, fd_setsize}

module _ (K : ListLib) where
  -- The loop of `CleanMyList`. A node that was removed is freed, and `ListItrNext` reads it.
  unfoldable pub clean_from : ℕ → K.Chain ℕ → K.Itr → Exec (K.Chain ℕ)
  clean_from zero list begin = fault
  clean_from (suc fuel) list begin =
      let rest = clean_from fuel list (K.next ℕ list begin) in
      if not (K.same begin (K.end ℕ list)) && not (K.same (K.next ℕ list begin) begin)
      then (do socket ← or_fault (K.get ℕ list begin); if leb socket 0 then fault else rest)
      else ok list

  -- One round for each element and one for the end.
  unfoldable pub clean_my_list : K.Chain ℕ → Exec (K.Chain ℕ)
  unfolding clean_from
  clean_my_list list = clean_from (length (K.items ℕ list) + 1) list (K.first ℕ list)

  -- `NewSocket` and `PushSocketToList`, which does nothing with a NULL.
  unfoldable pub push_socket_to_list : Bool → Bool → Option (K.Chain ℕ) → ℕ → Option (K.Chain ℕ)
  push_socket_to_list for_socket for_node none socket = none
  push_socket_to_list for_socket for_node (some list) socket =
      if for_socket then some (K.push_tail ℕ for_node list socket).1 else some list

module _ (K : ListLib) (C E : Type 0) where
  -- The variables of `RunServer` that live from round to round, the members of the server that
  -- change, and what was made known.
  pub record Loop : Type 0 where
    pub master : FdSet
    pub working : FdSet
    pub max_sd : ℕ
    pub client_counter : ℤ
    pub end_server : Bool
    pub buffer : Block
    pub clients : Option (K.Chain ℕ)
    pub contxt : C
    pub events : List (Event E)

  abbrev pub note : Loop → List (Event E) → Loop
  note loop more = record loop { events = loop.events ++ more }

  -- The listening socket is ready. The result says whether the scan is over.
  unfoldable pub take_connection : Server K C E → Round → Loop → Exec (Loop × Bool)
  unfolding add push_socket_to_list
  take_connection server round loop = elim round.accept [
    | refused would_block ↦ ok (
      (if would_block
          then loop
          else note (record loop { end_server = true })
              (report server.user_func_fail_msg accept_error)),
      true,
    )
    | accepted fd ↦ (do
      master ← add fd loop.master
      let counter = increment loop.client_counter
      ok (
        record loop {
          master = master;
          max_sd = if ltb loop.max_sd fd then fd else loop.max_sd;
          client_counter = counter;
          clients = push_socket_to_list K round.for_socket round.for_node loop.clients fd;
          events = loop.events ++ report server.user_func_new_client counter;
        },
        false,
      ))
  ]

  -- `if (closeConnection)`. What an iterator of a NULL list is, is not documented: a fault.
  unfoldable pub close_connection : Server K C E → ℕ → Loop → Exec Loop
  unfolding clear
  close_connection server i loop = do
    master ← clear i loop.master
    list ← or_fault loop.clients
    list ← clean_my_list K list
    max_sd ← (if i == loop.max_sd then lower loop.max_sd master else ok loop.max_sd)
    ok (record loop {
      master = master;
      max_sd = max_sd;
      client_counter = decrement loop.client_counter;
      clients = some list;
      events = loop.events ++ (closed i ∷ report server.user_func_close_client loop.client_counter);
    })

  -- After the handler: the buffer, the context, and what was sent and reported.
  abbrev pub handed : Server K C E → Bool → Block → C → List Sending → Loop → Loop
  handed server bad buffer contxt messages loop = record loop {
    buffer = buffer;
    contxt = contxt;
    events =
        loop.events
        ++ (report_if bad server.user_func_fail_msg recv_error
            ++ (map sent messages ++ report_if bad server.user_func_fail_msg send_error));
  }

  -- What `recv` gives is handed to the application, whatever it is.
  unfoldable pub hand_on : Server K C E → Round → ℕ → Loop → Exec Loop
  hand_on server round i loop = do
    let rc = received_rc (round.recv i)
    let buffer = received_into (round.recv i) loop.buffer
    got_msg ← or_fault server.user_func_got_msg
    (contxt, messages) ← got_msg buffer (to_size rc) loop.contxt i
    ok (handed server (is_negative rc) buffer contxt messages loop)

  unfoldable pub serve : Server K C E → Round → ℕ → Loop → Exec (Loop × Bool)
  unfolding hand_on close_connection
  serve server round i loop = do
    let rc = received_rc (round.recv i)
    loop ← hand_on server round i loop
    if is_negative rc || is_zero rc
        then (close_connection server i loop >>= λ loop. ok (loop, true))
        else ok (loop, false)

  -- The body of the scan for a descriptor that is ready.
  unfoldable pub ready_at : Server K C E → Round → ℕ → ℕ → Loop → Exec (Loop × Bool)
  unfolding take_connection serve
  ready_at server round listen_sd i loop =
      if i == listen_sd then take_connection server round loop else serve server round i loop

  -- The scan from descriptor `i` on, with `left` descriptors up to the end of the set. At the end
  -- `FD_ISSET` would read beyond it.
  unfoldable pub scan : Server K C E → Round → ℕ → ℕ → ℕ → ℕ → Loop → Exec Loop
  unfolding ready_at
  scan server round listen_sd zero i desc_ready loop =
      if leb i loop.max_sd && ltb 0 desc_ready then fault else ok loop
  scan server round listen_sd (suc left) i desc_ready loop =
      let skip = scan server round listen_sd left (i + 1) desc_ready loop in
      if leb i loop.max_sd && ltb 0 desc_ready
      then if loop.working i
        then (do
          (loop', over) ← ready_at server round listen_sd i loop
          let rest = scan server round listen_sd left (i + 1) (desc_ready - 1) loop'
          if over then ok loop' else rest)
        else skip
      else ok loop

  -- What follows `select`, given what it returned. The flag says that the loop ends, by the `break`
  -- or by its condition, `endServer == FALSE || gFlag != ACTIVE`, where `gFlag` is always ACTIVE.
  unfoldable pub after_select : Server K C E → ℕ → Round → ℤ → Loop → Exec (Loop × Bool)
  after_select server listen_sd round (negsuc n) loop = ok (loop, true)
  after_select server listen_sd round (pos n) loop = do
    loop ← scan server round listen_sd fd_setsize 0 n loop
    ok (loop, loop.end_server)

  unfoldable pub run_round : Server K C E → ℕ → Round → Loop → Exec (Loop × Bool)
  unfolding select_operation after_select
  run_round server listen_sd round loop =
      let (rc, ready) = select_operation round loop.working loop.master loop.max_sd in
      after_select server listen_sd round rc (record loop { working = ready })

  -- The loop over the rounds that happen; the flag says whether it has ended.
  unfoldable pub run_rounds : Server K C E → ℕ → List Round → Loop → Exec (Loop × Bool)
  unfolding run_round
  run_rounds server listen_sd [] loop = ok (loop, false)
  run_rounds server listen_sd (round ∷ rounds) loop = do
    (loop', over) ← run_round server listen_sd round loop
    let rest = run_rounds server listen_sd rounds loop'
    if over then ok (loop', true) else rest

  -- Before the loop. The working set and the buffer hold what they happen to hold.
  unfoldable pub before_loop : Server K C E → ℕ → FdSet → Block → Exec Loop
  unfolding add fd_zero
  before_loop server listen_sd working buffer = do
    master ← add listen_sd fd_zero
    ok (record {
      master = master;
      working = working;
      max_sd = listen_sd;
      client_counter = pos 0;
      end_server = false;
      buffer = buffer;
      clients = server.clients;
      contxt = server.contxt;
      events = [];
    })

  -- The descriptors of a set that are closed, from descriptor `i` on, with so many left.
  unfoldable pub close_from : ℕ → ℕ → FdSet → Exec (List (Event E))
  unfolding fd_isset
  close_from zero i master = ok []
  close_from (suc left) i master = do
    member ← fd_isset i master
    rest ← close_from left (i + 1) master
    ok (if member then closed i ∷ rest else rest)

  -- After the loop: `for (i=0; i <= maxSD; ++i)`.
  unfoldable pub close_all : ℕ → FdSet → Exec (List (Event E))
  unfolding close_from
  close_all max_sd master = close_from (max_sd + 1) 0 master

  -- `RunServer` over the rounds that happen, once the socket listens. The result says whether it
  -- has returned; then the server is freed.
  unfoldable pub run_server : Server K C E → ℕ → FdSet → Block → List Round → Exec (Loop × Bool)
  unfolding before_loop run_rounds close_all
  run_server server listen_sd working buffer rounds = do
    loop ← before_loop server listen_sd working buffer
    (loop, over) ← run_rounds server listen_sd rounds loop
    if over
        then (do events ← close_all loop.max_sd loop.master; ok (note loop events, true))
        else ok (loop, false)
