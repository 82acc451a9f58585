-- ===== src/ServerNet/Handing.antt =====
-- What reaches the application's handler.
use ipc_project.Base.{ℕ, ◌<◌, ◌≤◌, ◌≡◌, refl, false, some, List, length, take_all, ok, arith, ◌==◌}
use ipc_project.CLib.{Block}
use ipc_project.CLib.Overlay.{overlay}
use ipc_project.Containers.Chain.{ListLib}
use ipc_project.ServerNet.{Server, GotMsg, Sending, buffer_size}
use ipc_project.ServerNet.Loop.{Loop, Round, arrived, received_into, handed, hand_on, serve}

module _ (w : Block) (short : length w ≤ buffer_size) where
  -- What arrives lies over the front of the buffer.
  received-overlay : (buffer : Block) → received_into (arrived w) buffer ≡ overlay w buffer
  unfolding overlay
  received-overlay buffer = rw (take_all buffer_size w short)

  module _ (K : ListLib) (C E : Type 0) (server : Server K C E) (got_msg : GotMsg C)
      (handler : server.user_func_got_msg ≡ some got_msg) (round : Round) (i : ℕ)
      (loop : Loop K C E) (arrives : round.recv i ≡ arrived w) {contxt : C}
      {messages : List Sending}
      (ran : got_msg (overlay w loop.buffer) (length w) loop.contxt i ≡ ok (contxt, messages)) where
    -- The handler's result, where a packet arrives, or the connection ends and the packet is empty.
    pub hand_on-arrived :
        hand_on K C E server round i loop
        ≡ ok (handed K C E server false (overlay w loop.buffer) contxt messages loop)
    unfolding hand_on
    hand_on-arrived =
        rw (arrives, handler, received-overlay loop.buffer, take_all buffer_size w short, ran) refl

    pub serve-arrived :
        0 < length w
        → serve K C E server round i loop
          ≡ ok (handed K C E server false (overlay w loop.buffer) contxt messages loop, false)
    unfolding serve
    serve-arrived some_bytes =
        let positive : (length w == 0) ≡ false = ground arith in
        rw (hand_on-arrived, arrives, take_all buffer_size w short, positive) refl
