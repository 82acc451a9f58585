-- ===== src/ServerNet/Visits.antt =====
-- The descriptors that a round of `RunServer` looks at, and where it can fault.
use ipc_project.Base.{ℕ, ◌+◌, ◌-◌, ◌≤◌, ◌≡◌, ◌≢◌, ◌⊎◌, true, false, ◌&&◌, ltb, leb, ok, fault}
use ipc_project.Containers.Chain.{ListLib, IsLawful}
use ipc_project.ServerNet.{Server, GotMsg}
use ipc_project.ServerNet.Descriptors.{fd_setsize}
use ipc_project.ServerNet.Loop.{
  Loop, Round, accepted, to_size, received_rc, received_into, ready_at,
}
use ipc_project.ServerNet.Serving.{IsServing}

module _ (K : ListLib) (C E : Type 0) (listen_sd : ℕ) (server : Server K C E) (round : Round) where
  -- The scan from a state with so many descriptors that are ready: it looks at a descriptor, with so
  -- many left, in a state.
  pub data Visits (start : Loop K C E) (ready : ℕ) : ℕ → ℕ → Loop K C E → Type 0 where
    begins : Visits start ready 0 ready start
    skips :
        {i left : ℕ} {loop : Loop K C E}
        → Visits start ready i left loop
        → (leb i loop.max_sd && ltb 0 left) ≡ true
        → loop.working i ≡ false
        → Visits start ready (i + 1) left loop
    serves :
        {i left : ℕ} {loop loop' : Loop K C E}
        → Visits start ready i left loop
        → (leb i loop.max_sd && ltb 0 left) ≡ true
        → loop.working i ≡ true
        → ready_at K C E server round listen_sd i loop ≡ ok (loop', false)
        → Visits start ready (i + 1) (left - 1) loop'

  -- The connection that is taken has a descriptor that no set can hold, or the handler faults on
  -- what the connection brings, laid over the buffer.
  abbrev pub FaultsAt : GotMsg C → ℕ → Loop K C E → Type 0
  FaultsAt got_msg i loop =
      ((i ≡ listen_sd) × (fd : ℕ) × (round.accept ≡ accepted fd) × (fd_setsize ≤ fd))
      ⊎ ((i ≢ listen_sd)
          × (got_msg (received_into (round.recv i) loop.buffer)
                (to_size (received_rc (round.recv i))) loop.contxt i
              ≡ fault))

  -- Where the scan faults: at a descriptor that it looks at and that is ready.
  pub record Faulting (H : IsLawful K) (got_msg : GotMsg C) (start : Loop K C E) (ready : ℕ)
      : Type 0 where
    pub descriptor : ℕ
    pub left : ℕ
    pub state : Loop K C E
    pub visited : Visits start ready descriptor left state
    pub in_range : (leb descriptor state.max_sd && ltb 0 left) ≡ true
    pub is_ready : state.working descriptor ≡ true
    pub serving : IsServing K H C E listen_sd state
    pub faults : FaultsAt got_msg descriptor state
