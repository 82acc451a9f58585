-- ===== src/SrvMng/Shutdown.antt =====
-- How `main` of srv_main.c ends.
use ipc_project.Base.{
  ◌≡◌, ◌≢◌, refl, ap, ◌∙◌, Option-cases, inl, inr, true, false, Bool, none, some, List, Exec,
  Exec-cases, ok, fault, ◌>>=◌, or_fault, arith,
}
use ipc_project.CLib.{Block}
use ipc_project.Containers.HashMap.{HashMapLib}
use ipc_project.Containers.Queue.{QueueLib}
use ipc_project.Containers.Vector.{VectorLib}
use ipc_project.Containers.Chain.{ListLib}
use ipc_project.ServerNet.{destroy_server, ServerPointer, null, freed, live}
use ipc_project.ServerNet.Descriptors.{FdSet}
use ipc_project.ServerNet.Setup.{Setup, set_server}
use ipc_project.ServerNet.Loop.{Round, Loop, run_server}
use ipc_project.SrvMng.Handlers.{Memory, Locals, SrvMng}
use ipc_project.SrvMng.Lifetime.{
  CreateMemory, ServerManager, Activation, exited, waiting, returned, srv_mng_create,
  srv_mng_activate, finish_main, return_zero, main, is_over, srv_mng_destroy,
}

module _ (K : ListLib) (L : HashMapLib) (Q : QueueLib) (W : VectorLib) (E : Type 0) where
  is_over-freed :
      (r : Loop K (SrvMng L Q W) E × Bool) (manager' : ServerManager K L Q W E)
      → is_over K L Q W E r ≡ returned manager'
      → manager'.server_net ≡ freed
  is_over-freed (loop, true) manager' e = ground arith
  is_over-freed (loop, false) manager' e = absurd (ground arith)

  run-freed :
      (run : Exec (Loop K (SrvMng L Q W) E × Bool)) (manager' : ServerManager K L Q W E)
      → (run >>= λ r. ok (is_over K L Q W E r)) ≡ ok (returned manager')
      → manager'.server_net ≡ freed
  run-freed fault manager' e = absurd (ground arith)
  run-freed (ok r) manager' e = is_over-freed r manager' (cc)

  -- Once `SrvMngActivate` has returned, the server's memory is freed.
  activate-freed :
      (setup : Setup) (working : FdSet) (buffer : Block) (rounds : List Round)
      (managers : SrvMng L Q W) (server_net : ServerPointer K (SrvMng L Q W) E)
      (manager' : ServerManager K L Q W E)
      → srv_mng_activate K L Q W E setup working buffer rounds
          (record { managers = managers; server_net = server_net })
        ≡ ok (returned manager')
      → manager'.server_net ≡ freed
  unfolding srv_mng_activate
  activate-freed setup working buffer rounds managers null manager' e = absurd (ground arith)
  activate-freed setup working buffer rounds managers freed manager' e = absurd (ground arith)
  activate-freed setup working buffer rounds managers (live server) manager' e =
      elim (Option-cases (set_server setup).1) [
        | inl nothing ↦ absurd (ground arith)
        | inr (fd, opened) ↦
            run-freed
              (run_server K (SrvMng L Q W) E (record server { contxt = managers }) fd working buffer
                rounds)
              manager' (rw (srv_mng_activate, opened) at e)
      ]

  finish-ne-return :
      (activation : Activation K L Q W E)
      → ((manager : ServerManager K L Q W E)
          → activation ≡ returned manager
          → manager.server_net ≡ freed)
      → finish_main K L Q W E activation ≢ ok return_zero
  unfolding finish_main srv_mng_destroy destroy_server
  finish-ne-return exited was_freed e = ground arith
  finish-ne-return waiting was_freed e = ground arith
  finish-ne-return (returned manager) was_freed e =
      let gone = was_freed manager refl in ground arith

  -- The server's program never returns from `main`: it faults, exits with a failure or still
  -- serves. Where the loop has ended, destroying the manager reads the server after it was freed.
  pub main-ne-return :
      (memory : CreateMemory K L Q W E) (messages : Memory) (locals : Locals) (setup : Setup)
      (working : FdSet) (buffer : Block) (rounds : List Round)
      → main K L Q W E memory messages locals setup working buffer rounds ≢ ok return_zero
  unfolding main
  main-ne-return memory messages locals setup working buffer rounds e =
      elim (Exec-cases (srv_mng_create K L Q W E memory messages locals)) [
        | inl faulted ↦ ground arith
        | inr (none, created) ↦ ground arith
        | inr (some manager, created) ↦
            elim (Exec-cases (srv_mng_activate K L Q W E setup working buffer rounds manager)) [
              | inl faulted ↦ ground arith
              | inr (activation, ran) ↦
                  finish-ne-return activation
                    (λ m was.
                      activate-freed setup working buffer rounds manager.managers manager.server_net
                        m (ran ∙ ap ok was))
                    (rw (created, or_fault, ran) at e)
            ]
      ]
