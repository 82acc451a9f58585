-- ===== src/SrvMng/Lifetime.antt =====
-- `SrvMngCreate`, `SrvMngActivate` and `SrvMngDestroy` of srv_mng.c, and srv_main.c.
use ipc_project.Base.{
  ℕ, ℤ, pos, Bool, true, false, Option, none, some, List, [], Exec, ok, fault, ◌>>=◌, or_fault,
  if◌then◌else◌, not,
}
use ipc_project.CLib.{Block}
use ipc_project.Containers.HashMap.{HashMapLib}
use ipc_project.Containers.Queue.{QueueLib}
use ipc_project.Containers.Vector.{VectorLib}
use ipc_project.Containers.Chain.{ListLib}
use ipc_project.UsrMng.{usr_mng_create, usr_mng_destroy}
use ipc_project.GrpMng.Groups.{codes, grp_mng_create, grp_mng_destroy}
use ipc_project.ServerNet.{
  GotMsg, Sending, send_to_client, Server, ServerMemory, ServerPointer, null, freed, live,
  create_server, destroy_server,
}
use ipc_project.ServerNet.Descriptors.{FdSet}
use ipc_project.ServerNet.Setup.{Setup, set_server}
use ipc_project.ServerNet.Loop.{Round, Loop, run_server}
use ipc_project.SrvMng.Handlers.{Memory, Locals, Packet, SrvMng, got_message}

abbrev pub server_port : ℕ
server_port = 2021

-- `IPV6_TYPE`
abbrev pub ipv6_type : ℤ
ipv6_type = pos 0

abbrev pub send_packet : Option Packet → ℕ → List Sending
send_packet none client = []
send_packet (some packet) client = send_to_client packet.bytes packet.size client

module _ (L : HashMapLib) (Q : QueueLib) (W : VectorLib) where
  -- `GotMessage` as the handler of the network module, which gives it its buffer and the context
  -- that it was created with. The size of the message is not looked at.
  unfoldable pub got_msg : Memory → Locals → GotMsg (SrvMng L Q W)
  unfolding send_to_client
  got_msg memory locals buffer size server client = do
    (server', packet) ← got_message L Q W memory locals (some buffer) (some server)
    server' ← or_fault server'
    ok (server', send_packet packet client)

module _ (K : ListLib) (L : HashMapLib) (Q : QueueLib) (W : VectorLib) (E : Type 0) where
  -- The struct with its third member. The network module shares the first two as its context.
  pub record ServerManager : Type 0 where
    pub managers : SrvMng L Q W
    pub server_net : ServerPointer K (SrvMng L Q W) E

  -- The outcomes of the allocations, and what `uniqueIP` holds and what is found in place of the
  -- value that `CreateServer` does not return.
  pub record CreateMemory : Type 0 where
    pub for_manager : Bool
    pub for_users : Bool
    pub for_user_map : Bool
    pub for_groups : Bool
    pub for_group_map : Bool
    pub for_queue : Bool
    pub for_addresses : ℕ → Bool
    pub unique : Block
    pub for_net : ServerMemory K (SrvMng L Q W) E
    pub left : Server K (SrvMng L Q W) E → Option (Server K (SrvMng L Q W) E)

  -- The last part of `SrvMngCreate`, with both managers.
  unfoldable pub create_net : CreateMemory → Memory → Locals → SrvMng L Q W → Option ServerManager
  unfolding create_server
  create_net memory messages locals managers =
      elim (create_server K (SrvMng L Q W) E memory.for_net memory.left none
        (some (got_msg L Q W messages locals)) none none server_port ipv6_type
        (some (codes "127.0.0.1")) managers) [
          | none ↦ none
          | some server ↦ some (record { managers = managers; server_net = live server })
        ]

  unfoldable pub srv_mng_create : CreateMemory → Memory → Locals → Exec (Option ServerManager)
  unfolding create_net usr_mng_create grp_mng_create
  srv_mng_create memory messages locals =
      if not memory.for_manager
      then ok none
      else (elim (usr_mng_create L memory.for_users memory.for_user_map) [
        | none ↦ ok none
        | some users ↦
            grp_mng_create L Q memory.for_groups memory.for_group_map memory.for_queue
              memory.for_addresses memory.unique
            >>= λ groups. ok (elim groups [
              | none ↦ none
              | some groups ↦
                  create_net memory messages locals
                    (record { user_manager = some users; group_manager = some groups })
            ])
      ])

  -- What `SrvMngActivate` comes to: the program exits, the server waits for the next round, or the
  -- call returns, and the server was freed.
  pub data Activation : Type 0 where
    exited waiting : Activation
    returned : ServerManager → Activation

  abbrev pub is_over : Loop K (SrvMng L Q W) E × Bool → Activation
  is_over (loop, false) = waiting
  is_over (loop, true) = returned (record { managers = loop.contxt; server_net = freed })

  unfoldable pub srv_mng_activate :
      Setup → FdSet → Block → List Round → ServerManager → Exec Activation
  srv_mng_activate setup working buffer rounds manager = elim manager.server_net [
    | null ↦ fault
    | freed ↦ fault
    | live server ↦ elim (set_server setup).1 [
      | none ↦ ok exited
      | some listen_sd ↦
          run_server K (SrvMng L Q W) E (record server { contxt = manager.managers }) listen_sd
            working buffer rounds
          >>= λ r. ok (is_over r)
    ]
  ]

  -- What the caller's pointer is afterwards, if there is one.
  unfoldable pub srv_mng_destroy :
      Option (Option ServerManager) → Exec (Option (Option ServerManager))
  unfolding usr_mng_destroy grp_mng_destroy destroy_server
  srv_mng_destroy none = ok none
  srv_mng_destroy (some none) = ok (some none)
  srv_mng_destroy (some (some manager)) = do
    let users = usr_mng_destroy L (some manager.managers.user_manager)
    let groups = grp_mng_destroy L Q (some manager.managers.group_manager)
    server ← destroy_server K (SrvMng L Q W) E (some manager.server_net)
    ok (some none)

  pub data MainResult : Type 0 where
    exit_failure still_serving return_zero : MainResult

  unfoldable pub finish_main : Activation → Exec MainResult
  unfolding srv_mng_destroy
  finish_main exited = ok exit_failure
  finish_main waiting = ok still_serving
  finish_main (returned manager) =
      srv_mng_destroy (some (some manager)) >>= λ pointer. ok return_zero

  -- `main` of srv_main.c. `SrvMngActivate` reads through the pointer without a test.
  unfoldable pub main :
      CreateMemory → Memory → Locals → Setup → FdSet → Block → List Round → Exec MainResult
  main memory messages locals setup working buffer rounds = do
    created ← srv_mng_create memory messages locals
    manager ← or_fault created
    activation ← srv_mng_activate setup working buffer rounds manager
    finish_main activation
