-- ===== src/SrvMng/Ready.antt =====
-- `SrvMngCreate` of srv_mng.c: the server that `main` activates.
use ipc_project.Base.{ℕ, ◌≡◌, refl, true, Option, none, some, [], length, ok}
use ipc_project.CLib.{Text, c_string}
use ipc_project.Containers.HashMap.{HashMapLib}
use ipc_project.Containers.HashMap
use ipc_project.Containers.Queue.{QueueLib}
use ipc_project.Containers.Queue
use ipc_project.Containers.Vector.{VectorLib}
use ipc_project.Containers.Chain.{ListLib}
use ipc_project.Containers.Chain
use ipc_project.UsrMng.{UsrMng}
use ipc_project.UsrMng.Directory.{user_of, IsValid as IsValidUsers}
use ipc_project.UsrMng.Creation.{no_users, usr_mng_create-IsValid}
use ipc_project.GrpMng.Groups.{GrpMng, codes}
use ipc_project.GrpMng.Directory.{group_of, IsValid as IsValidGroups}
use ipc_project.GrpMng.Creation.{addresses, grp_mng_create-addresses}
use ipc_project.ServerNet.{Server, create_server, live, new_server, check_params}
use ipc_project.SrvMng.Handlers.{Memory, Locals, SrvMng}
use ipc_project.SrvMng.Lifetime.{
  CreateMemory, ServerManager, srv_mng_create, create_net, got_msg, server_port, ipv6_type,
}

module _ (K : ListLib) (H' : Chain.IsLawful K) (L : HashMapLib) (H : HashMap.IsLawful L)
    (Q : QueueLib) (QL : Queue.IsLawful Q) (W : VectorLib) (E : Type 0) where
  -- Every allocation succeeds, and what is found in place of the result of `CreateServer` is the
  -- server.
  pub record IsPlenty (memory : CreateMemory K L Q W E) : Type 0 where
    pub for_manager : memory.for_manager ≡ true
    pub for_users : memory.for_users ≡ true
    pub for_user_map : memory.for_user_map ≡ true
    pub for_groups : memory.for_groups ≡ true
    pub for_group_map : memory.for_group_map ≡ true
    pub for_queue : memory.for_queue ≡ true
    pub for_addresses : (j : ℕ) → memory.for_addresses j ≡ true
    pub for_server : memory.for_net.for_server ≡ true
    pub for_lost_list : memory.for_net.for_lost_list ≡ true
    pub for_list : memory.for_net.for_list ≡ true
    pub left : (server : Server K (SrvMng L Q W) E) → memory.left server ≡ some server

  -- A server with no users, no groups and no connections.
  pub record IsReady (messages : Memory) (locals : Locals) (manager : ServerManager K L Q W E)
      : Type 0 where
    pub users :
        (users : UsrMng L) × (manager.managers.user_manager ≡ some users)
        × IsValidUsers L H users
        × ((name : Text) → user_of L users name ≡ none)
    pub groups :
        (groups : GrpMng L Q) × (manager.managers.group_manager ≡ some groups)
        × IsValidGroups L H Q groups (addresses 100 1)
        × ((name : Text) → group_of L Q groups name ≡ none)
    pub net :
        (server : Server K (SrvMng L Q W) E) × (manager.server_net ≡ live server)
        × (server.user_func_got_msg ≡ some (got_msg L Q W messages locals))
        × (list : K.Chain ℕ) × (server.clients ≡ some list)
        × (K.items ℕ list ≡ [])

  abbrev net_of : Memory → Locals → SrvMng L Q W → Option (K.Chain ℕ) → Server K (SrvMng L Q W) E
  net_of messages locals managers list =
      new_server K (SrvMng L Q W) E none (some (got_msg L Q W messages locals)) none none
        server_port ipv6_type (some (codes "127.0.0.1")) managers list

  -- The network module, given a list.
  create_net-live :
      (memory : CreateMemory K L Q W E) (messages : Memory) (locals : Locals)
      (managers : SrvMng L Q W) (list : K.Chain ℕ)
      → IsPlenty memory
      → K.create ℕ true ≡ some list
      → create_net K L Q W E memory messages locals managers
        ≡ some (record {
          managers = managers;
          server_net = live (net_of messages locals managers (some list));
        })
  unfolding create_net create_server check_params new_server
  create_net-live memory messages locals managers list plenty made =
      rw
        (
          plenty.for_server,
          plenty.for_lost_list,
          plenty.for_list,
          create_net,
          create_server,
          made,
          plenty.left (net_of messages locals managers (some list)),
        )
        refl

  -- The server is created with valid managers of users and groups, with no users, no groups and the
  -- addresses 224.0.0.1 to 224.0.0.100 free, and with a network module that hands messages to
  -- `GotMessage` and has no connections. Every allocation succeeds, the array `uniqueIP` of five bytes
  -- happens to hold a string, and the server is found in place of the result that `CreateServer` does
  -- not return.
  pub srv_mng_create-IsReady :
      (memory : CreateMemory K L Q W E) (messages : Memory) (locals : Locals) (old : Text)
      → IsPlenty memory
      → length memory.unique ≡ 5
      → c_string memory.unique ≡ ok old
      → (manager : ServerManager K L Q W E) × (srv_mng_create K L Q W E memory messages locals
          ≡ ok (some manager))
        × IsReady messages locals manager
  unfolding srv_mng_create new_server
  srv_mng_create-IsReady memory messages locals old plenty size e =
      let users = no_users L in
      let (_, valid, nobody) = usr_mng_create-IsValid L H in
      let (groups, made', valid', no_groups) =
        grp_mng_create-addresses Q QL L H memory.for_addresses memory.unique old
          plenty.for_addresses size e in
      let (list, made'', empty) = H'.create_room ℕ in
      let managers : SrvMng L Q W = record {
        user_manager = some users;
        group_manager = some groups;
      } in
      let server : Server K (SrvMng L Q W) E = net_of messages locals managers (some list) in
      (
        record { managers = managers; server_net = live server },
        rw
            (
              plenty.for_manager,
              plenty.for_users,
              plenty.for_user_map,
              plenty.for_groups,
              plenty.for_group_map,
              plenty.for_queue,
              made',
              create_net-live memory messages locals managers list plenty made'',
            )
            refl,
        record {
          users = (users, refl, valid, nobody);
          groups = (groups, refl, valid', no_groups);
          net = (server, refl, refl, list, refl, empty);
        },
      )
