-- ===== src/Tests/Network.antt =====
-- The server of Tests/Server behind the network module, and its program.
use ipc_project.Base.{
  ℕ, ◌≡◌, ◌≢◌, refl, Bool, true, false, none, some, List, [], ◌∷◌, ok, pos, ℤ, arith,
  length-replicate,
}
use ipc_project.CLib.{IsText, Block, Text, calloc, c_string, load, load32, strcmp_eq}
use ipc_project.Containers.Entries.{lookup_by}
use ipc_project.Containers.HashMap.Assoc.{assoc_map, assoc_map-IsLawful}
use ipc_project.Containers.Queue.{list_queue, list_queue-IsLawful}
use ipc_project.Containers.Vector.{list_vector}
use ipc_project.Containers.Chain.{list_chain, list_chain-IsLawful}
use ipc_project.Containers.Objects.{object_of, updated}
use ipc_project.Protocol.Layout.{
  RegisterOrLoginRequest, register_request, register_reply, read_register_or_login, login_request,
  login_reply, GrpReqStruct, read_grp_req,
}
use ipc_project.UsrMng.{UsrMng}
use ipc_project.UsrMng.Directory.{user_of, IsValid as IsValidUsers}
use ipc_project.UsrMng.Spec.{fresh_user, log_in}
use ipc_project.GrpMng.Directory.{group_of, IsValid as IsValidGroups}
use ipc_project.ServerNet.{Server}
use ipc_project.ServerNet.Descriptors.{fd_zero}
use ipc_project.ServerNet.Setup.{Setup}
use ipc_project.ServerNet.Loop.{Event, Loop, Round, sent, accepted, arrived, serve, hand_on}
use ipc_project.SrvMng.Handlers.{SrvMng, is_usermng_success}
use ipc_project.SrvMng.Ready.{IsReady, srv_mng_create-IsReady}
use ipc_project.SrvMng.Lifetime.{
  ServerManager, srv_mng_create, got_msg, CreateMemory, main, return_zero,
}
use ipc_project.SrvMng.Shutdown.{main-ne-return}
use ipc_project.SrvMng.Replies.{answer}
use ipc_project.SrvMng.Groups.{as_login}
use ipc_project.SrvMng.Network.{packet_of, client_sends, client_sends-wire}
use ipc_project.SrvMng.Twice.{on_the_wire, registered_twice}
use ipc_project.ClientManager.{Sent}
use ipc_project.ClientManager.Sending.{packet, pack_and_send_via_client_net_lem}
use ipc_project.SrvMng.Served.{login_served}
use ipc_project.SrvMng.Replay.{disconnect_loses_address}
use ipc_project.Tests.Data.{codes, login_block, create_block}
use ipc_project.Tests.Users.{one_user, one_user-IsValid}
use ipc_project.Tests.Groups.{Manager, one_group, one_group-IsValid, insert_room}
use ipc_project.Tests.Server.{memory, locals, sized, server}

abbrev Managers : Type 0
Managers = SrvMng assoc_map list_queue list_vector

abbrev net : Server list_chain Managers ℤ
net = record {
  user_func_new_client = none;
  user_func_got_msg = some (got_msg assoc_map list_queue list_vector memory locals);
  user_func_fail_msg = none;
  user_func_close_client = none;
  clients = some (5 ∷ []);
  contxt = server;
  num_clients = 0;
  max_clients = 1020;
  port = 2021;
  listen_socket = 0;
  ip_type = pos 0;
  buff_size = 0;
  ip = some (codes "127.0.0.1");
}

abbrev loop_of : Managers → Loop list_chain Managers ℤ
loop_of contxt = record {
  master = fd_zero;
  working = fd_zero;
  max_sd = 5;
  client_counter = pos 1;
  end_server = false;
  buffer = calloc 100;
  clients = some (5 ∷ []);
  contxt = contxt;
  events = [];
}

-- A round in which every connection brings the same.
abbrev round_of : Block → Round
round_of bytes = record {
  select = λ n s. record { rc = pos 1; ready = s };
  accept = accepted 6;
  for_socket = true;
  for_node = true;
  recv = λ i. arrived bytes;
}

abbrev login : RegisterOrLoginRequest
login = record { username = codes "hen"; password = codes "group5"; tag = 3 }

abbrev logged_in : Bool
logged_in =
    is_usermng_success
      (log_in assoc_map (user_of assoc_map one_user) (codes "hen") (codes "group5")).0

login_sent : client_sends login_block (calloc 100) login_request ≡ ok (packet_of login)
unfolding read_register_or_login c_string load32 load
login_sent =
    client_sends-wire login_block login login_request refl refl refl (omega arith) (omega arith)
      (calloc 100) (omega arith)

login_served_example :
    (users' : UsrMng assoc_map) × (loop' : Loop list_chain Managers ℤ) × (serve list_chain Managers
        ℤ net
        (round_of (packet_of login))
        5
        (loop_of server)
      ≡ ok (loop', false))
    × (loop'.contxt ≡ record server { user_manager = some users' })
    × (loop'.events
        ≡ sent (record {
          bytes = (answer locals logged_in login_reply).bytes;
          size = (answer locals logged_in login_reply).size;
          client = 5;
        })
          ∷ [])
    × IsValidUsers assoc_map assoc_map-IsLawful users'
    × ((name : Text)
        → user_of assoc_map users' name
          ≡ (log_in assoc_map (user_of assoc_map one_user) (codes "hen") (codes "group5")).1 name)
unfolding read_register_or_login c_string load32 load
login_served_example =
    login_served assoc_map assoc_map-IsLawful list_queue list_vector list_chain ℤ memory locals net
      (round_of (packet_of login)) 5 (loop_of server) one_user login_block (calloc 100)
      (packet_of login) login refl refl sized refl one_user-IsValid (length-replicate {A = ℕ} 100 0)
      refl refl (omega arith) (omega arith) (omega arith) login_sent refl

abbrev two_free : List Text
two_free = codes "224.0.0.2" ∷ codes "224.0.0.3" ∷ []

abbrev two_free_server : Managers
two_free_server = record { user_manager = some one_user; group_manager = some (one_group two_free) }

abbrev create : GrpReqStruct
create = record { username = codes "hen"; group_name = codes "go"; tag = 7 }

disconnect_loses_address_example :
    (groups' groups'' : Manager) × (loop' loop'' : Loop list_chain Managers ℤ) × (hand_on list_chain
        Managers ℤ net
        (round_of (packet_of (as_login create)))
        5
        (loop_of two_free_server)
      ≡ ok loop')
    × (loop'.contxt ≡ record two_free_server { group_manager = some groups' })
    × IsValidGroups assoc_map assoc_map-IsLawful list_queue groups' (codes "224.0.0.3" ∷ [])
    × (hand_on list_chain Managers ℤ net (round_of []) 6 loop' ≡ ok loop'')
    × (loop''.contxt ≡ record two_free_server { group_manager = some groups'' })
    × IsValidGroups assoc_map assoc_map-IsLawful list_queue groups'' []
    × ((name : Text)
        → group_of assoc_map list_queue groups'' name ≡ group_of assoc_map list_queue groups' name)
unfolding read_grp_req c_string load32 load object_of lookup_by strcmp_eq
disconnect_loses_address_example =
    disconnect_loses_address assoc_map assoc_map-IsLawful list_queue list_queue-IsLawful list_vector
      list_chain ℤ memory locals net (round_of (packet_of (as_login create))) (round_of []) 5 6
      (loop_of two_free_server) (one_group two_free) (codes "224.0.0.2") (codes "224.0.0.3") []
      create_block create refl refl refl refl sized refl
      (one_group-IsValid two_free (omega arith, (omega arith, tt)))
      (ground arith, (ground arith, tt)) (length-replicate {A = ℕ} 100 0) refl refl (omega arith)
      (omega arith) refl (insert_room (one_group two_free).group_map (codes "go") (some 1)) refl
      refl

abbrev create_memory : CreateMemory list_chain assoc_map list_queue list_vector ℤ
create_memory = record {
  for_manager = true;
  for_users = true;
  for_user_map = true;
  for_groups = true;
  for_group_map = true;
  for_queue = true;
  for_addresses = λ i. true;
  unique = calloc 5;
  for_net = record { for_server = true; for_lost_list = true; for_list = true };
  left = some;
}

abbrev timeout : Round
timeout = record (round_of []) { select = λ n s. record { rc = pos 0; ready = fd_zero } }

abbrev setup : Setup
setup = record {
  socket = some 3;
  setsockopt = true;
  get_flags = some 2;
  set_flags = true;
  bind = true;
  listen = true;
}

main-ne-return_example :
    main list_chain assoc_map list_queue list_vector ℤ create_memory memory locals setup fd_zero
      (calloc 100)
      (round_of [] ∷ timeout ∷ [])
    ≢ ok return_zero
main-ne-return_example =
    main-ne-return list_chain assoc_map list_queue list_vector ℤ create_memory memory locals setup
      fd_zero (calloc 100) (round_of [] ∷ timeout ∷ [])

srv_mng_create-IsReady_example :
    (manager : ServerManager list_chain assoc_map list_queue list_vector ℤ) × (srv_mng_create
        list_chain assoc_map list_queue list_vector ℤ create_memory memory locals
      ≡ ok (some manager))
    × IsReady list_chain list_chain-IsLawful assoc_map assoc_map-IsLawful list_queue
        list_queue-IsLawful list_vector ℤ memory locals manager
unfolding c_string
srv_mng_create-IsReady_example =
    srv_mng_create-IsReady list_chain list_chain-IsLawful assoc_map assoc_map-IsLawful list_queue
      list_queue-IsLawful list_vector ℤ create_memory memory locals []
      (record {
        for_manager = refl;
        for_users = refl;
        for_user_map = refl;
        for_groups = refl;
        for_group_map = refl;
        for_queue = refl;
        for_addresses = λ j. refl;
        for_server = refl;
        for_lost_list = refl;
        for_list = refl;
        left = λ server. refl;
      })
      refl refl

dana-IsText : IsText (codes "dana")
dana-IsText = (omega arith, (omega arith, (omega arith, (omega arith, tt))))

digits-IsText : IsText (codes "1234")
digits-IsText = (omega arith, (omega arith, (omega arith, (omega arith, tt))))

abbrev registration : Sent
registration = packet register_request (codes "dana") (codes "1234")

abbrev told : Bool → Event ℤ
told good = sent (record {
  bytes = (answer locals good register_reply).bytes;
  size = (answer locals good register_reply).size;
  client = 5;
})

registered_twice_example :
    (users' : UsrMng assoc_map) × (loop' loop'' : Loop list_chain Managers ℤ) × (serve list_chain
        Managers ℤ net
        (round_of (on_the_wire registration))
        5
        (loop_of server)
      ≡ ok (loop', false))
    × (serve list_chain Managers ℤ net (round_of (on_the_wire registration)) 5 loop'
        ≡ ok (loop'', false))
    × (loop''.contxt ≡ record server { user_manager = some users' })
    × (loop''.events ≡ told true ∷ told false ∷ [])
    × IsValidUsers assoc_map assoc_map-IsLawful users'
    × ((n : Text)
        → user_of assoc_map users' n
          ≡ updated
              (user_of assoc_map one_user)
              (codes "dana")
              (fresh_user assoc_map (codes "dana") (codes "1234"))
              n)
unfolding object_of lookup_by strcmp_eq
registered_twice_example =
    registered_twice assoc_map assoc_map-IsLawful list_queue list_vector list_chain ℤ memory locals
      net 5 refl refl refl refl sized (codes "dana") (codes "1234") dana-IsText digits-IsText
      (omega arith) (omega arith) (round_of (on_the_wire registration))
      (round_of (on_the_wire registration)) (loop_of server) one_user registration registration refl
      one_user-IsValid (length-replicate {A = ℕ} 100 0) refl
      (insert_room one_user.user_map (codes "dana") (some 1))
      (pack_and_send_via_client_net_lem (codes "dana") (codes "1234") register_request dana-IsText
        digits-IsText (omega arith) (omega arith) refl)
      refl refl
