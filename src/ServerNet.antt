-- ===== src/ServerNet.antt =====
-- server_net.c: the server that takes connections and hands on what arrives.
--
-- What a function of the application does is an effect: `E` stands for the calls that only report
-- (a client has come or gone, an error), and the context for the memory that they share. ServerNet/Loop
-- is `RunServer`, ServerNet/Setup the socket that it listens on.
pub mod Descriptors
pub mod Setup
pub mod Loop
pub mod Clean
pub mod Serving
pub mod Visits
pub mod Scan
pub mod Rounds
pub mod Shutdown
pub mod Starved
pub mod Handing
use ipc_project.Base.{
  ℕ, ℤ, pos, negsuc, Bool, true, false, Option, none, some, List, [], ◌∷◌, ◌||◌, ltb, ◌==◌,
  if◌then◌else◌, Exec, ok, fault, ◌>>=◌,
}
use ipc_project.CLib.{Block, Text}
use ipc_project.Containers.Chain.{ListLib}

abbrev pub buffer_size : ℕ
buffer_size = 100

abbrev pub max_client_capacity : ℕ
max_client_capacity = 1020

pub data ServerSignal : Type 0 where
  server_ok params_fail : ServerSignal

pub data ErrorForApp : Type 0 where
  accept_error recv_error send_error : ErrorForApp

-- A call of `send`: the arguments of `SendToClient`, whose result is only reported.
pub record Sending : Type 0 where
  pub bytes : Block
  pub size : ℤ
  pub client : ℕ

-- The handler of a message: the buffer, its size as a `size_t`, the context and the client. The
-- result is the context and what was sent.
abbrev pub GotMsg : Type 0 → Type 0
GotMsg C = Block → ℕ → C → ℕ → Exec (C × List Sending)

unfoldable pub send_to_client : Block → ℤ → ℕ → List Sending
send_to_client bytes size client = record { bytes = bytes; size = size; client = client } ∷ []

abbrev is_null : {A : Type 0} → Option A → Bool
is_null none = true
is_null (some a) = false

-- `_ipType > 1`
abbrev above_one : ℤ → Bool
above_one (pos n) = ltb 1 n
above_one (negsuc n) = false

unfoldable pub check_params : {C : Type 0} → ℕ → ℤ → Option Text → Option (GotMsg C) → ServerSignal
check_params user_port ip_type ip user_func_got_msg =
    if above_one ip_type || is_null ip || is_null user_func_got_msg then params_fail else server_ok

module _ (K : ListLib) (C E : Type 0) where
  pub record Server : Type 0 where
    pub user_func_new_client : Option (ℤ → E)
    pub user_func_got_msg : Option (GotMsg C)
    pub user_func_fail_msg : Option (ErrorForApp → E)
    pub user_func_close_client : Option (ℤ → E)
    pub clients : Option (K.Chain ℕ)
    pub contxt : C
    pub num_clients : ℕ
    pub max_clients : ℕ
    pub port : ℕ
    pub listen_socket : ℕ
    pub ip_type : ℤ
    pub buff_size : ℕ
    pub ip : Option Text

  -- The allocations of `CreateServer`: the server, a list that is lost at once, and the list.
  pub record ServerMemory : Type 0 where
    pub for_server : Bool
    pub for_lost_list : Bool
    pub for_list : Bool

  -- The members that the calls set; those that `calloc` leaves are zero.
  unfoldable pub new_server :
      Option (ℤ → E)
      → Option (GotMsg C)
      → Option (ErrorForApp → E)
      → Option (ℤ → E)
      → ℕ
      → ℤ
      → Option Text
      → C
      → Option (K.Chain ℕ)
      → Server
  new_server new_client got_msg fail_msg close_client user_port ip_type ip contxt list = record {
    user_func_new_client = new_client;
    user_func_got_msg = got_msg;
    user_func_fail_msg = fail_msg;
    user_func_close_client = close_client;
    clients = list;
    contxt = contxt;
    num_clients = 0;
    max_clients = max_client_capacity;
    port = user_port;
    listen_socket = 0;
    ip_type = ip_type;
    buff_size = 0;
    ip = ip;
  }

  abbrev is_server_ok : ServerSignal → Bool
  is_server_ok server_ok = true
  is_server_ok params_fail = false

  -- The function ends with no `return`. What its caller finds in place of the result, when the server
  -- is made, is an argument.
  unfoldable pub create_server :
      ServerMemory
      → (Server → Option Server)
      → Option (ℤ → E)
      → Option (GotMsg C)
      → Option (ErrorForApp → E)
      → Option (ℤ → E)
      → ℕ
      → ℤ
      → Option Text
      → C
      → Option Server
  unfolding new_server check_params
  create_server memory left new_client got_msg fail_msg close_client user_port ip_type ip contxt =
      if is_server_ok (check_params user_port ip_type ip got_msg)
      then if memory.for_server
        then if memory.for_lost_list
          then left (
              new_server new_client got_msg fail_msg close_client user_port ip_type ip contxt
                (K.create ℕ memory.for_list))
          else none
        else none
      else none

  -- A pointer to a server: NULL, to a server, or to one that was freed.
  pub data ServerPointer : Type 0 where
    null freed : ServerPointer
    live : Server → ServerPointer

  -- `ListDestroy` only frees memory. The count of clients is read from the server.
  unfoldable pub destroy_server : Option ServerPointer → Exec (Option ServerPointer)
  destroy_server none = ok none
  destroy_server (some null) = ok (some null)
  destroy_server (some freed) = fault
  destroy_server (some (live server)) = ok (some null)
