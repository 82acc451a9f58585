-- ===== src/ClientNet.antt =====
-- client_net.c: the client's connection.
--
-- What the calls of the system come to is an argument. Members of the struct that nothing reads
-- (`m_clntID`, `m_clientMsg`) are left out.
use ipc_project.Base.{
  ℕ, zero, suc, ℤ, pos, negsuc, minus_one, Bool, true, false, Option, none, some, List, [], ◌∷◌,
  ◌++◌, length, take, drop, if◌then◌else◌,
}
use ipc_project.CLib.{Block, Text}
use ipc_project.ServerNet.Loop.{Received, failed, arrived}

abbrev pub disconnected : ℕ
disconnected = 0

-- `recv` is told that the buffer has this size.
abbrev pub received_at_most : ℕ
received_at_most = 2048

pub data ClientSignal : Type 0 where
  send_failure recv_fail client_init_failure client_init_success send_success : ClientSignal
  client_conn_failure conn_lost client_ok client_fail : ClientSignal

-- The address is the text that `inet_addr` reads, and the port is in the machine's order.
pub record SockaddrIn : Type 0 where
  pub sin_addr : Text
  pub sin_port : ℕ

pub record Client : Type 0 where
  pub status : ℕ
  pub my_socket : ℤ
  pub sin : SockaddrIn
  pub port : ℕ
  pub ip : Text

unfoldable pub init_tcp : Option ℕ → ℤ
init_tcp none = minus_one
init_tcp (some socket) = pos socket

-- The flag is the outcome of `malloc`; `sin` is never set.
unfoldable pub create_client : Bool → Option ℕ → SockaddrIn → ℕ → Text → Option Client
unfolding init_tcp
create_client memory socket sin port ip =
    if memory
    then some (record {
      status = disconnected;
      my_socket = init_tcp socket;
      sin = sin;
      port = port;
      ip = ip;
    })
    else none

-- The flag says whether `connect` succeeds.
unfoldable pub connect_to_server : Bool → Client → ClientSignal × Client
connect_to_server connects client =
    let client' : Client = record client {
      sin = record { sin_addr = client.ip; sin_port = client.port };
    } in
    if connects then (client_ok, client') else (client_conn_failure, client')

-- Given what `send` returns.
unfoldable pub send_to_server : ℤ → ClientSignal
send_to_server (pos n) = client_ok
send_to_server (negsuc n) = send_failure

-- `recv` into the buffer, of which at most 2048 bytes are written. Into NULL it fails.
unfoldable pub receive_from_server : Received → Option Block → ClientSignal × Option Block
receive_from_server failed buffer = (recv_fail, buffer)
receive_from_server (arrived []) buffer = (conn_lost, buffer)
receive_from_server (arrived (b ∷ bytes)) none = (recv_fail, none)
receive_from_server (arrived (b ∷ bytes)) (some buffer) =
    let written = take received_at_most (b ∷ bytes) in
    (client_ok, some (written ++ drop (length written) buffer))

abbrev positive : ℤ → Bool
positive (pos zero) = false
positive (pos (suc n)) = true
positive (negsuc n) = false

unfoldable pub get_socket : Option Client → ℤ
get_socket none = minus_one
get_socket (some client) = if positive client.my_socket then client.my_socket else minus_one

-- What the caller's pointer is afterwards, if there is one, and the sockets that are closed.
unfoldable pub destroy_client : Option (Option Client) → Option (Option Client) × List ℤ
destroy_client none = (none, [])
destroy_client (some none) = (some none, [])
destroy_client (some (some client)) =
    (some none, if positive client.my_socket then client.my_socket ∷ [] else [])
