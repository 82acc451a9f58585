-- ===== src/SrvMng/Network.antt =====
-- A request from the client's buffer, through the server's, to the handler.
use ipc_project.Base.{
  ℕ, ◌%◌, ◌+◌, ◌<◌, ◌≤◌, ◌≡◌, refl, sym, ap, ◌∙◌, true, false, Option, some, ◌∷◌, length, take,
  drop, take-append, ok, ◌>>=◌, or_fault, Exec, pos, arith, length-append, lt→ltb_no,
}
use ipc_project.CLib.{Block}
use ipc_project.CLib.Overlay.{overlay}
use ipc_project.Containers.HashMap.{HashMapLib, IsLawful}
use ipc_project.Containers.Queue.{QueueLib}
use ipc_project.Containers.Vector.{VectorLib}
use ipc_project.Containers.Chain.{ListLib}
use ipc_project.Protocol.Layout.{RegisterOrLoginRequest, read_register_or_login}
use ipc_project.Protocol.Dispatch.{protocol_pack}
use ipc_project.Protocol.Wire.{two_strings_wire, pack_register_or_login_request-wire}
use ipc_project.ServerNet.{Server}
use ipc_project.ServerNet.Loop.{Loop, Round, arrived, to_size, handed, serve}
use ipc_project.ServerNet.Handing.{serve-arrived}
use ipc_project.SrvMng.Handlers.{Memory, Locals, Packet, SrvMng, got_message}
use ipc_project.SrvMng.Lifetime.{got_msg, send_packet}
use ipc_project.SrvMng.Requests.{has_two_strings, packs_two_strings, two_strings_range}
use ipc_project.SrvMng.Sessions.{conversation}

-- What the client hands to `send`: the packet, without the rest of its buffer.
abbrev pub client_sends : Block → Block → ℕ → Exec Block
client_sends message out tag = do
  (size, bytes) ← protocol_pack (some message) (some out) tag
  bytes ← or_fault bytes
  ok (take (to_size size) bytes)

pub overlay_short : (w out : Block) → take (length w) (overlay w out) ≡ w
unfolding overlay
overlay_short w out = take-append w (drop (length w) out)

-- The bytes of a request with two strings.
abbrev pub packet_of : RegisterOrLoginRequest → Block
packet_of r = two_strings_wire r.tag r.username r.password

pub packet-length :
    (r : RegisterOrLoginRequest) → length (packet_of r) ≡ length r.username + length r.password + 4
packet-length r = omega (arith, length-append r.username ((length r.password % 256) ∷ r.password))

module _ (message : Block) (r : RegisterOrLoginRequest) (tag : ℕ)
    (e : read_register_or_login message ≡ ok r) (t : r.tag ≡ tag) (two : has_two_strings tag ≡ true)
    (lu : length r.username < 30) (lp : length r.password < 30) where
  abbrev size : ℕ
  size = length r.username + length r.password + 4

  packed-wire :
      (out : Block)
      → size ≤ length out
      → protocol_pack (some message) (some out) tag
        ≡ ok (pos size, some (overlay (packet_of r) out))
  unfolding protocol_pack
  packed-wire out room =
      let (low, high) = two_strings_range tag two in
      rw
        (
          lt→ltb_no tag 1 low,
          lt→ltb_no 14 tag high,
          packs_two_strings message out tag two,
          pack_register_or_login_request-wire message out r e room,
        )
        refl

  pub client_sends-wire :
      (out : Block) → size ≤ length out → client_sends message out tag ≡ ok (packet_of r)
  client_sends-wire out room = rw (packed-wire out room) (
      ap ok (
        ap (λ n. take n (overlay (packet_of r) out)) (sym (packet-length r))
        ∙ overlay_short (packet_of r) out))

  module _ (L : HashMapLib) (H : IsLawful L) (Q : QueueLib) (W : VectorLib) (memory : Memory)
      (locals : Locals) where
    -- The handler, on a buffer in which the packet lies, does what the conversation does.
    pub got_msg-conversation :
        (buffer : Block) (n i : ℕ) (contxt contxt' : SrvMng L Q W) (packet : Option Packet)
        → size ≤ length buffer
        → conversation L H Q W memory locals contxt message buffer tag ≡ ok (some contxt', packet)
        → got_msg L Q W memory locals (overlay (packet_of r) buffer) n contxt i
          ≡ ok (contxt', send_packet packet i)
    unfolding got_msg
    got_msg-conversation buffer n i contxt contxt' packet room talked =
        let packed = packed-wire buffer room in
        let ran : got_message L Q W memory locals (some (overlay (packet_of r) buffer))
              (some contxt)
            ≡ ok (some contxt', packet) =
          rw (packed) at talked in
        rw ran refl

    module _ (K : ListLib) (E : Type 0) (server : Server K (SrvMng L Q W) E)
        (handler : server.user_func_got_msg ≡ some (got_msg L Q W memory locals)) (round : Round)
        (i : ℕ) (loop : Loop K (SrvMng L Q W) E) (room : size ≤ length loop.buffer) where
      -- The whole way from the client's buffer: the loop hands the packet on, and the
      -- conversation takes place.
      pub serve-conversation :
          (out bytes : Block) (contxt' : SrvMng L Q W) (packet : Option Packet)
          → size ≤ length out
          → client_sends message out tag ≡ ok bytes
          → round.recv i ≡ arrived bytes
          → conversation L H Q W memory locals loop.contxt message loop.buffer tag
            ≡ ok (some contxt', packet)
          → serve K (SrvMng L Q W) E server round i loop
            ≡ ok (
              handed K
                  (SrvMng L Q W)
                  E
                  server
                  false
                  (overlay (packet_of r) loop.buffer)
                  contxt'
                  (send_packet packet i)
                  loop,
              false,
            )
      serve-conversation out bytes contxt' packet room_out sent got talked =
          let both : ok (packet_of r) ≡ ok bytes = sym (client_sends-wire out room_out) ∙ sent in
          let same : (packet_of r) ≡ bytes = cc in
          serve-arrived (packet_of r) (omega (arith, packet-length r)) K (SrvMng L Q W) E server
            (got_msg L Q W memory locals) handler round i loop (got ∙ ap arrived (sym same))
            (got_msg-conversation loop.buffer (length (packet_of r)) i loop.contxt contxt' packet
              room talked)
            (omega arith)
