-- ===== src/Wire/Udp.antt =====
-- wire_udp.rs: this process is the Pad, on a UDP socket. What the socket and the kernel's routing do
-- is a parameter.
use michoi.Common.{ℕ, Bool, Option, none, some, List, Result, ok, err, if◌then◌else◌}
use michoi.Net.{Ipv4Addr}
use michoi.Net.Address.{SocketAddr, v4, v6}
use michoi.Protocol.Split.{split_coalesced}
use michoi.Agent.{
  door_side, Agent, Clock, Effect, handshake_reply, send_as_pad, on_remote_claim, on_call_end,
  acked, cancelled,
}
use michoi.Agent.Identity.{set_room_ip_if_unset, learn_address}
use michoi.Agent.Dispatch.{Step, on_wire}
use michoi.Wire.{WireError, no_door_yet, not_sent, each_of}

pub record UdpWire : Type 0 where
  pub peer : Option SocketAddr

-- `bind`, behind the socket.
abbrev pub bound : UdpWire
bound = record { peer = none }

abbrev only_v4 : Option SocketAddr → Option Ipv4Addr
only_v4 (some (v4 ip _)) = some ip
only_v4 _ = none

-- `local_ip_toward`: `route` is the address that the kernel gives a socket connected to the peer.
unfoldable pub local_ip_toward : (SocketAddr → Option SocketAddr) → SocketAddr → Option Ipv4Addr
local_ip_toward route peer = only_v4 (route peer)

abbrev pub set_room : Option Ipv4Addr → Agent → Agent
set_room none agent = agent
set_room (some ip) agent = set_room_ip_if_unset ip agent

-- What the address of the sender teaches the Agent.
unfoldable pub learn_sender : (SocketAddr → Option SocketAddr) → SocketAddr → Agent → Agent
learn_sender route (v6 ip port) agent = agent
learn_sender route (v4 ip port) agent =
    (learn_address door_side ip (set_room (local_ip_toward route (v4 ip port)) agent)).0

-- The body of the loop of `run`: one datagram from `from`.
unfoldable pub receive :
    (SocketAddr → Option SocketAddr)
    → (ℕ → Clock)
    → List ℕ
    → SocketAddr
    → UdpWire
    → Agent
    → UdpWire × Step
receive route clocks datagram from wire agent = (
  record wire { peer = some from },
  each_of (λ clock raw. on_wire clock door_side raw) clocks (split_coalesced datagram)
      (learn_sender route from agent),
)

-- A datagram on its way: its bytes and its destination.
abbrev pub Datagram : Type 0
Datagram = List ℕ × SocketAddr

-- `try_send_to`, where `accepts` tells whether the socket takes the datagram.
abbrev pub send_to : (Datagram → Bool) → List ℕ → Option SocketAddr → Result WireError Datagram
send_to accepts payload none = err no_door_yet
send_to accepts payload (some peer) =
    if accepts (payload, peer) then ok (payload, peer) else err not_sent

unfoldable pub send : (Datagram → Bool) → List ℕ → UdpWire → Result WireError Datagram
send accepts payload wire = send_to accepts payload wire.peer

-- The methods of `Wire`: `none` is for those that do nothing.
unfoldable pub perform : (Datagram → Bool) → UdpWire → Effect → Option (Result WireError Datagram)
perform accepts wire (handshake_reply payload peers) = some (send accepts payload wire)
perform accepts wire (send_as_pad payload peers) = some (send accepts payload wire)
perform accepts wire (on_remote_claim peers) = none
perform accepts wire (on_call_end peers) = none
perform accepts wire (acked _) = none
perform accepts wire (cancelled _) = none
