-- ===== src/Discovery.antt =====
-- discovery.rs: the service behind UDP 10008. The socket and the oneshot channels are the list of
-- `Notice`s that a step gives; a waiter is named by a number.
pub mod Exchange
use michoi.Common.{ℕ, Bool, Option, none, some, List, [], ◌∷◌, ◌++◌}
use michoi.Common.{if◌then◌else◌, str_eq, str_key, lookup, insert, remove, Result, ok, err}
use michoi.Common.Bytes.{Str}
use michoi.Net.{Ipv4Addr}
use michoi.Protocol.{ProtocolError}
use michoi.Protocol.Discovery.{
  discovery_request, discovery_reply, discovery_request_room, discovery_reply_room,
}

pub record DiscoveryService : Type 0 where
  pub device_id : Option Str
  pub pending : List (Str × List ℕ)

-- A datagram to the sender of the one that is handled, a datagram to the broadcast address, an
-- address for a waiter, and a waiter whose channel is closed without one.
pub data Notice : Type 0 where
  answer : List ℕ → Notice
  ask : List ℕ → Notice
  found : ℕ → Ipv4Addr → Notice
  closed : ℕ → Notice

unfoldable pub bind : Option Str → DiscoveryService
bind device_id = record { device_id = device_id; pending = [] }

abbrev pub complete : Ipv4Addr → List ℕ → List Notice
complete ip [] = []
complete ip (tx ∷ rest) = found tx ip ∷ complete ip rest

abbrev pub close_all : List ℕ → List Notice
close_all [] = []
close_all (tx ∷ rest) = closed tx ∷ close_all rest

abbrev pub waiters_of : Option (List ℕ) → List ℕ
waiters_of none = []
waiters_of (some waiters) = waiters

abbrev pub send_reply : Result ProtocolError (List ℕ) → List Notice
send_reply (ok raw) = answer raw ∷ []
send_reply (err _) = []

abbrev pub on_query : DiscoveryService → Option Str → Option Str → List Notice
on_query service (some id) (some ours) =
    let reply = discovery_reply ours in if str_eq id ours then send_reply reply else []
on_query service _ _ = []

abbrev pub on_reply :
    DiscoveryService → Ipv4Addr → List ℕ → Option Str → DiscoveryService × List Notice
on_reply service ip datagram (some id) = (
  record service { pending = remove id service.pending },
  complete ip (waiters_of (lookup id service.pending)),
)
on_reply service ip datagram none =
    (service, on_query service (discovery_request_room datagram) service.device_id)

-- One turn of the loop of `run`, for a datagram from an IPv4 address.
unfoldable pub on_datagram : Ipv4Addr → List ℕ → DiscoveryService → DiscoveryService × List Notice
on_datagram ip datagram service = on_reply service ip datagram (discovery_reply_room datagram)

abbrev pub asked : Result ProtocolError (List ℕ) → List Notice
asked (ok raw) = ask raw ∷ []
asked (err _) = []

-- `resolve` up to the wait, for the waiter `tx`.
unfoldable pub resolve : Str → ℕ → DiscoveryService → DiscoveryService × List Notice
resolve id tx service = (
  record service {
    pending = insert id (waiters_of (lookup id service.pending) ++ (tx ∷ [])) service.pending;
  },
  asked (discovery_request id),
)

abbrev pub cleared : Str → DiscoveryService → Option (List ℕ) → DiscoveryService × List Notice
cleared id service none = (service, [])
cleared id service (some waiters) =
    (record service { pending = insert id [] service.pending }, close_all waiters)

-- The end of the wait of a `resolve` without an address: `v.clear()` drops what waits for the
-- identifier.
unfoldable pub timed_out : Str → DiscoveryService → DiscoveryService × List Notice
timed_out id service = cleared id service (lookup id service.pending)
