-- ===== src/Wire/Total.antt =====
-- wire_udp.rs and wire_tap.rs: whatever arrives on a wire, the Agent behind it is left sound.
use michoi.Agent.{send_as_pad}
use michoi.Wire.{not_sent}
use michoi.Agent.{handshake_reply}
use michoi.Agent.{Peers}
use michoi.Common.{if◌then◌else◌}
use michoi.Wire.{WireError}
use michoi.Wire.Udp.{send}
use michoi.Wire.Udp.{Datagram}
use michoi.Wire.Udp.{perform}
use michoi.Common.{
  ◌+◌, ℕ, Bool, true, false, not, ◌&&◌, ◌||◌, Option, none, some, List, [], ◌∷◌, ◌++◌, ◌≡◌, refl,
  inl, inr, Bool-cases, Result, ok, err, ◌==◌, str_eq,
}
use michoi.Net.{Ipv4Addr}
use michoi.Net.Address.{SocketAddr, v4, v6}
use michoi.Ethernet.{EthernetUdp, EthernetError, parse_frame}
use michoi.Protocol.{Message, Endpoints, ProtocolError, parse_message, message_endpoints}
use michoi.Protocol.Family
use michoi.Protocol.Discovery.{discovery_request_room, discovery_reply_room}
use michoi.Protocol.Split.{split_coalesced}
use michoi.Protocol.Split.Total.{split_coalesced_total}
use michoi.Agent.{Side, door_side, pad_side, Agent, Clock}
use michoi.Agent.Identity.{learn_address, pin_mac}
use michoi.Agent.Identity.Sighted.{
  set_room_ip_if_unset-IsKept, learn_address-IsKept, pin_mac-IsKept,
}
use michoi.Agent.Identity.Pinned.{KeepsPins-trans, KeepsPins-same}
use michoi.Agent.Dispatch.{Step, on_wire}
use michoi.Agent.Dispatch.Kept.{IsSound, IsKept, IsDone, Untouched-same, Untouched-IsDone}
use michoi.Agent.Dispatch.Total.{on_wire_total, later-IsDone}
use michoi.Wire.{and_then, each, each_of}
use michoi.Wire.Udp.{UdpWire, receive, learn_sender, set_room, local_ip_toward}
use michoi.Wire.Tap.{
  TapWire, is_room, learn_both, on_discovery, side_of, from_side, with_endpoints, by_family,
  on_message, on_datagram, on_parsed, on_frame, pin_if, heard,
}

-- A handler that keeps every sound Agent sound.
abbrev Keeps : (Clock → List ℕ → Agent → Step) → Type 0
Keeps handle =
    (clock : Clock) (raw : List ℕ) (agent : Agent)
    → IsSound agent
    → IsDone agent (handle clock raw agent)

nothing-IsDone : (agent : Agent) → IsSound agent → IsDone agent (some (agent, []))
nothing-IsDone agent s = Untouched-IsDone agent agent [] s (Untouched-same agent)

and_then-IsDone :
    (agent : Agent) (step : Step) (next : Agent → Step)
    → IsDone agent step
    → ((after : Agent) → IsSound after → IsDone after (next after))
    → IsDone agent (and_then step next)
and_then-IsDone agent step next (middle, (effects, (e, kept))) h =
    let (after, (more, (e', (s, p)))) = h middle kept.0 in
    (
      after,
      (
        effects ++ more,
        (rw (e, e') refl, (s, KeepsPins-trans agent.peers middle.peers after.peers kept.1 p)),
      ),
    )

each-IsDone :
    (handle : Clock → List ℕ → Agent → Step)
    → Keeps handle
    → (clocks : ℕ → Clock) (parts : List (List ℕ)) (agent : Agent) → IsSound agent
    → IsDone agent (each handle clocks parts agent)
unfolding each
each-IsDone handle h clocks [] agent s = nothing-IsDone agent s
each-IsDone handle h clocks (raw ∷ rest) agent s =
    and_then-IsDone agent (handle (clocks 0) raw agent) _ (h (clocks 0) raw agent s)
      (λ after s'. each-IsDone handle h (λ n. clocks (n + 1)) rest after s')

each_of-IsDone :
    (handle : Clock → List ℕ → Agent → Step)
    → Keeps handle
    → (clocks : ℕ → Clock) (payload : List ℕ) (agent : Agent) → IsSound agent
    → IsDone agent (each_of handle clocks (split_coalesced payload) agent)
each_of-IsDone handle h clocks payload agent s =
    let (parts, e, _, _) = split_coalesced_total payload in
    rw e (each-IsDone handle h clocks parts agent s)

kept-IsDone :
    (before agent : Agent) (step : Step)
    → IsKept before agent
    → (IsSound agent → IsDone agent step)
    → IsDone before step
kept-IsDone before agent step kept h = later-IsDone before agent step kept.1 (h kept.0)

IsKept-trans : (p q r : Agent) → IsKept p q → IsKept q r → IsKept p r
IsKept-trans p q r h k = (k.0, KeepsPins-trans p.peers q.peers r.peers h.1 k.1)

IsKept-same : (p : Agent) → IsSound p → IsKept p p
IsKept-same p s = (s, KeepsPins-same p.peers)

kept_only : (p q : Agent) → IsKept p q → IsDone p (some (q, []))
kept_only p q kept = (q, ([], (refl, kept)))

set_room-IsKept :
    (o : Option Ipv4Addr) (agent : Agent) → IsSound agent → IsKept agent (set_room o agent)
set_room-IsKept none agent s = IsKept-same agent s
set_room-IsKept (some ip) agent s = set_room_ip_if_unset-IsKept ip agent s

learn_sender-IsKept :
    (route : SocketAddr → Option SocketAddr) (from : SocketAddr) (agent : Agent)
    → IsSound agent
    → IsKept agent (learn_sender route from agent)
unfolding learn_sender
learn_sender-IsKept route (v6 ip port) agent s = IsKept-same agent s
learn_sender-IsKept route (v4 ip port) agent s =
    let a : Agent = set_room (local_ip_toward route (v4 ip port)) agent in
    let known : IsKept agent a = set_room-IsKept (local_ip_toward route (v4 ip port)) agent s in
    IsKept-trans agent a (learn_address door_side ip a).0 known
      (learn_address-IsKept door_side ip a known.0)

-- The payload leaves for this address if the socket takes it, and else there is an error.
abbrev pub SendsTo :
    SocketAddr → (Datagram → Bool) → List ℕ → Option (Result WireError Datagram) → Type 0
SendsTo address accepts payload sent =
    sent ≡ some (if accepts (payload, address) then ok (payload, address) else err not_sent)

-- Whatever datagram arrives on the Pad's socket, from whichever address, and whatever the kernel
-- says of the route to it: the loop's body gives an outcome; the ring's accounting and the
-- reassembler's order hold afterwards if they held before; every pinned address, identifier and MAC
-- is unchanged; and the reply to a handshake and what is sent as the Pad go to that sender next, or
-- to nobody when the socket refuses them.
pub receive_total :
    (route : SocketAddr → Option SocketAddr) (clocks : ℕ → Clock) (datagram : List ℕ)
    (from : SocketAddr) (wire : UdpWire) (agent : Agent) (accepts : Datagram → Bool)
    (payload : List ℕ) (peers : Peers)
    → IsSound agent
    → IsDone agent (receive route clocks datagram from wire agent).1
      × SendsTo from accepts payload (
          perform accepts
            (receive route clocks datagram from wire agent).0
            (handshake_reply payload peers))
      × SendsTo from accepts payload (
          perform accepts
            (receive route clocks datagram from wire agent).0
            (send_as_pad payload peers))
unfolding receive perform send
receive_total route clocks datagram from wire agent accepts payload peers s = (
  kept-IsDone agent (learn_sender route from agent) _ (learn_sender-IsKept route from agent s) (
      each_of-IsDone (λ clock raw. on_wire clock door_side raw)
        (λ clock raw a. on_wire_total clock door_side raw a) clocks datagram
        (learn_sender route from agent)),
  refl,
  refl,
)

learn_both-IsKept :
    (side : Side) (udp : EthernetUdp) (agent : Agent)
    → IsSound agent
    → IsKept agent (learn_both side udp agent)
learn_both-IsKept side udp agent s =
    pinned (learn_address side udp.source_ip agent)
      (learn_address-IsKept side udp.source_ip agent s)
  where
    pinned : (o : Agent × Bool) → IsKept agent o.0 → IsKept agent (pin_if side udp o)
    pinned (a, true) kept =
        IsKept-trans agent a (pin_mac side udp.source_mac a).0 kept
          (pin_mac-IsKept side udp.source_mac a kept.0)
    pinned (a, false) kept = kept

on_discovery-IsKept :
    (device_id : List ℕ) (udp : EthernetUdp) (agent : Agent)
    → IsSound agent
    → IsKept agent (on_discovery device_id udp agent)
unfolding on_discovery
on_discovery-IsKept device_id udp agent s =
    elim (Bool-cases (is_room (discovery_request_room udp.payload) device_id)) [
      | inl e ↦ rw e (learn_both-IsKept door_side udp agent s)
      | inr e ↦ elim (Bool-cases (is_room (discovery_reply_room udp.payload) device_id)) [
        | inl f ↦ rw (e, f) (learn_both-IsKept pad_side udp agent s)
        | inr f ↦ rw (e, f) (IsKept-same agent s)
      ]
    ]

from_side-IsDone :
    (clock : Clock) (udp : EthernetUdp) (raw : List ℕ) (agent : Agent) (o : Option Side)
    → IsSound agent
    → IsDone agent (from_side clock udp raw agent o)
from_side-IsDone clock udp raw agent none s = nothing-IsDone agent s
from_side-IsDone clock udp raw agent (some side) s =
    after_pin (pin_mac side udp.source_mac agent) (pin_mac-IsKept side udp.source_mac agent s)
  where
    after_pin : (o : Agent × Bool) → IsKept agent o.0 → IsDone agent (heard clock side raw o)
    after_pin (a, true) kept = kept-IsDone agent a _ kept (on_wire_total clock side raw a)
    after_pin (a, false) kept = kept_only agent a kept

with_endpoints-IsDone :
    (clock : Clock) (device_id : List ℕ) (udp : EthernetUdp) (raw : List ℕ) (agent : Agent)
    (o : Option Endpoints)
    → IsSound agent
    → IsDone agent (with_endpoints clock device_id udp raw agent o)
with_endpoints-IsDone clock device_id udp raw agent none s = nothing-IsDone agent s
with_endpoints-IsDone clock device_id udp raw agent (some e) s =
    elim (Bool-cases (not (str_eq e.room.id device_id))) [
      | inl other ↦ rw other (nothing-IsDone agent s)
      | inr own ↦ rw own (from_side-IsDone clock udp raw agent (side_of udp e) s)
    ]

by_family-IsDone :
    (clock : Clock) (device_id : List ℕ) (udp : EthernetUdp) (raw : List ℕ) (agent : Agent)
    (r : Result ProtocolError Message)
    → IsSound agent
    → IsDone agent (by_family clock device_id udp raw agent r)
by_family-IsDone clock device_id udp raw agent (err _) s = nothing-IsDone agent s
by_family-IsDone clock device_id udp raw agent (ok m) s =
    elim (Bool-cases (m.family == Family.monitor || m.family == Family.elevator)) [
      | inl e ↦ rw e (on_wire_total clock door_side raw agent s)
      | inr e ↦ elim (Bool-cases (m.family == Family.session)) [
        | inl f ↦
            rw (e, f) (with_endpoints-IsDone clock device_id udp raw agent (message_endpoints m) s)
        | inr f ↦ rw (e, f) (nothing-IsDone agent s)
      ]
    ]

on_message-Keeps : (device_id : List ℕ) (udp : EthernetUdp) → Keeps (on_message device_id udp)
unfolding on_message
on_message-Keeps device_id udp clock raw agent s =
    by_family-IsDone clock device_id udp raw agent (parse_message raw) s

on_datagram-IsDone :
    (clocks : ℕ → Clock) (device_id : List ℕ) (wire : TapWire) (udp : EthernetUdp) (agent : Agent)
    → IsSound agent
    → IsDone agent (on_datagram clocks device_id wire udp agent)
unfolding on_datagram
on_datagram-IsDone clocks device_id wire udp agent s =
    let control = agent.peers.control_port in
    elim (Bool-cases
      (udp.destination_port == wire.discovery_port || udp.source_port == wire.discovery_port)) [
        | inl e ↦ rw e (
            kept_only agent (on_discovery device_id udp agent)
              (on_discovery-IsKept device_id udp agent s))
        | inr e ↦
            elim (Bool-cases
              (not (udp.source_port == control) && not (udp.destination_port == control))) [
                | inl f ↦ rw (e, f) (nothing-IsDone agent s)
                | inr f ↦
                    rw (e, f)
                      (each_of-IsDone (on_message device_id udp) (on_message-Keeps device_id udp)
                        clocks udp.payload agent s)
              ]
      ]

-- Whatever frame is captured on the bridge: the loop's body gives an outcome; the ring's accounting
-- and the reassembler's order hold afterwards if they held before; and every pinned address,
-- identifier and MAC is unchanged.
pub on_frame_total :
    (clocks : ℕ → Clock) (device_id : List ℕ) (wire : TapWire) (frame : List ℕ) (agent : Agent)
    → IsSound agent
    → IsDone agent (on_frame clocks device_id wire frame agent)
unfolding on_frame
on_frame_total clocks device_id wire frame agent s = read (parse_frame frame)
  where
    read :
        (r : Result EthernetError EthernetUdp)
        → IsDone agent (on_parsed clocks device_id wire agent r)
    read (err _) = nothing-IsDone agent s
    read (ok udp) = on_datagram-IsDone clocks device_id wire udp agent s
