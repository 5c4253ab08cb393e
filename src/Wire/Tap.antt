-- ===== src/Wire/Tap.antt =====
-- wire_tap.rs: a physical Pad stays, and this process taps the bridge. What the packet socket and
-- the `nft` program do is a parameter.
pub mod Inject
use michoi.Common.{
  ℕ, ◌+◌, ◌%◌, Bool, true, false, not, ◌&&◌, ◌||◌, Option, none, some, List, [], ◌∷◌, ◌==◌, str_eq,
  if◌then◌else◌, Result, ok, err,
}
use michoi.Common.Bytes.{Str}
use michoi.Net.{ip_eq}
use michoi.Ethernet.{EthernetUdp, EthernetError, parse_frame}
use michoi.Protocol.{Message, Endpoints, ProtocolError, parse_message, message_endpoints}
use michoi.Protocol.Family
use michoi.Protocol.Discovery.{discovery_request_room, discovery_reply_room}
use michoi.Protocol.Split.{split_coalesced}
use michoi.Agent.{Side, door_side, pad_side, Agent, Clock, Effect}
use michoi.Agent.Identity.{learn_address, pin_mac}
use michoi.Agent.Dispatch.{Step, on_wire}
use michoi.Wire.{each_of}

pub record TapWire : Type 0 where
  pub pad_interface : Str
  pub door_interface : Str
  pub discovery_port : ℕ
  pub seq : ℕ

abbrev pub is_room : Option Str → Str → Bool
is_room none device_id = false
is_room (some room) device_id = str_eq room device_id

abbrev pub pin_if : Side → EthernetUdp → Agent × Bool → Agent
pin_if side udp (agent, learned) =
    let pinned = (pin_mac side udp.source_mac agent).0 in if learned then pinned else agent

-- `if agent.learn_address(..) { agent.pin_mac(..) }`
abbrev pub learn_both : Side → EthernetUdp → Agent → Agent
learn_both side udp agent = pin_if side udp (learn_address side udp.source_ip agent)

unfoldable pub on_discovery : Str → EthernetUdp → Agent → Agent
on_discovery device_id udp agent =
    if is_room (discovery_request_room udp.payload) device_id
    then learn_both door_side udp agent
    else if is_room (discovery_reply_room udp.payload) device_id
    then learn_both pad_side udp agent
    else agent

-- Which station a session message came from.
unfoldable pub side_of : EthernetUdp → Endpoints → Option Side
side_of udp e =
    if ip_eq udp.source_ip e.room.ip
    then some pad_side
    else if ip_eq udp.source_ip e.door.ip
    then some door_side
    else none

abbrev pub heard : Clock → Side → List ℕ → Agent × Bool → Step
heard clock side raw (agent, pinned) =
    let heard_step = on_wire clock side raw agent in if pinned then heard_step else some (agent, [])

abbrev pub from_side : Clock → EthernetUdp → List ℕ → Agent → Option Side → Step
from_side clock udp raw agent none = some (agent, [])
from_side clock udp raw agent (some side) = heard clock side raw (pin_mac side udp.source_mac agent)

abbrev pub with_endpoints : Clock → Str → EthernetUdp → List ℕ → Agent → Option Endpoints → Step
with_endpoints clock device_id udp raw agent none = some (agent, [])
with_endpoints clock device_id udp raw agent (some e) =
    if not (str_eq e.room.id device_id)
    then some (agent, [])
    else from_side clock udp raw agent (side_of udp e)

abbrev pub by_family :
    Clock → Str → EthernetUdp → List ℕ → Agent → Result ProtocolError Message → Step
by_family clock device_id udp raw agent (err _) = some (agent, [])
by_family clock device_id udp raw agent (ok m) =
    if m.family == Family.monitor || m.family == Family.elevator
    then on_wire clock door_side raw agent
    else if m.family == Family.session
    then with_endpoints clock device_id udp raw agent (message_endpoints m)
    else some (agent, [])

-- The body of the inner loop: one message of a datagram.
unfoldable pub on_message : Str → EthernetUdp → Clock → List ℕ → Agent → Step
on_message device_id udp clock raw agent =
    by_family clock device_id udp raw agent (parse_message raw)

unfoldable pub on_datagram : (ℕ → Clock) → Str → TapWire → EthernetUdp → Agent → Step
on_datagram clocks device_id wire udp agent =
    let control = agent.peers.control_port in
    if udp.destination_port == wire.discovery_port || udp.source_port == wire.discovery_port
    then some (on_discovery device_id udp agent, [])
    else if not (udp.source_port == control) && not (udp.destination_port == control)
    then some (agent, [])
    else each_of (on_message device_id udp) clocks (split_coalesced udp.payload) agent

abbrev pub on_parsed : (ℕ → Clock) → Str → TapWire → Agent → Result EthernetError EthernetUdp → Step
on_parsed clocks device_id wire agent (err _) = some (agent, [])
on_parsed clocks device_id wire agent (ok udp) = on_datagram clocks device_id wire udp agent

-- The body of the loop of `run`: one frame of the bridge.
unfoldable pub on_frame : (ℕ → Clock) → Str → TapWire → List ℕ → Agent → Step
on_frame clocks device_id wire frame agent =
    on_parsed clocks device_id wire agent (parse_frame frame)
