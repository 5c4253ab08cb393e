-- ===== src/Agent/Identity.antt =====
-- agent.rs: the pinned identity of the household. An address or a MAC is learned on first sight;
-- afterwards a different one is rejected and counted.
pub mod Pinned
pub mod Sighted
use michoi.Agent.{◌∷◌}
use michoi.Common.{ℕ, Bool, true, false, not, ◌&&◌, Option, none, some, List, []}
use michoi.Common.{if◌then◌else◌, str_eq}
use michoi.Net.{Ipv4Addr, ip_eq, is_unspecified}
use michoi.Ethernet.{MacAddress, mac_eq}
use michoi.Protocol.{Station, Endpoints}
use michoi.Agent.{Side, door_side, pad_side, Peers, Agent, add_one32}

abbrev with_peers : Agent → Peers → Agent
with_peers agent peers = record agent { peers = peers }

abbrev with_room_ip : Peers → Ipv4Addr → Peers
with_room_ip peers ip = record peers { room = record (peers.room) { ip = ip } }

abbrev with_door : Peers → Station → Peers
with_door peers door = record peers { door = some door }

-- `warn_mismatch` without its log line.
unfoldable pub warn_mismatch : Agent → Agent
warn_mismatch agent = record agent { mismatches = add_one32 agent.mismatches }

unfoldable pub set_room_ip_if_unset : Ipv4Addr → Agent → Agent
set_room_ip_if_unset ip agent =
    if is_unspecified agent.peers.room.ip && not (is_unspecified ip)
    then with_peers agent (with_room_ip agent.peers ip)
    else agent

abbrev learn_room : Ipv4Addr → Agent → Agent × Bool
learn_room ip agent =
    if is_unspecified agent.peers.room.ip
    then (with_peers agent (with_room_ip agent.peers ip), true)
    else if ip_eq agent.peers.room.ip ip
    then (agent, true)
    else (warn_mismatch agent, false)

abbrev learn_door : Option Station → Ipv4Addr → Agent → Agent × Bool
learn_door none ip agent =
    (with_peers agent (with_door agent.peers (record { id = []; ip = ip })), true)
learn_door (some door) ip agent =
    if is_unspecified door.ip
    then (with_peers agent (with_door agent.peers (record door { ip = ip })), true)
    else if ip_eq door.ip ip
    then (agent, true)
    else (warn_mismatch agent, false)

abbrev learn_side : Side → Ipv4Addr → Agent → Agent × Bool
learn_side pad_side ip agent = learn_room ip agent
learn_side door_side ip agent = learn_door agent.peers.door ip agent

unfoldable pub learn_address : Side → Ipv4Addr → Agent → Agent × Bool
learn_address side ip agent = if is_unspecified ip then (agent, false) else learn_side side ip agent

abbrev mac_slot : Side → Peers → Option MacAddress
mac_slot door_side peers = peers.door_mac
mac_slot pad_side peers = peers.pad_mac

abbrev with_mac : Side → MacAddress → Peers → Peers
with_mac door_side mac peers = record peers { door_mac = some mac }
with_mac pad_side mac peers = record peers { pad_mac = some mac }

abbrev check_mac : Option MacAddress → Side → MacAddress → Agent → Agent × Bool
check_mac none side mac agent = (with_peers agent (with_mac side mac agent.peers), true)
check_mac (some pinned) side mac agent =
    if mac_eq pinned mac then (agent, true) else (warn_mismatch agent, false)

unfoldable pub pin_mac : Side → MacAddress → Agent → Agent × Bool
pin_mac side mac agent = check_mac (mac_slot side agent.peers) side mac agent

-- The first half of `accept_endpoints`: the household and the Pad's address. `none` rejects.
abbrev pub check_room : Endpoints → Peers → Option Peers
check_room e peers =
    if is_unspecified peers.room.ip
    then some (if is_unspecified e.room.ip then peers else with_room_ip peers e.room.ip)
    else if ip_eq peers.room.ip e.room.ip
    then some peers
    else none

abbrev pub is_empty : List ℕ → Bool
is_empty id = str_eq id []

-- The second half: the door station.
abbrev pub check_door : Option Station → Endpoints → Peers → Option Peers
check_door none e peers = some (with_door peers e.door)
check_door (some door) e peers =
    if is_empty door.id && ip_eq door.ip e.door.ip
    then some (with_door peers (record door { id = e.door.id }))
    else if str_eq door.id e.door.id && is_unspecified door.ip
    then some (with_door peers (record door { ip = e.door.ip }))
    else if str_eq door.id e.door.id && ip_eq door.ip e.door.ip
    then some peers
    else none

-- The outcome of the door's check. The Pad's address is written before it, and stays.
abbrev pub settle : Agent → Option Peers → Agent × Option Peers
settle agent none = (warn_mismatch agent, none)
settle agent (some peers) = (with_peers agent peers, some peers)

abbrev pub after_room : Endpoints → Agent → Option Peers → Agent × Option Peers
after_room e agent none = (warn_mismatch agent, none)
after_room e agent (some peers) = settle (with_peers agent peers) (check_door peers.door e peers)

unfoldable pub accept_endpoints : Endpoints → Agent → Agent × Option Peers
accept_endpoints e agent =
    if not (str_eq e.room.id agent.peers.room.id)
    then (agent, none)
    else after_room e agent (check_room e agent.peers)

-- One sighting on the wire, as one of the operations above.
pub data Sighting : Type 0 where
  room_address : Ipv4Addr → Sighting
  address : Side → Ipv4Addr → Sighting
  mac : Side → MacAddress → Sighting
  session : Endpoints → Sighting

abbrev pub observe : Sighting → Agent → Agent
unfolding set_room_ip_if_unset learn_address pin_mac accept_endpoints
observe (room_address ip) agent = set_room_ip_if_unset ip agent
observe (address side ip) agent = (learn_address side ip agent).0
observe (mac side m) agent = (pin_mac side m agent).0
observe (session e) agent = (accept_endpoints e agent).0

abbrev pub observe_all : List Sighting → Agent → Agent
unfolding observe
observe_all [] agent = agent
observe_all (s ∷ ss) agent = observe_all ss (observe s agent)
