-- ===== src/Wire/Tap/Inject.antt =====
-- wire_tap.rs: what the tap sends: frames in the name of the Pad or of the door, and scripts for the
-- firewall.
pub mod ReadBack
use michoi.Common.{
  ℕ, ◌+◌, ◌%◌, Bool, true, false, not, ◌&&◌, Option, none, some, List, [], ◌∷◌, ◌++◌, length, ◌==◌,
  str_eq, if◌then◌else◌, Result, ok, err,
}
use michoi.Common.Bytes.{Str}
use michoi.Net.{Ipv4Addr, is_unspecified}
use michoi.Ethernet.{MacAddress, EthernetError, build_udp_ipv4}
use michoi.Protocol.{Station, Endpoints, ProtocolError}
use michoi.Protocol.Op
use michoi.Protocol.Builders.{session_control}
use michoi.Firewall.{FirewallError, pad_silence_rules, flush_table_command}
use michoi.Agent.{
  Peers, peers_endpoints, add_one32, Effect, handshake_reply, send_as_pad, on_remote_claim,
  on_call_end, acked, cancelled,
}
use michoi.Config.{IntercomConfig, unset_interface}
use michoi.Wire.{
  WireError, not_sent, short_send, door_not_learned, door_ip_not_learned, pad_ip_not_learned,
  door_mac_not_learned, pad_mac_not_learned, interface_missing, not_built,
}
use michoi.Wire.Tap.{TapWire}

-- What leaves the process.
pub data Action : Type 0 where
  frame : List ℕ → Action
  script : Str → Action

abbrev is_set : Str → Bool
is_set value = not (str_eq value []) && not (str_eq value unset_interface)

-- `open`, behind the socket. The script clears what an earlier run left.
unfoldable pub open_tap : IntercomConfig → Result WireError (TapWire × List Action)
open_tap ic =
    if is_set ic.bridge_interface && (is_set ic.pad_interface && is_set ic.door_interface)
    then ok (
      record {
        pad_interface = ic.pad_interface;
        door_interface = ic.door_interface;
        discovery_port = ic.discovery_port;
        seq = 1;
      },
      script flush_table_command ∷ [],
    )
    else err interface_missing

-- `fetch_add(1) as u16`: the number, and the wire behind it.
unfoldable pub next_seq : TapWire → ℕ × TapWire
next_seq wire = (wire.seq % 65536, record wire { seq = add_one32 wire.seq })

abbrev pub sent_all : List ℕ → Option ℕ → Result WireError (List ℕ)
sent_all raw none = err not_sent
sent_all raw (some sent) = if sent == length raw then ok raw else err short_send

abbrev send_built : (List ℕ → Option ℕ) → Result EthernetError (List ℕ) → Result WireError (List ℕ)
send_built socket (err e) = err (not_built e)
send_built socket (ok raw) = sent_all raw (socket raw)

-- The frame that was sent, where `socket` tells how many bytes of a frame it takes.
unfoldable pub inject :
    (List ℕ → Option ℕ)
    → MacAddress
    → MacAddress
    → Ipv4Addr
    → Ipv4Addr
    → ℕ
    → List ℕ
    → TapWire
    → TapWire × Result WireError (List ℕ)
inject socket src_mac dst_mac src_ip dst_ip port payload wire =
    let (identification, later) = next_seq wire in
    (
      later,
      send_built socket
          (build_udp_ipv4 src_mac dst_mac src_ip dst_ip port port payload identification),
    )

-- Both stations' addresses, the Pad's MAC first.
pub record Addresses : Type 0 where
  pub pad_mac : MacAddress
  pub door_mac : MacAddress
  pub pad_ip : Ipv4Addr
  pub door_ip : Ipv4Addr

abbrev pub addresses_with :
    Ipv4Addr → Ipv4Addr → Option MacAddress → Option MacAddress → Result WireError Addresses
addresses_with pad_ip door_ip none pad_mac = err door_mac_not_learned
addresses_with pad_ip door_ip (some door_mac) none = err pad_mac_not_learned
addresses_with pad_ip door_ip (some door_mac) (some pad_mac) =
    ok (record { pad_mac = pad_mac; door_mac = door_mac; pad_ip = pad_ip; door_ip = door_ip })

abbrev pub addresses_of : Option Station → Peers → Result WireError Addresses
addresses_of none peers = err door_not_learned
addresses_of (some door) peers =
    if is_unspecified door.ip
    then err door_ip_not_learned
    else if is_unspecified peers.room.ip
    then err pad_ip_not_learned
    else addresses_with peers.room.ip door.ip peers.door_mac peers.pad_mac

unfoldable pub addresses : Peers → Result WireError Addresses
addresses peers = addresses_of peers.door peers

abbrev sent_as_pad :
    (List ℕ → Option ℕ)
    → List ℕ
    → ℕ
    → TapWire
    → Result WireError Addresses
    → TapWire × Result WireError (List ℕ)
sent_as_pad socket payload port wire (err e) = (wire, err e)
sent_as_pad socket payload port wire (ok a) =
    inject socket a.pad_mac a.door_mac a.pad_ip a.door_ip port payload wire

-- `send_as_pad`
unfoldable pub tap_send_as_pad :
    (List ℕ → Option ℕ) → List ℕ → Peers → TapWire → TapWire × Result WireError (List ℕ)
tap_send_as_pad socket payload peers wire =
    sent_as_pad socket payload peers.control_port wire (addresses peers)

abbrev frame_of : TapWire × Result WireError (List ℕ) → TapWire × List Action
frame_of (wire, err _) = (wire, [])
frame_of (wire, ok raw) = (wire, frame raw ∷ [])

abbrev silence : Result FirewallError Str → List Action
silence (err _) = []
silence (ok rules) = script rules ∷ []

abbrev reset_with :
    (List ℕ → Option ℕ)
    → Addresses
    → ℕ
    → TapWire
    → Result ProtocolError (List ℕ)
    → TapWire × List Action
reset_with socket a port wire (err _) = (wire, [])
reset_with socket a port wire (ok reset) =
    frame_of (inject socket a.door_mac a.pad_mac a.door_ip a.pad_ip port reset wire)

abbrev reset_pad :
    (List ℕ → Option ℕ) → Addresses → ℕ → TapWire → Option Endpoints → TapWire × List Action
reset_pad socket a port wire none = (wire, [])
reset_pad socket a port wire (some e) = reset_with socket a port wire (session_control Op.hangup e)

abbrev claimed :
    (List ℕ → Option ℕ) → Peers → TapWire → Result WireError Addresses → TapWire × List Action
claimed socket peers wire (err _) = (wire, [])
claimed socket peers wire (ok a) =
    let (later, sent) = reset_pad socket a peers.control_port wire (peers_endpoints peers) in
    (
      later,
      silence (
            pad_silence_rules wire.pad_interface wire.door_interface a.door_ip a.pad_ip
              peers.control_port)
          ++ sent,
    )

-- `on_remote_claim`. A script that `nft` refuses is only logged.
unfoldable pub tap_on_remote_claim : (List ℕ → Option ℕ) → Peers → TapWire → TapWire × List Action
tap_on_remote_claim socket peers wire = claimed socket peers wire (addresses peers)

-- The methods of `Wire`.
unfoldable pub perform : (List ℕ → Option ℕ) → TapWire → Effect → TapWire × List Action
perform socket wire (handshake_reply payload peers) = (wire, [])
perform socket wire (send_as_pad payload peers) =
    frame_of (tap_send_as_pad socket payload peers wire)
perform socket wire (on_remote_claim peers) = tap_on_remote_claim socket peers wire
perform socket wire (on_call_end peers) = (wire, script flush_table_command ∷ [])
perform socket wire (acked _) = (wire, [])
perform socket wire (cancelled _) = (wire, [])
