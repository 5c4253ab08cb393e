-- ===== src/Examples/Wires.antt =====
-- wire_udp.rs, wire_tap.rs and config.rs: the theorems at concrete datagrams and frames.
use michoi.Wire.Udp.{UdpWire}
use michoi.Common.{ℕ, ◌≡◌, refl, true, none, some, Option, List, [], ◌∷◌, ◌++◌, ok, length, arith}
use michoi.Common.Bytes.{Str, ascii}
use michoi.Call.{idle}
use michoi.Net.Address.{SocketAddr, v4}
use michoi.Config.{Config, default_config}
use michoi.Common.Text.{split_once, split, from_str_radix}
use michoi.Net.Address.{parse_ip_text}
use michoi.Config.Check.{subnet_broadcast, IsChecked, validate, validate_lem}
use michoi.Ethernet.{MacAddress, parse_frame}
use michoi.MediaRing.Accounting.{new-IsWithin}
use michoi.MediaRing
use michoi.Protocol.{packet, parse_message, Endpoints}
use michoi.Protocol.Family
use michoi.Protocol.Op
use michoi.Protocol.Jpeg.{empty}
use michoi.Protocol.Jpeg.Tidy.{empty-IsTidy}
use michoi.Protocol.RoundTrip.{message_of, endpoints_block}
use michoi.Agent.{Agent, Peers}
use michoi.Agent.Dispatch.Kept.{IsDone}
use michoi.Firewall.{pad_silence_rules, table_of, drop_rule}
use michoi.Wire.Udp.{receive, bound}
use michoi.Wire.Tap.{TapWire, on_frame}
use michoi.Wire.Tap.Inject.{script, frame, Addresses, tap_on_remote_claim}
use michoi.Wire.Tap.Inject.ReadBack.{udp_of, tap_on_remote_claim_lem}
use michoi.Wire.Udp.{perform as perform_udp}
use michoi.Agent.{handshake_reply, send_as_pad}
use michoi.Agent.Dispatch.{Step}
use michoi.Wire.Total.{SendsTo, receive_total, on_frame_total}
use michoi.Examples.Agents.{agent_in, clock, here, there, home, front_door, flat}

abbrev new_agent : Agent
new_agent = agent_in idle none (MediaRing.new 1000 64) empty

abbrev door_address : SocketAddr
door_address = v4 here 10000

abbrev doorbell : List ℕ
doorbell = packet 0x00b7 1 80 []

abbrev after_doorbell : UdpWire × Step
after_doorbell =
    receive (λ _. some (v4 there 10000)) (λ _. clock) doorbell door_address bound new_agent

receive_total_example :
    IsDone new_agent after_doorbell.1
    × SendsTo door_address
        (λ _. true)
        (ascii "hello")
        (perform_udp (λ _. true) after_doorbell.0 (handshake_reply (ascii "hello") new_agent.peers))
    × SendsTo door_address
        (λ _. true)
        (ascii "hello")
        (perform_udp (λ _. true) after_doorbell.0 (send_as_pad (ascii "hello") new_agent.peers))
receive_total_example =
    receive_total (λ _. some (v4 there 10000)) (λ _. clock) doorbell door_address bound new_agent
      (λ _. true) (ascii "hello") new_agent.peers (new-IsWithin 1000 64, empty-IsTidy)

abbrev tap : TapWire
tap = record {
  pad_interface = ascii "lan2";
  door_interface = ascii "lan1";
  discovery_port = 10008;
  seq = 1;
}

-- One byte from the discovery port to the discovery port.
abbrev captured : List ℕ
captured =
    2 ∷ 0 ∷ 0 ∷ 0 ∷ 0 ∷ 2 ∷ 2 ∷ 0 ∷ 0 ∷ 0 ∷ 0 ∷ 1 ∷ 8 ∷ 0 ∷ 0x45 ∷ 0 ∷ 0 ∷ 29 ∷ 0 ∷ 1 ∷ 0x40 ∷ 0
    ∷ 64 ∷ 17 ∷ 0 ∷ 0 ∷ 10 ∷ 0 ∷ 0 ∷ 2 ∷ 10 ∷ 0 ∷ 0 ∷ 3 ∷ 39 ∷ 24 ∷ 39 ∷ 24 ∷ 0 ∷ 9 ∷ 0 ∷ 0 ∷ 1 ∷ []

on_frame_total_example :
    IsDone new_agent (on_frame (λ _. clock) (ascii "S1") tap captured new_agent)
on_frame_total_example =
    on_frame_total (λ _. clock) (ascii "S1") tap captured new_agent
      (new-IsWithin 1000 64, empty-IsTidy)

abbrev door_mac : MacAddress
door_mac = record { bytes = 2 ∷ 0 ∷ 0 ∷ 0 ∷ 0 ∷ 1 ∷ [] }

abbrev pad_mac : MacAddress
pad_mac = record { bytes = 2 ∷ 0 ∷ 0 ∷ 0 ∷ 0 ∷ 2 ∷ [] }

abbrev known : Peers
known = record home { door_mac = some door_mac; pad_mac = some pad_mac }

abbrev both : Addresses
both = record { pad_mac = pad_mac; door_mac = door_mac; pad_ip = there; door_ip = here }

abbrev stations : Endpoints
stations = record { door = front_door; room = flat }

abbrev rules : Str
rules = table_of (drop_rule (ascii "lan1") here 10000 ++ drop_rule (ascii "lan2") there 10000)

tap_on_remote_claim_lem_example :
    (raw : List ℕ) × (reset : List ℕ) × ((tap_on_remote_claim (λ r. some (length r)) known tap).1
      ≡ script rules ∷ frame raw ∷ [])
    × (parse_frame raw ≡ ok (udp_of door_mac pad_mac here there 10000 reset))
    × (parse_message reset ≡ ok (message_of Family.session Op.hangup 80 (endpoints_block stations)))
unfolding michoi.Wire.Tap.Inject.addresses michoi.Agent.peers_endpoints
    michoi.Protocol.RoundTrip.FitWire pad_silence_rules michoi.Common.Tests.str_eq
tap_on_remote_claim_lem_example =
    tap_on_remote_claim_lem (λ r. some (length r)) known both stations rules tap (λ _. refl) refl
      (record { pad_mac = refl; door_mac = refl; fits = omega arith }) refl
      (omega arith, omega arith) refl

abbrev flat_config : Config
flat_config = record default_config {
  intercom = record (default_config.intercom) {
    device_id = ascii "S1";
    subnet = some (ascii "10.0.0.0/24");
  };
}

flat_config-valid : validate flat_config ≡ ok tt
unfolding validate subnet_broadcast default_config michoi.Config.default_intercom
    michoi.Config.default_security michoi.Config.default_media split_once split parse_ip_text
    from_str_radix michoi.Common.Tests.str_eq
flat_config-valid = refl

validate_lem_example : IsChecked flat_config
validate_lem_example = validate_lem flat_config flat_config-valid
