-- ===== src/Wire/Tap/Inject/ReadBack.antt =====
-- wire_tap.rs: what the tap sends is read on the bridge as what it stands for.
use michoi.Common.{
  ℕ, Option, some, List, [], ◌∷◌, ◌≡◌, refl, ap, ◌∙◌, ◌<◌, ◌≤◌, length, Result, ok, err, is_ok,
  ◌>>=◌,
}
use michoi.Net.{Ipv4Addr}
use michoi.Ethernet.{MacAddress, EthernetUdp, EthernetError, parse_frame, build_udp_ipv4}
use michoi.Ethernet.RoundTrip.{parse-build_udp_ipv4}
use michoi.Protocol.{Endpoints, parse_message, packet}
use michoi.Protocol.Family
use michoi.Protocol.Op
use michoi.Protocol.Builders.{session_control}
use michoi.Protocol.RoundTrip.{
  pack_endpoints_fits, FitWire, endpoints_block, parse-packet, message_of, length-endpoints_block,
}
use michoi.Firewall.{pad_silence_rules}
use michoi.Agent.{Peers, peers_endpoints}
use michoi.Wire.Tap.{TapWire}
use michoi.Wire.Tap.Inject.{
  frame, script, Addresses, addresses, inject, next_seq, send_built, sent_all, tap_send_as_pad,
  tap_on_remote_claim,
}
use mathlib.Core.Bool.{false≢true}
use michoi.Common.{==_refl, arith}

-- The packet socket takes whole frames.
abbrev pub TakesWhole : (List ℕ → Option ℕ) → Type 0
TakesWhole socket = (raw : List ℕ) → socket raw ≡ some (length raw)

-- Two MAC addresses of six octets each, and a port.
pub record IsWired (a : Addresses) (port : ℕ) : Type 0 where
  pub pad_mac : length a.pad_mac.bytes ≡ 6
  pub door_mac : length a.door_mac.bytes ≡ 6
  pub fits : port < 65536

built :
    (r : Result EthernetError (List ℕ)) (udp : EthernetUdp)
    → (r >>= parse_frame) ≡ ok udp
    → (raw : List ℕ) × (r ≡ ok raw) × (parse_frame raw ≡ ok udp)
built (ok raw) udp h = (raw, refl, h)
built (err e) udp h = absurd (false≢true (ap is_ok h))

sent_all_whole :
    (socket : List ℕ → Option ℕ) (raw : List ℕ)
    → TakesWhole socket
    → sent_all raw (socket raw) ≡ ok raw
sent_all_whole socket raw h = rw (h raw, ==_refl (length raw)) refl

abbrev pub udp_of : MacAddress → MacAddress → Ipv4Addr → Ipv4Addr → ℕ → List ℕ → EthernetUdp
udp_of src_mac dst_mac src_ip dst_ip port payload = record {
  source_mac = src_mac;
  destination_mac = dst_mac;
  source_ip = src_ip;
  destination_ip = dst_ip;
  source_port = port;
  destination_port = port;
  payload = payload;
}

inject_lem :
    (socket : List ℕ → Option ℕ) (src_mac dst_mac : MacAddress) (src_ip dst_ip : Ipv4Addr)
    (port : ℕ) (payload : List ℕ) (wire : TapWire)
    → TakesWhole socket
    → length src_mac.bytes ≡ 6
    → length dst_mac.bytes ≡ 6
    → port < 65536
    → length payload ≤ 65507
    → (raw : List ℕ) × ((inject socket src_mac dst_mac src_ip dst_ip port payload wire
          ≡ ((next_seq wire).1, ok raw))
        × (parse_frame raw ≡ ok (udp_of src_mac dst_mac src_ip dst_ip port payload)))
unfolding inject
inject_lem socket src_mac dst_mac src_ip dst_ip port payload wire whole hs hd hp fits =
    let (raw, e, back) =
      built (build_udp_ipv4 src_mac dst_mac src_ip dst_ip port port payload (next_seq wire).0)
        (udp_of src_mac dst_mac src_ip dst_ip port payload)
        (parse-build_udp_ipv4 src_mac dst_mac src_ip dst_ip port port payload (next_seq wire).0 hs
          hd hp hp fits) in
    (
      raw,
      (
        ap (λ r. ((next_seq wire).1, send_built socket r)) e
            ∙ ap (λ r. ((next_seq wire).1, r)) (sent_all_whole socket raw whole),
        back,
      ),
    )

-- When both stations are fully known and the socket takes whole frames, a payload of at most 65507
-- bytes that is sent in the Pad's name leaves in one frame, and whoever reads that frame finds the
-- payload, from the Pad's MAC and address to the door's, on the control port.
pub tap_send_as_pad_lem :
    (socket : List ℕ → Option ℕ) (payload : List ℕ) (peers : Peers) (a : Addresses) (wire : TapWire)
    → TakesWhole socket
    → addresses peers ≡ ok a
    → IsWired a peers.control_port
    → length payload ≤ 65507
    → (raw : List ℕ) × (((tap_send_as_pad socket payload peers wire).1 ≡ ok raw)
        × (parse_frame raw
            ≡ ok (udp_of a.pad_mac a.door_mac a.pad_ip a.door_ip peers.control_port payload)))
unfolding tap_send_as_pad
tap_send_as_pad_lem socket payload peers a wire whole known wired fits =
    let (raw, (e, back)) =
      inject_lem socket a.pad_mac a.door_mac a.pad_ip a.door_ip peers.control_port payload wire
        whole wired.pad_mac wired.door_mac wired.fits fits in
    (raw, (rw known (ap (λ o. o.1) e), back))

-- The hangup that the door would send.
reset_lem :
    (e : Endpoints)
    → FitWire e
    → session_control Op.hangup e ≡ ok (packet Family.session Op.hangup 80 (endpoints_block e))
unfolding session_control
reset_lem e fits = rw (pack_endpoints_fits e fits) refl

reset_short :
    (e : Endpoints)
    → FitWire e
    → length (packet Family.session Op.hangup 80 (endpoints_block e)) ≤ 65507
unfolding packet
reset_short e fits = omega (arith, length-endpoints_block e fits)

-- When both stations are fully known, both names fit the wire, the two interfaces are configured and
-- the socket takes whole frames: a remote claim installs the silence rules and then sends one frame.
-- Whoever reads that frame finds a hangup of this call, from the door's MAC and address to the
-- Pad's, on the control port.
pub tap_on_remote_claim_lem :
    (socket : List ℕ → Option ℕ) (peers : Peers) (a : Addresses) (e : Endpoints) (rules : List ℕ)
    (wire : TapWire)
    → TakesWhole socket
    → addresses peers ≡ ok a
    → IsWired a peers.control_port
    → peers_endpoints peers ≡ some e
    → FitWire e
    → pad_silence_rules wire.pad_interface wire.door_interface a.door_ip a.pad_ip peers.control_port
      ≡ ok rules
    → (raw : List ℕ) × (reset : List ℕ) × ((tap_on_remote_claim socket peers wire).1
        ≡ script rules ∷ frame raw ∷ [])
      × (parse_frame raw
          ≡ ok (udp_of a.door_mac a.pad_mac a.door_ip a.pad_ip peers.control_port reset))
      × (parse_message reset ≡ ok (message_of Family.session Op.hangup 80 (endpoints_block e)))
unfolding tap_on_remote_claim
tap_on_remote_claim_lem socket peers a e rules wire whole known wired both fits ruled =
    let reset : List ℕ = packet Family.session Op.hangup 80 (endpoints_block e) in
    let short : length reset ≤ 65507 = reset_short e fits in
    let (raw, (sent, back)) =
      inject_lem socket a.door_mac a.pad_mac a.door_ip a.pad_ip peers.control_port reset wire whole
        wired.door_mac wired.pad_mac wired.fits short in
    (
      raw,
      reset,
      rw (known, both, reset_lem e fits, ruled, sent) refl,
      back,
      parse-packet Family.session Op.hangup 80 (endpoints_block e) (omega arith) (omega arith)
          (omega arith),
    )
