-- ===== src/Replay.antt =====
-- replay_agent.rs and transport.rs: the timeline that a capture is turned into. The CBOR text of a
-- control event is the event itself. `none` stands for a panic of the reassembler.
pub mod Numbered
pub mod Player
pub mod Total
use michoi.Common.{
  ℕ, ◌+◌, ◌-◌, ◌%◌, Bool, true, false, not, ◌&&◌, ◌||◌, Option, none, some, List, [], ◌∷◌, ◌++◌,
  ltb, ◌==◌, if◌then◌else◌, Result, ok, err, length,
}
use Prim.Native.Nat.{max}
use michoi.Common.Options.{◌>>=◌}
use michoi.Common.Bytes.{Str, ascii}
use michoi.Net.{Ipv4Addr, ip_eq}
use michoi.Pcap.{UdpRecord, PcapError, read_udp}
use michoi.Protocol.{
  Station, Endpoints, Message, MediaFragment, ProtocolError, parse_message, message_endpoints,
  message_media, media_audio,
}
use michoi.Protocol.Family
use michoi.Protocol.Op
use michoi.Protocol.Split.{split_coalesced}
use michoi.Protocol.Jpeg.{JpegReassembler, empty, push}
use michoi.Agent.{add_one32}

pub data AgentEvent : Type 0 where
  call_started : Str → Str → AgentEvent
  pad_action_observed : ℕ → AgentEvent
  call_ended failure : Str → AgentEvent

-- The payload of a frame, by its kind.
pub data FramePayload : Type 0 where
  control : AgentEvent → FramePayload
  jpeg_bytes door_pcm : List ℕ → FramePayload

pub record WireFrame : Type 0 where
  pub flags : ℕ
  pub session_id : ℕ
  pub sequence : ℕ
  pub timestamp_micros : ℕ
  pub payload : FramePayload

pub record TimedFrame : Type 0 where
  pub offset_micros : ℕ
  pub frame : WireFrame

-- `Endpoints::captured`
abbrev pub captured : Endpoints
captured = record {
  door = record { id = ascii "M00000000000"; ip = record { a = 192; b = 168; c = 124; d = 2 } };
  room = record { id = ascii "S00000000000"; ip = record { a = 192; b = 168; c = 124; d = 61 } };
}

-- The variables of the loop.
pub record Timeline : Type 0 where
  pub jpeg : JpegReassembler
  pub out : List TimedFrame
  pub sequence : ℕ
  pub session_id : ℕ
  pub started : Bool
  pub ended : Bool

-- `out.push(..); sequence += 1`
unfoldable pub add_frame : ℕ → FramePayload → Timeline → Timeline
add_frame offset payload t = record t {
  out =
      t.out
      ++ (record {
        offset_micros = offset;
        frame = record {
          flags = 0;
          session_id = t.session_id;
          sequence = t.sequence;
          timestamp_micros = offset;
          payload = payload;
        };
      }
          ∷ []);
  sequence = add_one32 t.sequence;
}

abbrev pub or_captured : Option Endpoints → Endpoints
or_captured none = captured
or_captured (some e) = e

abbrev pub started_by : Endpoints → FramePayload
started_by e = control (call_started e.door.id e.room.id)

abbrev pub on_request : ℕ → ℕ → Message → Timeline → Timeline
on_request first offset m t =
    if m.opcode == Op.request && not t.started
    then add_frame offset (started_by (or_captured (message_endpoints m)))
        (record t { started = true; session_id = max first 1 })
    else t

abbrev pub on_pad_action : ℕ → Message → Timeline → Timeline
on_pad_action offset m t =
    if m.opcode == Op.answer || m.opcode == Op.unlock
    then add_frame offset (control (pad_action_observed m.opcode)) t
    else t

abbrev pub on_hangup : ℕ → Message → Timeline → Timeline
on_hangup offset m t =
    if m.opcode == Op.hangup && not t.ended
    then add_frame offset (control (call_ended (ascii "captured_hangup")))
        (record t { ended = true })
    else t

abbrev pub with_jpeg : ℕ → Timeline → JpegReassembler × Option (List ℕ) → Timeline
with_jpeg offset t (jpeg, none) = record t { jpeg = jpeg }
with_jpeg offset t (jpeg, some frame) =
    add_frame offset (jpeg_bytes frame) (record t { jpeg = jpeg })

abbrev pub on_fragment : ℕ → Timeline → Option MediaFragment → Option Timeline
on_fragment offset t none = some t
on_fragment offset t (some media) =
    if media.media_type == media_audio
    then some (add_frame offset (door_pcm media.payload) t)
    else push t.jpeg media >>= λ pushed. some (with_jpeg offset t pushed)

abbrev pub door_ip : Ipv4Addr
door_ip = record { a = 192; b = 168; c = 124; d = 2 }

abbrev pub on_media : ℕ → Ipv4Addr → Message → Timeline → Option Timeline
on_media offset source_ip m t =
    if not (m.opcode == Op.media) || not (ip_eq source_ip door_ip)
    then some t
    else on_fragment offset t (message_media m)

unfoldable pub on_session : ℕ → UdpRecord → Message → Timeline → Option Timeline
on_session first r m t =
    let offset = r.timestamp_micros - first in
    on_media offset r.source_ip m
      (on_hangup offset m (on_pad_action offset m (on_request first offset m t)))

abbrev pub on_parsed : ℕ → UdpRecord → Timeline → Result ProtocolError Message → Option Timeline
on_parsed first r t (err _) = some t
on_parsed first r t (ok m) =
    if not (m.family == Family.session) then some t else on_session first r m t

abbrev pub on_parts : ℕ → UdpRecord → List (List ℕ) → Timeline → Option Timeline
on_parts first r [] t = some t
on_parts first r (raw ∷ rest) t = on_parsed first r t (parse_message raw) >>= on_parts first r rest

unfoldable pub on_records : ℕ → List UdpRecord → Timeline → Option Timeline
on_records first [] t = some t
on_records first (r ∷ rest) t =
    let skipped = on_records first rest t in
    let used =
      split_coalesced r.payload >>= λ parts. on_parts first r parts t >>= on_records first rest in
    if ltb r.timestamp_micros first then skipped else used

abbrev pub is_request : Result ProtocolError Message → Bool
is_request (err _) = false
is_request (ok m) = m.family == Family.session && m.opcode == Op.request

abbrev pub has_request : List (List ℕ) → Bool
has_request [] = false
has_request (raw ∷ rest) = is_request (parse_message raw) || has_request rest

-- `first_session`: the time of the first record that holds a session request.
unfoldable pub first_session : List UdpRecord → Option ℕ
first_session [] = none
first_session (r ∷ rest) =
    let later = first_session rest in
    split_coalesced r.payload >>= λ parts.
    if has_request parts then some r.timestamp_micros else later

unfoldable pub fresh : Timeline
fresh = record {
  jpeg = empty;
  out = [];
  sequence = 0;
  session_id = 0;
  started = false;
  ended = false;
}

pub data ReplayError : Type 0 where
  not_read : PcapError → ReplayError
  no_session : ReplayError
  panicked : ReplayError

abbrev pub timeline_out : Option Timeline → Result ReplayError (List TimedFrame)
timeline_out none = err panicked
timeline_out (some t) = ok t.out

abbrev pub timeline_from : List UdpRecord → Option ℕ → Result ReplayError (List TimedFrame)
timeline_from records none = err no_session
timeline_from records (some first) = timeline_out (on_records first records fresh)

abbrev pub timeline_of : Result PcapError (List UdpRecord) → Result ReplayError (List TimedFrame)
timeline_of (err e) = err (not_read e)
timeline_of (ok records) = timeline_from records (first_session records)

unfoldable pub replay_timeline : List ℕ → Result ReplayError (List TimedFrame)
replay_timeline capture = timeline_of (read_udp capture)
