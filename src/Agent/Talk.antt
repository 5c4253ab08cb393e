-- ===== src/Agent/Talk.antt =====
-- agent.rs: what the remote side says and shows, towards the callee of an outbound call or, as the
-- Pad, towards the door; and the dialling of that outbound call.
pub mod Allowed
use michoi.Common.{
  ℕ, ◌+◌, ◌-◌, ◌%◌, zero, suc, Bool, true, false, not, ◌&&◌, ◌||◌, Option, none, some, List, [],
  ◌∷◌, ◌++◌,
}
use michoi.Common.{length, replicate, ltb, ◌==◌, if◌then◌else◌, str_eq, Result, ok, err}
use michoi.Common.Bytes.{Str}
use michoi.Net.{Ipv4Addr}
use michoi.Call.{is_idle, remote_media_allowed}
use michoi.Api.{
  AudioChunk, dialing, CallError, pad_owns_call, unlock_not_allowed, agent_offline,
  callee_unreachable,
}
use michoi.Protocol.{Station, Endpoints, ProtocolError, packet}
use michoi.Protocol.Family
use michoi.Protocol.Op
use michoi.Protocol.Builders.{chunks, audio_packet, jpeg_packets, call_request, call_setup}
use michoi.Agent.{
  Peers, peers_endpoints, CallHandle, Agent, Clock, Effect, send_as_pad, add_one32, emit,
}
use michoi.Agent.Command.{expand_station_number}
use michoi.Agent.Dispatch.{is_running}

-- `pcm.resize(512, 0)` of a chunk of at most 512 bytes.
abbrev pub padded : List ℕ → List ℕ
padded pcm = pcm ++ replicate (512 - length pcm) 0

abbrev pub frames_of : AudioChunk → List (List ℕ)
frames_of chunk = chunks 512 chunk.pcm

abbrev pub pushed : Result ProtocolError (List ℕ) → List (List ℕ) → List (List ℕ)
pushed (ok raw) rest = raw ∷ rest
pushed (err _) rest = rest

-- The loop towards the callee: what is sent, and the next sequence number.
unfoldable pub callee_packets : Endpoints → ℕ → List (List ℕ) → List (List ℕ) × ℕ
callee_packets e aseq [] = ([], aseq)
callee_packets e aseq (frame ∷ rest) =
    let (packets, next) = callee_packets e (add_one32 aseq) rest in
    (pushed (audio_packet (aseq % 65536) (padded frame) e) packets, next)

-- The body of the loop towards the door, over what the rest of it does. `sends` is whether the wire takes each packet in turn; the first
-- failure ends it, with its sequence number taken.
abbrev pub pad_packet :
    Peers
    → (ℕ → Bool)
    → ℕ
    → Result ProtocolError (List ℕ)
    → List Effect × (ℕ × Result CallError (Unit {0}))
    → List Effect × (ℕ × Result CallError (Unit {0}))
pad_packet peers sends seq (err _) (effects, rest) = ([], (add_one32 seq, err agent_offline))
pad_packet peers sends seq (ok raw) (effects, rest) =
    if sends seq
    then (send_as_pad raw peers ∷ effects, rest)
    else (send_as_pad raw peers ∷ [], (add_one32 seq, err agent_offline))

unfoldable pub pad_packets :
    Peers
    → Endpoints
    → (ℕ → Bool)
    → ℕ
    → List (List ℕ)
    → List Effect × (ℕ × Result CallError (Unit {0}))
pad_packets peers e sends seq [] = ([], (seq, ok tt))
pad_packets peers e sends seq (frame ∷ rest) =
    pad_packet peers sends seq (audio_packet (seq % 65536) (padded frame) e)
      (pad_packets peers e sends (add_one32 seq) rest)

-- What talking does: the packets on the callee's socket, the effects on the wire, the result.
abbrev pub Spoken : Type 0
Spoken = Agent × (List (List ℕ) × (List Effect × Result CallError (Unit {0})))

abbrev pub talk_to_callee : AudioChunk → Agent → CallHandle → Spoken
talk_to_callee chunk agent handle =
    let (packets, next) = callee_packets handle.endpoints handle.aseq (frames_of chunk) in
    (record agent { call_session = some (record handle { aseq = next }) }, (packets, ([], ok tt)))

abbrev pub talk_as_pad : (ℕ → Bool) → AudioChunk → Agent → Option Endpoints → Spoken
talk_as_pad sends chunk agent none = (agent, ([], ([], err agent_offline)))
talk_as_pad sends chunk agent (some e) =
    let (effects, (next, result)) =
      pad_packets agent.peers e sends agent.audio_seq (frames_of chunk) in
    (record agent { audio_seq = next }, ([], (effects, result)))

abbrev pub talk_on : (ℕ → Bool) → AudioChunk → Agent → Option CallHandle → Spoken
talk_on sends chunk agent (some handle) = talk_to_callee chunk agent handle
talk_on sends chunk agent none =
    if not (remote_media_allowed agent.call.machine agent.call.machine.state.session_id)
    then (agent, ([], ([], err unlock_not_allowed)))
    else talk_as_pad sends chunk agent (peers_endpoints agent.peers)

unfoldable pub talk : (ℕ → Bool) → AudioChunk → Agent → Spoken
talk sends chunk agent = talk_on sends chunk agent agent.call_session

abbrev pub video_packets : Result ProtocolError (List (List ℕ)) → List (List ℕ)
video_packets (ok packets) = packets
video_packets (err _) = []

abbrev pub show_to : List ℕ → Agent → Option CallHandle → Agent × List (List ℕ)
show_to jpeg agent none = (agent, [])
show_to jpeg agent (some handle) =
    if handle.answered
    then (
      record agent { call_session = some (record handle { vseq = add_one32 handle.vseq }) },
      video_packets (jpeg_packets (handle.vseq % 65536) jpeg handle.endpoints),
    )
    else (agent, [])

unfoldable pub talk_video : List ℕ → Agent → Agent × List (List ℕ)
talk_video jpeg agent = show_to jpeg agent agent.call_session

-- What the sockets of `dial_now` answer: whether they bind and connect, and the own address.
pub record Dialled : Type 0 where
  pub binds : Bool
  pub connects : Bool
  pub caller_ip : Ipv4Addr
  pub cancel : ℕ

abbrev pub thrice : List ℕ → List (List ℕ)
thrice raw = raw ∷ raw ∷ raw ∷ []

abbrev pub setup_of : Result ProtocolError (List ℕ) → List (List ℕ)
setup_of (ok raw) = raw ∷ []
setup_of (err _) = []

abbrev pub requests_of : Result ProtocolError (List ℕ) → List (List ℕ)
requests_of (ok raw) = thrice raw
requests_of (err _) = []

abbrev pub Dialing : Type 0
Dialing = Agent × (List (List ℕ) × Result CallError (Unit {0}))

abbrev pub dial_resolved : Clock → Str → Dialled → Agent → Option Ipv4Addr → Dialing
dial_resolved clock callee_id socket agent none = (agent, ([], err callee_unreachable))
dial_resolved clock callee_id socket agent (some ip) =
    let us : Station = record { id = agent.peers.room.id; ip = socket.caller_ip } in
    let callee : Station = record { id = callee_id; ip = ip } in
    let e : Endpoints = record { door = us; room = callee } in
    if not socket.binds || not socket.connects then (agent, ([], err agent_offline)) else (
      emit clock (dialing callee_id) (record agent {
        call_session = some (record {
          callee = callee;
          endpoints = e;
          cancel = socket.cancel;
          answered = false;
          aseq = 0;
          vseq = 1;
        });
      }),
      (
        packet Family.bootstrap Op.request 32 []
            ∷ (setup_of (call_setup us callee) ++ requests_of (call_request us callee)),
        ok tt,
      ),
    )

-- `resolve` is what the discovery answers for an identifier.
unfoldable pub dial_now : Clock → Str → (Str → Option Ipv4Addr) → Dialled → Agent → Dialing
dial_now clock callee_id resolve socket agent =
    let full = expand_station_number agent.peers.room.id callee_id in
    if not (is_idle agent.call.machine.state.phase)
    then (agent, ([], err pad_owns_call))
    else if is_running agent.monitor || is_running agent.call_session
    then (agent, ([], err pad_owns_call))
    else dial_resolved clock full socket agent (resolve full)
