-- ===== src/Agent/Dispatch.antt =====
-- agent.rs: `on_wire`, what one message from the wire does to the Agent, in the order in which the
-- source asks. `none` stands for a panic in the media buffers.
pub mod Kept
pub mod Total
use michoi.Common.{ℕ, Bool, true, false, not, ◌&&◌, Option, none, some, List, [], ◌∷◌}
use michoi.Common.{◌==◌, if◌then◌else◌, Result, ok, err}
use michoi.Common.Bytes.{ascii}
use michoi.Protocol.{
  Station, Endpoints, Message, ProtocolError, parse_message, is_session_like, message_endpoints,
  message_media,
}
use michoi.Protocol.Family
use michoi.Protocol.Op
use michoi.Protocol.Builders.{bootstrap_reply, session_reply}
use michoi.Agent.{
  Side, door_side, pad_side, Peers, MonitorHandle, CallHandle, Agent, Clock, Effect,
  handshake_reply, acked,
}
use michoi.Agent.Identity.{accept_endpoints}
use michoi.Agent.Media.{feed_media}
use michoi.Agent.Session.{
  on_call_started, on_pad_answer, on_pad_unlock, on_wire_hangup, stop_monitor_now, hangup_call_now,
  callee_answered,
}

abbrev pub is_door : Side → Bool
is_door door_side = true
is_door pad_side = false

abbrev pub is_running {ℓ} : {A : Type ℓ} → Option A → Bool
is_running none = false
is_running (some _) = true

abbrev pub Step : Type 0
Step = Option (Agent × List Effect)

abbrev pub quietly : Option Agent → Step
quietly none = none
quietly (some agent) = some (agent, [])

-- A handshake reply that can be built goes to the wire.
abbrev replied : Peers → Result ProtocolError (List ℕ) → List Effect
replied peers (ok raw) = handshake_reply raw peers ∷ []
replied peers (err _) = []

abbrev pub on_bootstrap : Side → Agent → Step
on_bootstrap side agent =
    if is_door side
    then some (agent, replied agent.peers (bootstrap_reply agent.peers.room))
    else some (agent, [])

abbrev pub on_monitor : Clock → Message → Agent → Step
on_monitor clock m agent =
    let (stopped, (effects, _)) = stop_monitor_now agent in
    if m.opcode == Op.media
    then quietly (feed_media true clock (message_media m) agent)
    else if m.opcode == Op.hangup
    then some (stopped, effects)
    else some (agent, [])

abbrev pub on_call_session : Clock → Message → Agent → Step
on_call_session clock m agent =
    let (ended, (effects, _)) = hangup_call_now clock (ascii "callee_hangup") agent in
    if m.opcode == Op.answer
    then some (callee_answered clock agent agent.call_session, [])
    else if m.opcode == Op.media
    then quietly (feed_media false clock (message_media m) agent)
    else if m.opcode == Op.hangup
    then some (ended, effects)
    else some (agent, [])

abbrev ack_all : List ℕ → List Effect
ack_all [] = []
ack_all (w ∷ ws) = acked w ∷ ack_all ws

abbrev pub on_elevator : Agent → Step
on_elevator agent = some (record agent { elevator_acks = [] }, ack_all agent.elevator_acks)

-- The `match message.opcode` at the end, behind the check of the endpoints.
abbrev pub on_session_opcode : Clock → Side → Message → Endpoints → Peers → Agent → Step
on_session_opcode clock side m e peers agent =
    if m.opcode == Op.request && is_door side
    then some (on_call_started clock e agent, replied peers (session_reply e))
    else if m.opcode == Op.answer && not (is_door side)
    then some (on_pad_answer clock agent, [])
    else if m.opcode == Op.unlock && not (is_door side)
    then some (on_pad_unlock clock agent, [])
    else if m.opcode == Op.hangup
    then some (on_wire_hangup clock peers agent)
    else if m.opcode == Op.media && is_door side
    then quietly (feed_media false clock (message_media m) agent)
    else some (agent, [])

abbrev pub checked : Clock → Side → Message → Endpoints → Agent × Option Peers → Step
checked clock side m e (agent, none) = some (agent, [])
checked clock side m e (agent, some peers) = on_session_opcode clock side m e peers agent

abbrev pub on_session : Clock → Side → Message → Agent → Option Endpoints → Step
on_session clock side m agent none = some (agent, [])
on_session clock side m agent (some e) = checked clock side m e (accept_endpoints e agent)

unfoldable pub on_message : Clock → Side → Message → Agent → Step
on_message clock side m agent =
    if m.family == Family.bootstrap && m.opcode == Op.request
    then on_bootstrap side agent
    else if is_running agent.monitor && is_session_like m
    then on_monitor clock m agent
    else if is_running agent.call_session && is_session_like m
    then on_call_session clock m agent
    else if m.family == Family.elevator && not (m.opcode == Op.request)
    then on_elevator agent
    else if not (m.family == Family.session)
    then some (agent, [])
    else on_session clock side m agent (message_endpoints m)

abbrev pub parsed : Clock → Side → Agent → Result ProtocolError Message → Step
parsed clock side agent (err _) = some (agent, [])
parsed clock side agent (ok m) = on_message clock side m agent

unfoldable pub on_wire : Clock → Side → List ℕ → Agent → Step
on_wire clock side raw agent = parsed clock side agent (parse_message raw)
