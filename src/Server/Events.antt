-- ===== src/Server/Events.antt =====
-- agent_server.rs: the event stream. The JSON text of an event is a parameter. What arrives on the
-- broadcast channel, the timers and the client's leaving are the turns of the loop.
pub mod Number
pub mod Resume
use michoi.Common.{
  ℕ, ◌+◌, zero, suc, ◌-◌, ◌/◌, ◌%◌, ◌^◌, Bool, true, false, Option, none, some, List, [], ◌∷◌, ◌++◌,
  length, ltb, str_eq, if◌then◌else◌, Result, ok, err,
}
use michoi.Common.Bytes.{Str, ascii}
use michoi.Common.Text.{trim, decimal, from_str_radix}
use michoi.Common.Options.{◌>>=◌}
use michoi.Api.{CallState, Event, EventKind, snapshot, event_name}
use michoi.Api.Control.{AgentApi}
use michoi.Server.{Request, Response, Payload, header, write_response, crlf, media_type_events}
use michoi.Server.Negotiate.{Quality, require_accept}

abbrev pub hex_char : ℕ → ℕ
hex_char d = if ltb d 10 then 48 + d else 87 + d

-- `{:x}`, on fuel for the digits: 16 are enough for a 64-bit number.
unfoldable pub hex_from : ℕ → ℕ → Str
hex_from zero n = []
hex_from (suc fuel) n =
    let high = hex_from fuel (n / 16) in
    if ltb n 16 then hex_char n ∷ [] else high ++ (hex_char (n % 16) ∷ [])

unfoldable pub hex : ℕ → Str
hex n = hex_from 16 n

unfoldable pub write_chunk : List ℕ → List ℕ
write_chunk bytes = hex (length bytes) ++ (crlf ++ (bytes ++ crlf))

abbrev pub newline : Str
newline = 10 ∷ []

unfoldable pub sse_message : ℕ → Str → Str → Str
sse_message id event text =
    ascii "id: "
    ++ (decimal id
        ++ (newline
            ++ (ascii "event: "
                ++ (event ++ (newline ++ (ascii "data: " ++ (text ++ (newline ++ newline))))))))

-- One turn of the loop: what `select!` picks.
pub data Turn : Type 0 where
  received : Event → Turn
  lagged : ℕ → CallState → Turn
  closed deadline heartbeat client_gone client_sent : Turn

abbrev events_head : Str
events_head =
    ascii "HTTP/1.1 200 OK"
    ++ (crlf
        ++ (ascii "Content-Type: text/event-stream; charset=utf-8"
            ++ (crlf
                ++ (ascii "Cache-Control: no-cache"
                    ++ (crlf
                        ++ (ascii "Transfer-Encoding: chunked"
                            ++ (crlf ++ (ascii "Connection: close" ++ (crlf ++ crlf)))))))))

abbrev pub last_chunk : Str
last_chunk = 48 ∷ (crlf ++ crlf)

module _ (to_json : Event → Str) where
  abbrev pub message_of : Event → Str
  message_of event = sse_message event.seq (event_name event.kind) (to_json event)

  abbrev pub messages_of : List Event → Str
  messages_of [] = []
  messages_of (event ∷ rest) = message_of event ++ messages_of rest

  abbrev pub snapshot_message : ℕ → CallState → Str
  snapshot_message now_ms state =
      sse_message 0 (ascii "snapshot")
        (to_json (record { seq = 0; at_ms = now_ms; kind = snapshot state }))

  abbrev pub or_resumed : Str → Str
  or_resumed [] = ascii ": resumed" ++ (newline ++ newline)
  or_resumed (x ∷ xs) = x ∷ xs

  abbrev initial_of : ℕ → CallState → Option (List Event) → Str
  initial_of now_ms state none = snapshot_message now_ms state
  initial_of now_ms state (some missed) = or_resumed (messages_of missed)

  abbrev pub last_event_id : Option Str → Option ℕ
  last_event_id none = none
  last_event_id (some v) = from_str_radix 10 (trim v)

  -- What the client gets before the live feed.
  unfoldable pub initial : {S : Type 0} → AgentApi S → ℕ → Request → S → Str
  initial api now_ms request s =
      initial_of now_ms (api.state s)
        (last_event_id (header (ascii "last-event-id") request) >>= api.recent s)
      ++ (ascii "retry: 1000" ++ (newline ++ newline))

  -- The loop.
  unfoldable pub live_feed : List Turn → List ℕ
  live_feed [] = []
  live_feed (received event ∷ rest) = write_chunk (message_of event) ++ live_feed rest
  live_feed (lagged now_ms state ∷ rest) =
      write_chunk (snapshot_message now_ms state) ++ live_feed rest
  live_feed (heartbeat ∷ rest) =
      write_chunk (ascii ": keep-alive" ++ (newline ++ newline)) ++ live_feed rest
  live_feed (closed ∷ rest) = last_chunk
  live_feed (deadline ∷ rest) = last_chunk
  live_feed (client_gone ∷ rest) = []
  live_feed (client_sent ∷ rest) = live_feed rest

  abbrev stream_of :
      {S : Type 0}
      → (Payload → List ℕ)
      → AgentApi S
      → ℕ
      → List Turn
      → Request
      → S
      → Result Response Str
      → List ℕ
  stream_of bytes api now_ms turns request s (err response) = write_response bytes response false
  stream_of bytes api now_ms turns request s (ok _) =
      events_head ++ (write_chunk (initial api now_ms request s) ++ live_feed turns)

  -- All that is written to the client.
  unfoldable pub events_stream :
      {S : Type 0}
      → (Payload → List ℕ)
      → Quality
      → AgentApi S
      → ℕ
      → List Turn
      → Request
      → S
      → List ℕ
  events_stream bytes quality api now_ms turns request s =
      stream_of bytes api now_ms turns request s
        (require_accept quality request (media_type_events ∷ []))
