-- ===== src/Examples/Servers.antt =====
-- agent_server.rs: the theorems at concrete requests.
use mathlib.Core.Bool.{false≢true}
use michoi.Common.{sym, ◌&&◌, not, not}
use michoi.Common.{◌&&◌}
use michoi.Common.{
  ℕ, zero, suc, ◌+◌, ◌≡◌, ◌≤◌, refl, Bool, true, false, none, some, Option, List, [], ◌∷◌, ◌++◌,
  Result, ok, err, length, ltb, All, Any, arith, if◌then◌else◌, leb, ◌-◌, drop,
}
use michoi.Common.Bytes.{Str, ascii}
use michoi.Common.Text.{split}
use michoi.Call.{idle, nobody}
use michoi.Api.{Event, CallState, AudioChunk, dialing, succeeded}
use michoi.Api.Control.{
  AgentApi, MediaInfo, default_cameras, default_call_elevator, default_outbound, default_talk_video,
}
use michoi.EventLog.{EventLog, recent}
use michoi.EventLog.Refine.{IsHistory}
use michoi.Server.{Request, ServerConfig, default_server, Payload}
use michoi.Server.Body.{read_chunked}
use michoi.Server.Body.RoundTrip.{write_chunks, read-write_chunks}
use mathlib.Core.Option.{none-ne-some}
use michoi.Server.Parse.{read_request, max_body}
use michoi.Server.Parse.Bounds.{read_request-body_le}
use michoi.Server.Negotiate.{Quality, candidates, negotiate}
use michoi.Server.Negotiate.Best.{IsOrder, IsAnswer, negotiate_lem}
use michoi.Server.Media.{base64_encode}
use michoi.Server.Media.Base64.{base64_decode, decode-base64_encode}
use michoi.Common.Text.{decimal}
use michoi.Server.Events.{initial}
use michoi.Server.Connection.{World, connection}
use michoi.Server.Events.Resume.{some_sign, all_texts, snapshot_text, initial-resumed}
use michoi.Server.Connection.Enough.{EndsWell, connection-EndsWell}
use michoi.Server.Connection.Gate.{IsStranger, requests_of, connection-strangers}
use michoi.Server.Talk.{forward_all}
use michoi.Server.Talk.Forward.{IsCut, forward_all-IsCut}

decode-base64_encode_example : base64_decode (base64_encode (ascii "door")) ≡ some (ascii "door")
decode-base64_encode_example =
    decode-base64_encode (ascii "door")
      (omega arith, (omega arith, (omega arith, (omega arith, tt))))

abbrev pieces : List (List ℕ)
pieces = ascii "open" ∷ ascii " the door" ∷ []

read-write_chunks_example :
    read_chunked 100 (write_chunks pieces ++ ascii "GET") ≡ ok (ascii "open the door", ascii "GET")
read-write_chunks_example =
    read-write_chunks 100 pieces (ascii "GET") (omega arith) (omega arith, (omega arith, tt))
      (omega arith)

abbrev lines : List Str → Str
lines [] = []
lines (l ∷ ls) = l ++ (13 ∷ 10 ∷ lines ls)

-- A request with a body of two bytes.
abbrev claim_request : Str
claim_request =
    lines (ascii "POST /v1/call/claim HTTP/1.1" ∷ ascii "Content-Length: 2" ∷ [] ∷ []) ++ ascii "{}"

abbrev parsed : Request
parsed = record {
  method = ascii "POST";
  path = ascii "/v1/call/claim";
  query = [];
  headers = (ascii "content-length", ascii "2") ∷ [];
  body = ascii "{}";
  keep_alive = true;
}

claim_request-parsed : read_request claim_request ≡ ok (some parsed, [])
unfolding read_request michoi.Server.Parse.read_head michoi.Server.Parse.parse_head
    michoi.Server.Parse.split_lines michoi.Server.Parse.parse_headers michoi.Server.Parse.read_body
    michoi.Server.header michoi.Server.Body.read_exact michoi.Common.Text.units
    michoi.Common.Text.trim michoi.Common.Text.split_whitespace michoi.Common.Text.split_once
    michoi.Common.Text.from_str_radix michoi.Net.from_utf8_lossy michoi.Net.decode
    michoi.Net.decode_byte michoi.Net.lead michoi.Net.continue_with michoi.Common.Tests.str_eq
claim_request-parsed = refl

read_request-body_le_example : 2 ≤ max_body
read_request-body_le_example = read_request-body_le claim_request parsed [] claim_request-parsed

-- Quality values that are 1 or 0.
abbrev coarse : Quality
coarse = record {
  Q = Bool;
  one = true;
  zero_q = false;
  parse = λ _. none;
  is_positive = λ q. q;
  is_above = λ q r. q && not r;
}

coarse-IsOrder : IsOrder coarse
coarse-IsOrder = record { asymmetric = asymmetric; transitive = transitive }
  where
    asymmetric : (q r : Bool) → (q && not r) ≡ true → (r && not q) ≡ false
    asymmetric true true e = refl
    asymmetric true false e = refl
    asymmetric false true e = absurd (false≢true e)
    asymmetric false false e = refl

    transitive : (q r s : Bool) → (r && not q) ≡ false → (s && not r) ≡ false → (s && not q) ≡ false
    transitive true r true e f = refl
    transitive true r false e f = refl
    transitive false true s e f = absurd (false≢true (sym e))
    transitive false false true e f = f
    transitive false false false e f = refl

abbrev both_types : List Str
both_types = ascii "image/jpeg" ∷ ascii "text/html" ∷ []

html_picked : negotiate coarse (some (ascii "text/*")) both_types ≡ some (ascii "text/html")
unfolding negotiate michoi.Server.Negotiate.candidates michoi.Server.Negotiate.quality_of
    michoi.Server.Negotiate.sort_by_quality michoi.Server.Negotiate.insert_by_quality
    michoi.Server.Negotiate.pick michoi.Server.Negotiate.accepts michoi.Server.Negotiate.media_base
    split michoi.Common.Text.split_once michoi.Common.Text.units michoi.Common.Text.trim
    michoi.Common.Tests.str_eq
html_picked = refl

negotiate_lem_example :
    IsAnswer coarse coarse-IsOrder
      (ascii "text/*, image/png;q=1")
      both_types
      (negotiate coarse (some (ascii "text/*, image/png;q=1")) both_types)
negotiate_lem_example =
    negotiate_lem coarse coarse-IsOrder (ascii "text/*, image/png;q=1") both_types

abbrev idle_state : CallState
idle_state = record {
  phase = idle;
  owner = nobody;
  session_id = none;
  door_id = none;
  room_id = none;
  since_ms = none;
  agent_id = ascii "A";
  connected = true;
  uptime_ms = 5;
}

abbrev media : MediaInfo
media = record {
  rtsp_url = none;
  video = record { codec = ascii "jpeg"; width = 640; height = 480 };
  audio = record { codec = ascii "pcm_s16le"; sample_rate = 8000; channels = 1 };
  talk = true;
  history_ms = 5000;
  buffered_ms = 0;
}

abbrev first_event : Event
first_event = record { seq = 1; at_ms = 100; kind = dialing (ascii "S1") }

abbrev second_event : Event
second_event = record { seq = 2; at_ms = 150; kind = dialing (ascii "S2") }

abbrev log : EventLog
log = record {
  events = second_event ∷ [];
  next_seq = 3;
  live = first_event ∷ second_event ∷ [];
  capacity = 1;
}

log-IsHistory : IsHistory log
log-IsHistory = record { numbered = (refl, (refl, tt)); counted = refl; kept = refl }

-- An Agent that takes every command, and notes the talk-back that it is given.
abbrev recorder : AgentApi (List AudioChunk)
recorder = record {
  agent_id = λ _. ascii "A";
  state = λ _. idle_state;
  recent = λ _. recent log;
  command = λ _ id _. ([], succeeded id);
  cameras = default_cameras;
  call_elevator = default_call_elevator;
  start_monitor = λ _. default_outbound;
  stop_monitor = default_outbound;
  dial = λ _. default_outbound;
  hangup_call = default_outbound;
  clock_us = λ _. 0;
  snapshot = λ _. none;
  media_info = λ _. media;
  talk = λ chunk s. (s ++ (chunk ∷ []), ok tt);
  talk_video = default_talk_video;
}

abbrev speech : List ℕ
speech = 1 ∷ 2 ∷ 3 ∷ []

forward_all-IsCut_example :
    IsCut recorder (λ n. n) (λ s. s) [] speech (forward_all recorder (λ n. n) speech [])
forward_all-IsCut_example =
    forward_all-IsCut recorder (λ n. n) (λ s. s) (λ chunk s. (s ++ (chunk ∷ []), (refl, refl)))
      speech []

abbrev resuming : Request
resuming = record {
  method = ascii "GET";
  path = ascii "/v1/events";
  query = [];
  headers = (ascii "last-event-id", ascii "1") ∷ [];
  body = [];
  keep_alive = true;
}

abbrev text_of : Event → Str
text_of event = ascii "{}"

resuming_after : michoi.Server.header (ascii "last-event-id") resuming ≡ some (decimal 1)
unfolding michoi.Server.header decimal michoi.Common.Tests.str_eq
resuming_after = refl

initial-resumed_example :
    initial text_of recorder 200 resuming []
    ≡ (if leb (2 - 1) 1
        then some_sign (all_texts text_of (second_event ∷ []))
        else snapshot_text text_of 200 idle_state)
      ++ (ascii "retry: 1000" ++ (10 ∷ 10 ∷ []))
initial-resumed_example =
    initial-resumed text_of recorder 200 resuming [] log 1 refl (omega arith) (omega arith)
      log-IsHistory resuming_after

abbrev guarded : ServerConfig
guarded = record {
  token = some (ascii "secret");
  swagger = false;
  web_ui = true;
  camera_resolutions = [];
  camera_resolution_default = [];
  camera_fps = [];
  camera_fps_default = 24;
}

abbrev world : World
world = record {
  quality = coarse;
  format = record {
    command_request = λ _. ok (ascii "a");
    monitor_request = λ _. ok (ascii "C1");
    dial_request = λ _. ok (ascii "S2");
    elevator_request = λ _. ok (ascii "a", none);
  };
  bytes = λ _. [];
  to_json = text_of;
  sha1 = λ bytes. bytes;
  now_ms = 200;
  clock = λ n. n;
  arrivals = λ n. n;
  event_turns = [];
  frame_turns = [];
  sound_turns = [];
  messages = [];
  talk_busy = false;
}

claim_request-strangers : All (IsStranger (ascii "secret")) (requests_of claim_request)
unfolding read_request michoi.Server.Parse.read_head michoi.Server.Parse.parse_head
    michoi.Server.Parse.split_lines michoi.Server.Parse.parse_headers michoi.Server.Parse.read_body
    michoi.Server.header michoi.Server.Body.read_exact michoi.Common.Text.units
    michoi.Common.Text.trim michoi.Common.Text.split_whitespace michoi.Common.Text.split_once
    michoi.Common.Text.from_str_radix michoi.Net.from_utf8_lossy michoi.Net.decode
    michoi.Net.decode_byte michoi.Net.lead michoi.Net.continue_with michoi.Common.Tests.str_eq
    michoi.Server.Negotiate.authorized michoi.Server.query_param michoi.Common.Text.split
claim_request-strangers = (
  record {
    no_header = (λ e. absurd (false≢true e), tt);
    no_param = (λ v e. absurd (none-ne-some (ascii "token", v) e), tt);
  },
  tt,
)

abbrev noted : List AudioChunk
noted = record { pts_us = 1; pcm = speech } ∷ []

connection-strangers_example : (connection guarded world recorder claim_request noted).0 ≡ noted
connection-strangers_example =
    connection-strangers guarded (ascii "secret") world recorder claim_request noted refl
      claim_request-strangers

connection-EndsWell_example :
    EndsWell guarded world recorder (connection guarded world recorder claim_request noted)
connection-EndsWell_example = connection-EndsWell guarded world recorder claim_request noted
