-- ===== src/Server/Connection.antt =====
-- agent_server.rs: one connection: the requests that arrive on it, in their order, with the gate for
-- those without the token. The streams' own turns are arguments. The interim response to a request
-- whose body then breaks off is not in the output.

pub mod Enough
pub mod Gate
use michoi.Common.{
  ℕ, zero, suc, ◌+◌, Bool, true, false, not, ◌&&◌, ◌||◌, Option, none, some, List, [], ◌∷◌, ◌++◌,
  length, str_eq, if◌then◌else◌, Result, ok, err,
}
use michoi.Common.Bytes.{Str, ascii}
use michoi.Common.Text.{decimal}
use michoi.Api.{Event, VideoFrame, AudioChunk}
use michoi.Api.Control.{AgentApi}
use michoi.Server.{
  ServerConfig, Request, Response, Payload, error, with_header, write_response, crlf,
}
use michoi.Server.Body.{ReadError, Input, out_of_fuel}
use michoi.Server.Parse.{read_request, parse_head, expects_continue}
use michoi.Server.Negotiate.{Quality, authorized}
use michoi.Server.Handlers.{BodyFormat}
use michoi.Server.Route.{is_route, route}
use michoi.Server.Route.Open.{is_public}
use michoi.Server.Events.{Turn, events_stream}
use michoi.Server.Talk.{
  talk_upload, talk_websocket, talk_video_websocket, websocket_key, WsMessage, WsReply,
}
use michoi.Server.Media.{MediaTurn, mjpeg_stream, pcm_stream, base64_encode}

-- What the streams of a connection meet, and the libraries that they use.
pub record World : Type 1 where
  pub quality : Quality
  pub format : BodyFormat
  pub bytes : Payload → List ℕ
  pub to_json : Event → Str
  pub sha1 : List ℕ → List ℕ
  pub now_ms : ℕ
  pub clock : ℕ → ℕ
  pub arrivals : ℕ → ℕ
  pub event_turns : List Turn
  pub frame_turns : List (MediaTurn VideoFrame)
  pub sound_turns : List (MediaTurn AudioChunk)
  pub messages : List WsMessage
  pub talk_busy : Bool

unfoldable pub unauthorized : Response
unauthorized =
    with_header (ascii "WWW-Authenticate") (ascii "Bearer")
      (error 401 (ascii "unauthorized") (ascii "bearer token required"))

-- How a request leaves the connection: open for the next one, or ended.
pub data Ending : Type 0 where
  go_on finished : Ending
  broken : ReadError → Ending
  upgraded : List WsReply → Ending

module _ {S : Type 0} (config : ServerConfig) (world : World) (api : AgentApi S) where
  -- The Agent, the bytes written, and the ending.
  abbrev pub Served : Type 0
  Served = S × (List ℕ × Ending)

  abbrev written : Response → List ℕ
  written response = write_response world.bytes response false

  abbrev talked : S × Result ReadError Response → Served
  talked (s, ok response) = (s, (written response, finished))
  talked (s, err e) = (s, ([], broken e))

  -- The answer to the handshake of a WebSocket.
  abbrev switching : Str → List ℕ
  switching key =
      ascii "HTTP/1.1 101 Switching Protocols"
      ++ (crlf
          ++ (ascii "Upgrade: websocket"
              ++ (crlf
                  ++ (ascii "Connection: Upgrade"
                      ++ (crlf
                          ++ (ascii "Sec-WebSocket-Accept: "
                              ++ (base64_encode (
                                    world.sha1
                                      (key ++ ascii "258EAFA5-E914-47DA-95CA-C5AB0DC85B11"))
                                  ++ (crlf ++ crlf))))))))

  abbrev no_upgrade : Response
  no_upgrade = error 400 (ascii "bad_request") (ascii "WebSocket upgrade expected")

  abbrev upgraded_with : Str → S × List WsReply → Served
  upgraded_with key (s, replies) = (s, (switching key, upgraded replies))

  abbrev talk_socket : S → Option Str → Served
  talk_socket s none = (s, (written no_upgrade, finished))
  talk_socket s (some key) =
      if world.talk_busy
      then (
        s,
        (
          written (error 409 (ascii "talk_busy") (ascii "another talk-back upload is active")),
          finished,
        ),
      )
      else upgraded_with key (talk_websocket api world.clock [] world.messages s)

  abbrev video_socket : S → Option Str → Served
  video_socket s none = (s, (written no_upgrade, finished))
  video_socket s (some key) =
      upgraded_with key (talk_video_websocket api world.clock world.messages s)

  abbrev pub routed : Request → S × Response → Served
  routed request (s, response) = (
    s,
    (
      write_response world.bytes response request.keep_alive,
      if request.keep_alive then go_on else finished,
    ),
  )

  -- Behind the gate.
  unfoldable pub admitted : Request → Input → S → Served
  admitted request input s =
      if is_route (ascii "GET") (ascii "/v1/events") request
      then (
        s,
        (
          events_stream world.to_json world.bytes world.quality api world.now_ms world.event_turns
              request s,
          finished,
        ),
      )
      else if is_route (ascii "POST") (ascii "/v1/talk") request
      then talked (talk_upload api world.clock world.arrivals request input world.talk_busy s)
      else if is_route (ascii "GET") (ascii "/v1/stream.mjpeg") request
      then (s, (mjpeg_stream world.bytes world.quality api world.frame_turns request s, finished))
      else if is_route (ascii "GET") (ascii "/v1/audio.pcm") request
      then (s, (pcm_stream world.bytes world.quality api world.sound_turns request s, finished))
      else if is_route (ascii "GET") (ascii "/v1/talk.ws") request
      then talk_socket s (websocket_key request)
      else if is_route (ascii "GET") (ascii "/v1/talk-video.ws") request
      then video_socket s (websocket_key request)
      else routed request (route world.quality world.format config api request s)

  -- One request, read with its body.
  unfoldable pub serve : Request → Input → S → Served
  serve request input s =
      if not (is_public request) && not (authorized request config.token)
      then (s, (written unauthorized, finished))
      else admitted request input s

  abbrev pub continue_with : (S → Served) → Served → Served
  continue_with again (s, (out, go_on)) =
      let (later, (more, ending)) = again s in (later, (out ++ more, ending))
  continue_with again (s, (out, ending)) = (s, (out, ending))

  -- What is written before the body is read.
  abbrev pub interim : Request → List ℕ
  interim request =
      if expects_continue request then ascii "HTTP/1.1 100 Continue" ++ (crlf ++ crlf) else []

  abbrev pub after_interim : List ℕ → Served → Served
  after_interim sent (s, (out, ending)) = (s, (sent ++ out, ending))

  abbrev pub served : (Input → S → Served) → S → Result ReadError (Option Request × Input) → Served
  served again s (err e) = (s, ([], broken e))
  served again s (ok (none, rest)) = (s, ([], finished))
  served again s (ok (some request, rest)) =
      after_interim (interim request) (continue_with (again rest) (serve request rest s))

  -- The loop over the requests, on fuel.
  unfoldable pub connection_loop : ℕ → Input → S → Served
  connection_loop zero input s = (s, ([], broken out_of_fuel))
  connection_loop (suc fuel) input s = served (connection_loop fuel) s (read_request input)

  -- A request takes four bytes at least, so that the input's length is enough fuel.
  unfoldable pub connection : Input → S → Served
  connection input s = connection_loop (suc (length input)) input s
