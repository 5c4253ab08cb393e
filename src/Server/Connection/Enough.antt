-- ===== src/Server/Connection/Enough.antt =====
-- agent_server.rs: the loop over the requests of a connection ends.
use michoi.Common.{
  ℕ, zero, suc, ◌<◌, Bool, true, false, not, ◌&&◌, Option, none, some, ◌≡◌, refl, length, Result,
  ok, err, if◌then◌else◌, arith,
}
use michoi.Common.Bytes.{Str, ascii}
use michoi.Api.Control.{AgentApi}
use michoi.Server.{ServerConfig, Request, Response}
use michoi.Server.Body.{Input, ReadError}
use michoi.Server.Body.Enough.{IsReal, IsEnough}
use michoi.Server.Talk.{websocket_key}
use michoi.Server.Talk.Enough.{talk_upload-IsEnough}
use michoi.Server.Parse.{read_request}
use michoi.Server.Parse.Enough.{read_request-IsEnough, read_request-ok}
use michoi.Server.Negotiate.{authorized}
use michoi.Server.Route.{is_route, route}
use michoi.Server.Route.Open.{is_public}
use michoi.Server.Connection.{
  World, Ending, Served, go_on, finished, broken, upgraded, admitted, serve, served, continue_with,
  connection_loop, connection, routed, talked, talk_socket, video_socket,
}

-- The connection ends by the code's own doing.
abbrev pub IsProper : Ending → Type 0
IsProper go_on = Unit
IsProper finished = Unit
IsProper (broken e) = IsReal e
IsProper (upgraded replies) = Unit

module _ {S : Type 0} (config : ServerConfig) (world : World) (api : AgentApi S) where
  abbrev pub EndsWell : Served config world api → Type 0
  EndsWell o = IsProper o.1.1

  either-EndsWell :
      (t : Bool) (x y : Served config world api)
      → EndsWell x
      → EndsWell y
      → EndsWell (if t then x else y)
  either-EndsWell true x y h k = h
  either-EndsWell false x y h k = k

  talked-EndsWell :
      (o : S × Result ReadError Response) → IsEnough o.1 → EndsWell (talked config world api o)
  unfolding IsEnough
  talked-EndsWell (s, ok response) h = tt
  talked-EndsWell (s, err e) h = h

  talk_socket-EndsWell : (s : S) (o : Option Str) → EndsWell (talk_socket config world api s o)
  talk_socket-EndsWell s none = tt
  talk_socket-EndsWell s (some key) = either-EndsWell world.talk_busy _ _ tt tt

  video_socket-EndsWell : (s : S) (o : Option Str) → EndsWell (video_socket config world api s o)
  video_socket-EndsWell s none = tt
  video_socket-EndsWell s (some key) = tt

  ending-IsProper : (keep : Bool) → IsProper (if keep then go_on else finished)
  ending-IsProper true = tt
  ending-IsProper false = tt

  routed-EndsWell :
      (request : Request) (o : S × Response) → EndsWell (routed config world api request o)
  routed-EndsWell request (s, response) = ending-IsProper request.keep_alive

  admitted-EndsWell :
      (request : Request) (input : Input) (s : S)
      → EndsWell (admitted config world api request input s)
  unfolding admitted
  admitted-EndsWell request input s =
      either-EndsWell (is_route (ascii "GET") (ascii "/v1/events") request) _ _ tt (
        either-EndsWell (is_route (ascii "POST") (ascii "/v1/talk") request) _ _
          (talked-EndsWell _
            (talk_upload-IsEnough api world.clock world.arrivals request input world.talk_busy s))
          (either-EndsWell (is_route (ascii "GET") (ascii "/v1/stream.mjpeg") request) _ _ tt (
            either-EndsWell (is_route (ascii "GET") (ascii "/v1/audio.pcm") request) _ _ tt (
              either-EndsWell (is_route (ascii "GET") (ascii "/v1/talk.ws") request) _ _
                (talk_socket-EndsWell s (websocket_key request))
                (either-EndsWell (is_route (ascii "GET") (ascii "/v1/talk-video.ws") request) _ _
                  (video_socket-EndsWell s (websocket_key request))
                  (routed-EndsWell request
                    (route world.quality world.format config api request s)))))))

  serve-EndsWell :
      (request : Request) (input : Input) (s : S)
      → EndsWell (serve config world api request input s)
  unfolding serve
  serve-EndsWell request input s =
      either-EndsWell (not (is_public request) && not (authorized request config.token)) _ _ tt
        (admitted-EndsWell request input s)

  continue_with-EndsWell :
      (again : S → Served config world api) (o : Served config world api)
      → ((s : S) → EndsWell (again s))
      → EndsWell o
      → EndsWell (continue_with config world api again o)
  continue_with-EndsWell again (s, (out, go_on)) h k = h s
  continue_with-EndsWell again (s, (out, finished)) h k = k
  continue_with-EndsWell again (s, (out, broken e)) h k = k
  continue_with-EndsWell again (s, (out, upgraded replies)) h k = k

  served-EndsWell :
      (again : Input → S → Served config world api) (s : S)
      (r : Result ReadError (Option Request × Input))
      → IsEnough r
      → ((request : Request) (rest : Input)
          → r ≡ ok (some request, rest)
          → (t : S) → EndsWell (again rest t))
      → EndsWell (served config world api again s r)
  unfolding IsEnough
  served-EndsWell again s (err e) h k = h
  served-EndsWell again s (ok (none, rest)) h k = tt
  served-EndsWell again s (ok (some request, rest)) h k =
      continue_with-EndsWell (again rest) (serve config world api request rest s)
        (k request rest refl) (serve-EndsWell request rest s)

  loop-EndsWell :
      (fuel : ℕ) (input : Input) (s : S)
      → length input < fuel
      → EndsWell (connection_loop config world api fuel input s)
  unfolding connection_loop
  loop-EndsWell zero input s room = absurd (omega (arith, room))
  loop-EndsWell (suc fuel) input s room =
      served-EndsWell (connection_loop config world api fuel) s (read_request input)
        (read_request-IsEnough input)
        (λ request rest e t.
          loop-EndsWell fuel rest t (omega (arith, room, read_request-ok input request rest e)))

-- Any bytes on a connection, and any Agent behind the server: the connection does not break off for
-- want of the model's fuel, so that the loop over the requests, the reads of the bodies and the talk
-- uploads end by themselves within the length of the input.
pub connection-EndsWell :
    {S : Type 0} (config : ServerConfig) (world : World) (api : AgentApi S) (input : Input) (s : S)
    → EndsWell config world api (connection config world api input s)
unfolding connection
connection-EndsWell config world api input s =
    loop-EndsWell config world api (suc (length input)) input s (omega arith)
