-- ===== src/Server/Route.antt =====
-- agent_server.rs: the router of the plain requests.
pub mod Open
use michoi.Common.{
  ℕ, ◌-◌, ◌/◌, Bool, true, false, not, ◌&&◌, ◌||◌, Option, none, some, List, [], ◌∷◌, ◌++◌, str_eq,
  if◌then◌else◌, Result, ok, err,
}
use michoi.Common.Bytes.{Str, ascii}
use michoi.Common.Text.{starts_with, decimal}
use michoi.Api.{CallAction, claim, unlock, hangup, VideoFrame}
use michoi.Api.Control.{AgentApi, ApiInfo}
use michoi.Server.{
  ServerConfig, Request, Response, Payload, raw, openapi_yaml, pad_html, swagger_html, ui_config,
  api_info, state_body, media_body, cameras_body, new, json, error, with_header, media_type_json,
  media_type_events, media_type_jpeg, media_type_l16,
}
use michoi.Server.Negotiate.{Quality, require_accept}
use michoi.Server.Handlers.{
  BodyFormat, refuse_or, command, monitor_start, monitor_stop, dial, dial_hangup, elevator,
}

abbrev pub is_route : Str → Str → Request → Bool
is_route method path request = str_eq request.method method && str_eq request.path path

abbrev pub not_found : Str → Response
not_found message = error 404 (ascii "not_found") message

abbrev media_types : List Str
media_types = media_type_json ∷ media_type_events ∷ media_type_jpeg ∷ media_type_l16 ∷ []

abbrev capabilities : List Str
capabilities =
    ascii "events"
    ∷ ascii "snapshot"
    ∷ ascii "mjpeg"
    ∷ ascii "pcm"
    ∷ ascii "talk"
    ∷ ascii "talk-ws"
    ∷ ascii "talk-video-ws"
    ∷ ascii "pad"
    ∷ ascii "cameras"
    ∷ ascii "monitor"
    ∷ ascii "elevator"
    ∷ ascii "dial"
    ∷ []

abbrev pub is_streaming : Request → Bool
is_streaming request =
    is_route (ascii "GET") (ascii "/v1/events") request
    || (is_route (ascii "POST") (ascii "/v1/talk") request
        || (is_route (ascii "GET") (ascii "/v1/stream.mjpeg") request
            || (is_route (ascii "GET") (ascii "/v1/audio.pcm") request
                || (is_route (ascii "GET") (ascii "/v1/talk.ws") request
                    || is_route (ascii "GET") (ascii "/v1/talk-video.ws") request))))

-- The last arms of the `match`.
abbrev pub unrouted : Request → Response
unrouted request =
    if is_streaming request
    then error 500 (ascii "internal") (ascii "streaming route reached the plain router")
    else if starts_with (ascii "/v1/") request.path
    then not_found (ascii "no route for " ++ request.path)
    else not_found (ascii "unknown path")

-- What is served without a look at the Agent.
abbrev pad_page : ServerConfig → Response
pad_page config =
    if config.web_ui
    then with_header (ascii "Cache-Control") (ascii "no-cache")
        (new 200 (ascii "text/html; charset=utf-8") pad_html)
    else not_found (ascii "the browser Pad is disabled on this server")

abbrev swagger_page : ServerConfig → Response
swagger_page config =
    if config.swagger
    then new 200 (ascii "text/html; charset=utf-8") swagger_html
    else not_found (ascii "Swagger UI is disabled on this server")

abbrev frame_response : ℕ → Option VideoFrame → Response
frame_response clock_us none = error 404 (ascii "no_frame") (ascii "no door frame received yet")
frame_response clock_us (some frame) =
    with_header (ascii "X-Frame-Age-Ms") (decimal ((clock_us - frame.pts_us) / 1000)) (
      with_header (ascii "Cache-Control") (ascii "no-store")
        (new 200 media_type_jpeg (raw frame.jpeg)))

module _ {S : Type 0} (quality : Quality) (format : BodyFormat) (config : ServerConfig)
    (api : AgentApi S) where
  -- An answer of one type behind the check of `Accept`.
  abbrev pub shown : Str → S → Request → Response → S × Response
  shown type s request response =
      refuse_or s (λ _. (s, response)) (require_accept quality request (type ∷ []))

  abbrev pub cameras : S → Request → S × Response
  cameras s request =
      refuse_or s (λ _. let (later, list) = api.cameras s in (later, json 200 (cameras_body list)))
        (require_accept quality request (media_type_json ∷ []))

  -- The arms with POST.
  abbrev pub posted : Request → S → S × Response
  posted request s =
      if is_route (ascii "POST") (ascii "/v1/monitor") request
      then monitor_start quality format api request s
      else if is_route (ascii "POST") (ascii "/v1/monitor/stop") request
      then monitor_stop quality format api request s
      else if is_route (ascii "POST") (ascii "/v1/dial") request
      then dial quality format api request s
      else if is_route (ascii "POST") (ascii "/v1/dial/hangup") request
      then dial_hangup quality format api request s
      else if is_route (ascii "POST") (ascii "/v1/elevator") request
      then elevator quality format api request s
      else if is_route (ascii "POST") (ascii "/v1/call/claim") request
      then command quality format api claim request s
      else if is_route (ascii "POST") (ascii "/v1/call/unlock") request
      then command quality format api unlock request s
      else if is_route (ascii "POST") (ascii "/v1/call/hangup") request
      then command quality format api hangup request s
      else (s, unrouted request)

  -- All arms of the `match`.
  abbrev pub by_path : Request → S → S × Response
  by_path request s =
      if is_route (ascii "GET") (ascii "/openapi.yaml") request
      then (s, new 200 (ascii "application/yaml") openapi_yaml)
      else if is_route (ascii "GET") (ascii "/") request
          || is_route (ascii "GET") (ascii "/pad") request
      then (s, pad_page config)
      else if is_route (ascii "GET") (ascii "/v1/ui-config") request
      then (s, json 200 (ui_config config))
      else if is_route (ascii "GET") (ascii "/swagger") request
      then (s, swagger_page config)
      else if is_route (ascii "GET") (ascii "/v1/") request
          || is_route (ascii "GET") (ascii "/v1") request
      then shown media_type_json s request (
          json 200 (
            api_info (record {
              api_version = ascii "1";
              agent_id = api.agent_id s;
              media_types = media_types;
              capabilities = capabilities;
            })))
      else if is_route (ascii "GET") (ascii "/v1/state") request
      then shown media_type_json s request (json 200 (state_body (api.state s)))
      else if is_route (ascii "GET") (ascii "/v1/media") request
      then shown media_type_json s request (json 200 (media_body (api.media_info s)))
      else if is_route (ascii "GET") (ascii "/v1/snapshot.jpg") request
      then shown media_type_jpeg s request (frame_response (api.clock_us s) (api.snapshot s))
      else if is_route (ascii "GET") (ascii "/v1/cameras") request
      then cameras s request
      else posted request s

  unfoldable pub route : Request → S → S × Response
  route request s = by_path request s
