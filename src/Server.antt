-- ===== src/Server.antt =====
-- agent_server.rs: the HTTP server of an Agent: the requests, the responses and the configuration.
-- A body that `serde_json` writes is the value that it writes, and three embedded pages are
-- constructors of their own.
pub mod Body
pub mod Parse
pub mod Negotiate
pub mod Handlers
pub mod Route
pub mod Events
pub mod Talk
pub mod Media
pub mod Connection
use michoi.Common.{
  ℕ, ◌+◌, Bool, true, false, not, Option, none, some, List, [], ◌∷◌, ◌++◌, length, ◌==◌, str_eq,
  if◌then◌else◌,
}
use michoi.Common.Bytes.{Str, ascii}
use michoi.Common.Text.{same_word, split, split_once, decimal}
use michoi.Common.Options.{◌>>=◌}
use michoi.Api.{CallState, Event, CommandResult}
use michoi.Api.Control.{MediaInfo, ApiInfo, CameraInfo}

pub record ServerConfig : Type 0 where
  pub token : Option Str
  pub swagger : Bool
  pub web_ui : Bool
  pub camera_resolutions : List Str
  pub camera_resolution_default : Str
  pub camera_fps : List ℕ
  pub camera_fps_default : ℕ

unfoldable pub default_server : ServerConfig
default_server = record {
  token = none;
  swagger = false;
  web_ui = true;
  camera_resolutions = ascii "320x240" ∷ ascii "640x480" ∷ ascii "1024x768" ∷ [];
  camera_resolution_default = ascii "640x480";
  camera_fps = 12 ∷ 24 ∷ 48 ∷ [];
  camera_fps_default = 24;
}

pub record Request : Type 0 where
  pub method : Str
  pub path : Str
  pub query : Str
  pub headers : List (Str × Str)
  pub body : List ℕ
  pub keep_alive : Bool

abbrev pub find_header : Str → List (Str × Str) → Option Str
find_header name [] = none
find_header name ((k, v) ∷ rest) = if same_word k name then some v else find_header name rest

-- `Request::header`
unfoldable pub header : Str → Request → Option Str
header name request = find_header name request.headers

-- `replace` of three bytes, a percent sign and two more, with one.
unfoldable pub replace_escape : ℕ → ℕ → ℕ → Str → Str
replace_escape p q with (x ∷ (y ∷ (z ∷ rest))) =
    let replaced = replace_escape p q with rest in
    let next = replace_escape p q with (y ∷ (z ∷ rest)) in
    if str_eq (x ∷ y ∷ z ∷ []) (b'%' ∷ p ∷ q ∷ []) then with ∷ replaced else x ∷ next
replace_escape p q with s = s

abbrev plus_to_space : Str → Str
plus_to_space [] = []
plus_to_space (x ∷ xs) = (if x == b'+' then b' ' else x) ∷ plus_to_space xs

unfoldable pub decode_param : Str → Str
decode_param v = plus_to_space (replace_escape b'2' b'B' b'+' (replace_escape b'3' b'D' b'=' v))

abbrev pub find_param : Str → List Str → Option Str
find_param name [] = none
find_param name (pair ∷ rest) =
    let later = find_param name rest in param_of name later (split_once b'=' pair)
  where
    param_of : Str → Option Str → Option (Str × Str) → Option Str
    param_of name later none = later
    param_of name later (some (k, v)) = if str_eq k name then some (decode_param v) else later

-- `Request::query_param`
unfoldable pub query_param : Str → Request → Option Str
query_param name request = find_param name (split b'&' request.query)

-- What the body of a response holds.
pub data Payload : Type 0 where
  raw : List ℕ → Payload
  openapi_yaml pad_html swagger_html ok_body : Payload
  error_body : Str → Str → Payload
  supported : Str → List Str → Payload
  ui_config : ServerConfig → Payload
  api_info : ApiInfo → Payload
  state_body : CallState → Payload
  media_body : MediaInfo → Payload
  cameras_body : List CameraInfo → Payload
  result_body : CommandResult → Payload
  ok_with : Str → Str → Payload

pub record Response : Type 0 where
  pub status : ℕ
  pub headers : List (Str × Str)
  pub body : Payload

abbrev pub media_type_json : Str
media_type_json = ascii "application/json; v=1"

abbrev pub media_type_events : Str
media_type_events = ascii "text/event-stream"

abbrev pub media_type_jpeg : Str
media_type_jpeg = ascii "image/jpeg"

abbrev pub media_type_l16 : Str
media_type_l16 = ascii "audio/L16; rate=8000; channels=1"

abbrev pub media_type_mjpeg : Str
media_type_mjpeg = ascii "multipart/x-mixed-replace; boundary=frame"

unfoldable pub new : ℕ → Str → Payload → Response
new status content_type body = record {
  status = status;
  headers = (ascii "Content-Type", content_type) ∷ [];
  body = body;
}

unfoldable pub json : ℕ → Payload → Response
json status value = new status media_type_json value

-- `Response::error`
unfoldable pub error : ℕ → Str → Str → Response
error status name message = json status (error_body name message)

unfoldable pub negotiation : ℕ → Str → List Str → Response
negotiation status name types = json status (supported name types)

-- `Response::header`
unfoldable pub with_header : Str → Str → Response → Response
with_header name value response = record response {
  headers = response.headers ++ ((name, value) ∷ []);
}

unfoldable pub reason : ℕ → Str
reason status =
    if status == 200
    then ascii "OK"
    else if status == 204
    then ascii "No Content"
    else if status == 400
    then ascii "Bad Request"
    else if status == 401
    then ascii "Unauthorized"
    else if status == 404
    then ascii "Not Found"
    else if status == 405
    then ascii "Method Not Allowed"
    else if status == 406
    then ascii "Not Acceptable"
    else if status == 409
    then ascii "Conflict"
    else if status == 413
    then ascii "Payload Too Large"
    else if status == 415
    then ascii "Unsupported Media Type"
    else if status == 429
    then ascii "Too Many Requests"
    else if status == 500
    then ascii "Internal Server Error"
    else if status == 501
    then ascii "Not Implemented"
    else if status == 503
    then ascii "Service Unavailable"
    else ascii "Unknown"

abbrev pub crlf : Str
crlf = 13 ∷ 10 ∷ []

abbrev header_lines : List (Str × Str) → Str
header_lines [] = []
header_lines ((name, value) ∷ rest) = name ++ (ascii ": " ++ (value ++ (crlf ++ header_lines rest)))

-- `write_response`, where `bytes` gives the bytes of a body.
unfoldable pub write_response : (Payload → List ℕ) → Response → Bool → List ℕ
write_response bytes response keep_alive =
    let connection =
      if keep_alive then ascii "Connection: keep-alive" else ascii "Connection: close" in
    ascii "HTTP/1.1 "
    ++ (decimal response.status
        ++ (32
            ∷ (reason response.status
                ++ (crlf
                    ++ (header_lines response.headers
                        ++ (ascii "Content-Length: "
                            ++ (decimal (length (bytes response.body))
                                ++ (crlf
                                    ++ (connection
                                        ++ (crlf ++ (crlf ++ bytes response.body)))))))))))
