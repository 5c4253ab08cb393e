-- ===== src/Server/Handlers.antt =====
-- agent_server.rs: the handlers of the commands. How `serde_json` reads a body is a parameter.
use michoi.Common.{
  ℕ, Bool, false, ◌||◌, Option, none, some, List, [], ◌∷◌, ◌++◌, length, ltb, str_eq, if◌then◌else◌,
  Result, ok, err, ◌>>◌, ◌>>=◌,
}
use michoi.Common.Bytes.{Str, ascii}
use michoi.Api.{CallAction, CommandResult, error_status, result_status}
use michoi.Api.Control.{AgentApi, Attempt, error_text}
use michoi.Server.{
  Request, Response, Payload, ok_body, ok_with, result_body, json, error, media_type_json,
}
use michoi.Server.Negotiate.{Quality, require_accept, require_content_type}

-- The four request bodies, read by `serde_json`: an error is its message.
pub record BodyFormat : Type 0 where
  pub command_request : List ℕ → Result Str Str
  pub monitor_request : List ℕ → Result Str Str
  pub dial_request : List ℕ → Result Str Str
  pub elevator_request : List ℕ → Result Str (Str × Option Str)

abbrev pub bad_request : Str → Response
bad_request message = error 400 (ascii "bad_request") message

-- `serde_json::from_slice` with the response for a body that it refuses.
abbrev pub read_json {ℓ} : {A : Type ℓ} → Result Str A → Result Response A
read_json (ok a) = ok a
read_json (err message) = err (bad_request (ascii "invalid body: " ++ message))

-- A name of one to `most` bytes.
abbrev pub sized_name : ℕ → Str → Str → Result Response Str
sized_name most message name =
    if str_eq name [] || ltb most (length name) then err (bad_request message) else ok name

abbrev long_room : Option Str → Bool
long_room none = false
long_room (some room_id) = ltb 34 (length room_id)

abbrev pub refuse_or : {S A : Type 0} → S → (A → S × Response) → Result Response A → S × Response
refuse_or s run (err response) = (s, response)
refuse_or s run (ok a) = run a

abbrev pub reported : {S : Type 0} → S × CommandResult → S × Response
reported (s, result) = (s, json (result_status result) (result_body result))

abbrev pub answered : {S : Type 0} → Payload → Str → Attempt S → S × Response
answered body name (s, ok _) = (s, json 200 body)
answered body name (s, err e) = (s, error (error_status e) name (error_text e))

module _ {S : Type 0} (quality : Quality) (format : BodyFormat) (api : AgentApi S) where
  abbrev pub json_both : Request → Result Response (Unit {0})
  json_both request = require_accept quality request (media_type_json ∷ []) >>= λ _.
      require_content_type request media_type_json

  unfoldable pub command : CallAction → Request → S → S × Response
  command action request s =
      refuse_or s (λ id. reported (api.command action id s))
        (json_both request
          >> (read_json (format.command_request request.body)
              >>= sized_name 128 (ascii "command_id must be 1..128 characters")))

  unfoldable pub monitor_start : Request → S → S × Response
  monitor_start request s =
      refuse_or s
        (λ id.
          answered (ok_with (ascii "camera_id") id) (ascii "monitor_failed")
            (api.start_monitor id s))
        (json_both request
          >> (read_json (format.monitor_request request.body)
              >>= sized_name 34 (ascii "camera_id must be 1..34 characters")))

  unfoldable pub monitor_stop : Request → S → S × Response
  monitor_stop request s =
      refuse_or s (λ _. answered ok_body (ascii "monitor_failed") (api.stop_monitor s))
        (require_accept quality request (media_type_json ∷ []))

  unfoldable pub dial : Request → S → S × Response
  dial request s =
      refuse_or s
        (λ id. answered (ok_with (ascii "callee_id") id) (ascii "dial_failed") (api.dial id s))
        (json_both request
          >> (read_json (format.dial_request request.body)
              >>= sized_name 34 (ascii "callee_id must be 1..34 characters")))

  unfoldable pub dial_hangup : Request → S → S × Response
  dial_hangup request s =
      refuse_or s (λ _. answered ok_body (ascii "dial_failed") (api.hangup_call s))
        (require_accept quality request (media_type_json ∷ []))

  abbrev checked_room : Str × Option Str → Result Response (Str × Option Str)
  checked_room (id, room_id) =
      sized_name 128 (ascii "command_id must be 1..128 characters") id >>= λ _.
      if long_room room_id
      then err (bad_request (ascii "room_id must be at most 34 characters"))
      else ok (id, room_id)

  unfoldable pub elevator : Request → S → S × Response
  elevator request s =
      refuse_or s (λ (id, room_id). reported (api.call_elevator id room_id s))
        (json_both request >> (read_json (format.elevator_request request.body) >>= checked_room))
