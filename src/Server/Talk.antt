-- ===== src/Server/Talk.antt =====
-- agent_server.rs: the talk-back uploads: the HTTP body and the two WebSockets. The flag TALK_BUSY is
-- passed in and given back. Each clock reading of a chunk is an argument.
pub mod Forward
pub mod Enough
use michoi.Common.{
  ℕ, zero, suc, ◌+◌, ◌-◌, Bool, true, false, not, ◌&&◌, ◌||◌, Option, none, some, List, [], ◌∷◌,
  ◌++◌, length, take, drop, ltb, leb, ◌==◌, str_eq, if◌then◌else◌, Result, ok, err, ◌>>=◌,
}
use Prim.Native.Nat.{min}
use michoi.Common.Bytes.{Str, ascii}
use michoi.Common.Text.{from_str_radix, same_word, trim}
use michoi.Api.{CallError, CommandResult, AudioChunk, rejected, error_status}
use michoi.Api.Control.{AgentApi, Attempt}
use michoi.Server.{
  Request, Response, Payload, raw, result_body, header, new, json, error, media_type_json,
  media_type_l16,
}
use michoi.Server.Body.{
  ReadError, bad_length, no_talk_length, closed_in_talk, out_of_fuel, Input, Read, read_exact,
  read_line, read_chunk_size, read_trailer,
}
use michoi.Server.Parse.{is_chunked, holds}
use michoi.Server.Negotiate.{require_content_type}

module _ {S : Type 0} (api : AgentApi S) (clock : ℕ → ℕ) where
  -- What is left of the pending bytes, or the error of the Agent.
  abbrev pub Forwarded : Type 0
  Forwarded = S × Result CallError (List ℕ)

  abbrev pub after_talk : (S → Forwarded) → Attempt S → Forwarded
  after_talk again (s, ok _) = again s
  after_talk again (s, err e) = (s, err e)

  -- `while pending.len() >= 512`: on fuel, of which the length of the pending bytes is enough.
  unfoldable pub forward : ℕ → List ℕ → S → Forwarded
  forward zero pending s = (s, ok pending)
  forward (suc fuel) pending s =
      let sent =
        after_talk (forward fuel (drop 512 pending))
          (api.talk (record { pts_us = clock (length pending); pcm = take 512 pending }) s) in
      if leb 512 (length pending) then sent else (s, ok pending)

  unfoldable pub forward_all : List ℕ → S → Forwarded
  forward_all pending s = forward (length pending) pending s

  -- `none` is the end of the body.
  abbrev pub Piece : Type 0
  Piece = Read (Option (List ℕ × Option ℕ))

  abbrev chunk_piece : ℕ → Option ℕ → ℕ × Input → Piece
  chunk_piece fuel remaining (size, input) =
      let last = read_trailer fuel input >>= λ (_, rest). ok (none, rest) in
      let next = read_exact (min size 65536) input >>= λ (chunk, rest).
      read_line rest >>= λ (_, later). ok (some (chunk, remaining), later) in
      if size == 0 then last else next

  -- One piece of a body with a length: `read` gives what has arrived, at most what the buffer holds.
  -- How much that is, is an argument.
  abbrev plain_piece : ℕ → ℕ → Input → Piece
  plain_piece arrived left input =
      let n = min (min left 4096) (min (suc arrived) (length input)) in
      if left == 0
      then ok (none, input)
      else if n == 0
      then err closed_in_talk
      else ok (some (take n input, some (left - n)), drop n input)

  abbrev or_zero : Option ℕ → ℕ
  or_zero none = 0
  or_zero (some n) = n

  abbrev piece : ℕ → ℕ → Bool → Option ℕ → Input → Piece
  piece fuel arrived chunked remaining input =
      if chunked
      then read_chunk_size input >>= chunk_piece fuel remaining
      else plain_piece arrived (or_zero remaining) input

  abbrev refused : CallError → Response
  refused e = json (error_status e) (result_body (rejected (ascii "talk") e))

  abbrev TalkOutcome : Type 0
  TalkOutcome = S × Result ReadError Response

  abbrev after_forward : (List ℕ → S → TalkOutcome) → Forwarded → TalkOutcome
  after_forward again (s, ok pending) = again pending s
  after_forward again (s, err e) = (s, ok (refused e))

  abbrev after_piece :
      (Option ℕ → List ℕ → Input → S → TalkOutcome)
      → List ℕ
      → S
      → Result ReadError (Option (List ℕ × Option ℕ) × Input)
      → TalkOutcome
  after_piece again pending s (err e) = (s, err e)
  after_piece again pending s (ok (none, rest)) = (s, ok (new 204 media_type_json (raw [])))
  after_piece again pending s (ok (some (bytes, remaining), rest)) =
      after_forward (λ left later. again remaining left rest later)
        (forward_all (pending ++ bytes) s)

  -- The loop over the pieces: `arrivals` tells how much each read of a plain body finds.
  unfoldable pub talk_loop : ℕ → (ℕ → ℕ) → Bool → Option ℕ → List ℕ → Input → S → TalkOutcome
  talk_loop zero arrivals chunked remaining pending input s = (s, err out_of_fuel)
  talk_loop (suc fuel) arrivals chunked remaining pending input s =
      after_piece (talk_loop fuel arrivals chunked) pending s
        (piece fuel (arrivals fuel) chunked remaining input)

  abbrev parsed_length : Option ℕ → Result ReadError (Option ℕ)
  parsed_length none = err bad_length
  parsed_length (some n) = ok (some n)

  abbrev remaining_of : Option Str → Result ReadError (Option ℕ)
  remaining_of none = ok none
  remaining_of (some text) = parsed_length (from_str_radix 10 text)

  abbrev is_given : Option ℕ → Bool
  is_given none = false
  is_given (some _) = true

  -- Behind the content type: the length, and the one slot for talk-back. The slot is free again when
  -- the upload ends.
  abbrev upload : (ℕ → ℕ) → Request → Input → Bool → S → Result ReadError (Option ℕ) → TalkOutcome
  upload arrivals request input busy s (err e) = (s, err e)
  upload arrivals request input busy s (ok remaining) =
      let chunked = is_chunked request in
      let talked = talk_loop (suc (length input)) arrivals chunked remaining [] input s in
      if not (chunked || is_given remaining)
      then (s, err no_talk_length)
      else if busy
      then (s, ok (error 409 (ascii "talk_busy") (ascii "another talk-back upload is active")))
      else talked

  abbrev upload_typed :
      (ℕ → ℕ) → Request → Input → Bool → S → Result Response (Unit {0}) → TalkOutcome
  upload_typed arrivals request input busy s (err response) = (s, ok response)
  upload_typed arrivals request input busy s (ok _) =
      upload arrivals request input busy s (remaining_of (header (ascii "content-length") request))

  unfoldable pub talk_upload : (ℕ → ℕ) → Request → Input → Bool → S → TalkOutcome
  talk_upload arrivals request input busy s =
      upload_typed arrivals request input busy s (require_content_type request media_type_l16)

-- What a WebSocket receives.
pub data WsMessage : Type 0 where
  binary ping : List ℕ → WsMessage
  text close other failed : WsMessage

-- What it sends.
pub data WsReply : Type 0 where
  pong : List ℕ → WsReply
  result_text : CommandResult → WsReply
  close_socket : WsReply

-- The key of the handshake, if the request is an upgrade.
abbrev upgrade_key : Bool → Option Str → Option Str
upgrade_key upgrade none = none
upgrade_key upgrade (some key) = if upgrade then some (trim key) else none

unfoldable pub websocket_key : Request → Option Str
websocket_key request =
    upgrade_key (holds (λ u. same_word u (ascii "websocket")) (header (ascii "upgrade") request))
      (header (ascii "sec-websocket-key") request)

module _ {S : Type 0} (api : AgentApi S) (clock : ℕ → ℕ) where
  abbrev reply_first : WsReply → S × List WsReply → S × List WsReply
  reply_first reply (s, replies) = (s, reply ∷ replies)

  abbrev after_binary :
      (List ℕ → S → S × List WsReply) → S × Result CallError (List ℕ) → S × List WsReply
  after_binary again (s, ok pending) = again pending s
  after_binary again (s, err e) = (s, result_text (rejected (ascii "talk") e) ∷ close_socket ∷ [])

  -- The loop over the messages of `/v1/talk.ws`.
  unfoldable pub talk_websocket : List ℕ → List WsMessage → S → S × List WsReply
  talk_websocket pending [] s = (s, [])
  talk_websocket pending (binary bytes ∷ rest) s =
      after_binary (λ left later. talk_websocket left rest later)
        (forward_all api clock (pending ++ bytes) s)
  talk_websocket pending (ping payload ∷ rest) s =
      reply_first (pong payload) (talk_websocket pending rest s)
  talk_websocket pending (close ∷ rest) s = (s, [])
  talk_websocket pending (failed ∷ rest) s = (s, [])
  talk_websocket pending (text ∷ rest) s = talk_websocket pending rest s
  talk_websocket pending (other ∷ rest) s = talk_websocket pending rest s

  -- The loop over the messages of `/v1/talk-video.ws`.
  unfoldable pub talk_video_websocket : List WsMessage → S → S × List WsReply
  talk_video_websocket [] s = (s, [])
  talk_video_websocket (binary bytes ∷ rest) s =
      let is_jpeg = str_eq (take 2 bytes) (0xff ∷ 0xd8 ∷ []) in
      talk_video_websocket rest (if is_jpeg then (api.talk_video bytes s).0 else s)
  talk_video_websocket (ping payload ∷ rest) s =
      reply_first (pong payload) (talk_video_websocket rest s)
  talk_video_websocket (close ∷ rest) s = (s, [])
  talk_video_websocket (failed ∷ rest) s = (s, [])
  talk_video_websocket (text ∷ rest) s = talk_video_websocket rest s
  talk_video_websocket (other ∷ rest) s = talk_video_websocket rest s
