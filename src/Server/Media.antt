-- ===== src/Server/Media.antt =====
-- agent_server.rs: the door's media for a browser, and the encoding of the WebSocket handshake.
pub mod Base64
use michoi.Common.{
  ℕ, zero, suc, ◌+◌, ◌-◌, ◌*◌, ◌/◌, ◌%◌, Bool, true, false, Option, none, some, List, [], ◌∷◌, ◌++◌,
  length, ltb, leb, ◌==◌, if◌then◌else◌, Result, ok, err, get_or,
}
use michoi.Common.Bytes.{Str, ascii}
use michoi.Common.Text.{decimal}
use michoi.Api.{VideoFrame, AudioChunk}
use michoi.Api.Control.{AgentApi}
use michoi.Server.{
  Request, Response, Payload, write_response, crlf, media_type_jpeg, media_type_mjpeg,
  media_type_l16,
}
use michoi.Server.Negotiate.{Quality, require_accept}
use michoi.Server.Events.{write_chunk, last_chunk}

-- One turn of a media stream's loop.
pub data MediaTurn (A : Type 0) : Type 0 where
  item : A → MediaTurn A
  lagged closed gone : MediaTurn A

unfoldable pub part : VideoFrame → List ℕ
part frame =
    ascii "--frame"
    ++ (crlf
        ++ (ascii "Content-Type: image/jpeg"
            ++ (crlf
                ++ (ascii "Content-Length: "
                    ++ (decimal (length frame.jpeg)
                        ++ (crlf
                            ++ (ascii "X-Pts-Us: "
                                ++ (decimal frame.pts_us
                                    ++ (crlf ++ (crlf ++ (frame.jpeg ++ crlf)))))))))))

abbrev first_part : Option VideoFrame → List ℕ
first_part none = []
first_part (some frame) = part frame

unfoldable pub frames : List (MediaTurn VideoFrame) → List ℕ
frames [] = []
frames (item frame ∷ rest) = part frame ++ frames rest
frames (lagged ∷ rest) = frames rest
frames (closed ∷ rest) = []
frames (gone ∷ rest) = []

abbrev media_head : Str → Str → Str
media_head type more =
    ascii "HTTP/1.1 200 OK"
    ++ (crlf
        ++ (ascii "Content-Type: "
            ++ (type
                ++ (crlf
                    ++ (ascii "Cache-Control: no-store"
                        ++ (crlf ++ (more ++ (ascii "Connection: close" ++ (crlf ++ crlf)))))))))

-- `pair.swap(0, 1)` for each whole pair.
unfoldable pub swap_pairs : List ℕ → List ℕ
swap_pairs (x ∷ (y ∷ rest)) = y ∷ x ∷ swap_pairs rest
swap_pairs rest = rest

unfoldable pub sounds : List (MediaTurn AudioChunk) → List ℕ
sounds [] = []
sounds (item chunk ∷ rest) = write_chunk (swap_pairs chunk.pcm) ++ sounds rest
sounds (lagged ∷ rest) = sounds rest
sounds (closed ∷ rest) = last_chunk
sounds (gone ∷ rest) = []

abbrev pub refused_or {ℓ} : {A : Type ℓ} → (Payload → List ℕ) → List ℕ → Result Response A → List ℕ
refused_or bytes streamed (err response) = write_response bytes response false
refused_or bytes streamed (ok _) = streamed

module _ {S : Type 0} (bytes : Payload → List ℕ) (quality : Quality) (api : AgentApi S) where
  -- All that is written to the client of `/v1/stream.mjpeg`.
  unfoldable pub mjpeg_stream : List (MediaTurn VideoFrame) → Request → S → List ℕ
  mjpeg_stream turns request s =
      refused_or bytes
        (media_head media_type_mjpeg [] ++ (first_part (api.snapshot s) ++ frames turns))
        (require_accept quality request (media_type_mjpeg ∷ media_type_jpeg ∷ []))

  -- All that is written to the client of `/v1/audio.pcm`.
  unfoldable pub pcm_stream : List (MediaTurn AudioChunk) → Request → S → List ℕ
  pcm_stream turns request s =
      refused_or bytes
        (media_head media_type_l16 (ascii "Transfer-Encoding: chunked" ++ crlf) ++ sounds turns)
        (require_accept quality request (media_type_l16 ∷ []))

-- `TABLE[n]`
unfoldable pub base64_char : ℕ → ℕ
base64_char n =
    if ltb n 26
    then 65 + n
    else if ltb n 52
    then 71 + n
    else if ltb n 62
    then n - 4
    else if n == 62
    then b'+'
    else b'/'

-- The digits of one chunk of three bytes, which are `n`.
abbrev pub digit : ℕ → ℕ → ℕ
digit n weight = base64_char (n / weight % 64)

unfoldable pub base64_encode : List ℕ → Str
base64_encode [] = []
base64_encode (a ∷ []) = let n = a * 65536 in digit n 262144 ∷ digit n 4096 ∷ b'=' ∷ b'=' ∷ []
base64_encode (a ∷ (b ∷ [])) =
    let n = a * 65536 + b * 256 in digit n 262144 ∷ digit n 4096 ∷ digit n 64 ∷ b'=' ∷ []
base64_encode (a ∷ (b ∷ (c ∷ rest))) =
    let n = a * 65536 + b * 256 + c in
    digit n 262144 ∷ digit n 4096 ∷ digit n 64 ∷ digit n 1 ∷ base64_encode rest
