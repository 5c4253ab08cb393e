-- ===== src/Examples/Buffers.antt =====
-- agent_api.rs: the theorems on the log of events, the cache of commands and the media ring.
use michoi.Common.{◌≡◌, refl, true, false, none, some, [], ◌∷◌, arith, str_key, str_eq}
use michoi.Common.Tests.{str_eq}
use michoi.Common.Bytes.{ascii}
use michoi.Api.{Event, dialing, CommandResult, VideoFrame, AudioChunk}
use michoi.EventLog.{EventLog, recent}
use michoi.EventLog.Refine.{IsHistory, recent_lem}
use michoi.CommandCache.{get, new}
use michoi.CommandCache.Retention.{store_all, get-store_all}
use michoi.MediaRing.{MediaRing, push_video, push_audio}
use michoi.MediaRing.Accounting.{Pushed, new-IsWithin, push_video_total}

abbrev first_event : Event
first_event = record { seq = 1; at_ms = 100; kind = dialing (ascii "S1") }

abbrev second_event : Event
second_event = record { seq = 2; at_ms = 150; kind = dialing (ascii "S2") }

-- Two events have been pushed into a log of one.
abbrev small_log : EventLog
small_log = record {
  events = second_event ∷ [];
  next_seq = 3;
  live = first_event ∷ second_event ∷ [];
  capacity = 1;
}

small_log-IsHistory : IsHistory small_log
small_log-IsHistory = record { numbered = (refl, (refl, tt)); counted = refl; kept = refl }

recent_lem_example : recent small_log 1 ≡ some (second_event ∷ [])
recent_lem_example = recent_lem small_log 1 (omega arith) (omega arith) small_log-IsHistory

abbrev done : CommandResult
done = record { command_id = ascii "a"; success = true; error = none; replayed = false }

abbrev also_done : CommandResult
also_done = record { command_id = ascii "b"; success = true; error = none; replayed = false }

get-store_all_example :
    get (store_all (new 2) (done ∷ also_done ∷ [])) (ascii "a")
    ≡ some (record done { replayed = true })
unfolding str_eq
get-store_all_example = get-store_all 2 [] (also_done ∷ []) done (omega arith) (refl, (refl, tt))

abbrev frame : VideoFrame
frame = record { pts_us = 5; jpeg = 1 ∷ 2 ∷ [] }

abbrev chunk : AudioChunk
chunk = record { pts_us = 6; pcm = 3 ∷ 4 ∷ [] }

push_video_total_example :
    (r : MediaRing) × (push_video (michoi.MediaRing.new 1000 64) frame ≡ some r)
    × Pushed (michoi.MediaRing.new 1000 64) (frame ∷ []) [] r
unfolding michoi.MediaRing.new
push_video_total_example =
    push_video_total (michoi.MediaRing.new 1000 64) frame (new-IsWithin 1000 64)
