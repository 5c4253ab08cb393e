-- ===== src/MediaRing.antt =====
-- agent_api.rs: `MediaRing`, the pre-roll buffer of door video and audio, bounded in time and bytes.
-- A subtraction from the byte count is checked: `none` stands for a count that would go below zero.
pub mod Accounting
use michoi.Common.{
  ℕ, zero, suc, ◌+◌, ◌-◌, ◌*◌, Bool, true, false, List, [], ◌∷◌, ◌++◌, Option, none, some, leb, ltb,
  ◌==◌, if◌then◌else◌,
}
use michoi.Common.{length, head?, last?, keep}
use michoi.Common.Options.{◌>>=◌}
use michoi.Api.{VideoFrame, AudioChunk}
use Prim.Native.Nat.{min, max}

pub record RingInner : Type 0 where
  pub video : List VideoFrame
  pub audio : List AudioChunk
  pub bytes : ℕ

pub record MediaRing : Type 0 where
  pub inner : RingInner
  pub window_us : ℕ
  pub max_bytes : ℕ

unfoldable pub new : ℕ → ℕ → MediaRing
new window_us max_bytes = record {
  inner = record { video = []; audio = []; bytes = 0 };
  window_us = window_us;
  max_bytes = max_bytes;
}

-- `bytes -= len`
abbrev pub checked_sub : ℕ → ℕ → Option ℕ
checked_sub bytes len = if leb len bytes then some (bytes - len) else none

-- The two loops that drop what is older than the window.
unfoldable pub expire_video : ℕ → List VideoFrame → ℕ → Option (List VideoFrame × ℕ)
expire_video floor [] bytes = some ([], bytes)
expire_video floor (f ∷ fs) bytes =
    let dropped = checked_sub bytes (length f.jpeg) >>= expire_video floor fs in
    if ltb f.pts_us floor then dropped else some (f ∷ fs, bytes)

unfoldable pub expire_audio : ℕ → List AudioChunk → ℕ → Option (List AudioChunk × ℕ)
expire_audio floor [] bytes = some ([], bytes)
expire_audio floor (a ∷ as') bytes =
    let dropped = checked_sub bytes (length a.pcm) >>= expire_audio floor as' in
    if ltb a.pts_us floor then dropped else some (a ∷ as', bytes)

-- The loop that holds the byte cap: it drops the oldest item of whichever stream is oldest.
unfoldable pub shrink : ℕ → List VideoFrame → List AudioChunk → ℕ → Option RingInner
shrink cap [] [] bytes = some (record { video = []; audio = []; bytes = bytes })
shrink cap (f ∷ fs) [] bytes =
    let dropped = checked_sub bytes (length f.jpeg) >>= shrink cap fs [] in
    if ltb cap bytes then dropped else some (record { video = f ∷ fs; audio = []; bytes = bytes })
shrink cap [] (a ∷ as') bytes =
    let dropped = checked_sub bytes (length a.pcm) >>= shrink cap [] as' in
    if ltb cap bytes then dropped else some (record { video = []; audio = a ∷ as'; bytes = bytes })
shrink cap (f ∷ fs) (a ∷ as') bytes =
    let audio_dropped = checked_sub bytes (length a.pcm) >>= shrink cap (f ∷ fs) as' in
    let video_dropped = checked_sub bytes (length f.jpeg) >>= shrink cap fs (a ∷ as') in
    if ltb cap bytes
    then (if ltb a.pts_us f.pts_us then audio_dropped else video_dropped)
    else some (record { video = f ∷ fs; audio = a ∷ as'; bytes = bytes })

unfoldable pub evict : RingInner → ℕ → ℕ → ℕ → Option RingInner
evict inner window_us max_bytes newest_us = do
  (video, left) ← expire_video (newest_us - window_us) inner.video inner.bytes
  (audio, rest) ← expire_audio (newest_us - window_us) inner.audio left
  shrink max_bytes video audio rest

abbrev with_inner : MediaRing → Option RingInner → Option MediaRing
with_inner ring none = none
with_inner ring (some inner) = some (record ring { inner = inner })

unfoldable pub push_video : MediaRing → VideoFrame → Option MediaRing
push_video ring frame =
    if ring.window_us == 0
    then some ring
    else with_inner ring (
        evict
          (record (ring.inner) {
            video = ring.inner.video ++ (frame ∷ []);
            bytes = ring.inner.bytes + length frame.jpeg;
          })
          ring.window_us ring.max_bytes frame.pts_us)

unfoldable pub push_audio : MediaRing → AudioChunk → Option MediaRing
push_audio ring chunk =
    if ring.window_us == 0
    then some ring
    else with_inner ring (
        evict
          (record (ring.inner) {
            audio = ring.inner.audio ++ (chunk ∷ []);
            bytes = ring.inner.bytes + length chunk.pcm;
          })
          ring.window_us ring.max_bytes chunk.pts_us)

pub record MediaHistory : Type 0 where
  pub video : List VideoFrame
  pub audio : List AudioChunk

unfoldable pub history : MediaRing → ℕ → MediaHistory
history ring since_us = record {
  video = keep (λ f. ltb since_us f.pts_us) ring.inner.video;
  audio = keep (λ a. ltb since_us a.pts_us) ring.inner.audio;
}

-- `min` and `max` of at most two times.
abbrev either_time : (ℕ → ℕ → ℕ) → Option ℕ → Option ℕ → Option ℕ
either_time f none b = b
either_time f (some a) none = some a
either_time f (some a) (some b) = some (f a b)

abbrev video_time : Option VideoFrame → Option ℕ
video_time none = none
video_time (some f) = some f.pts_us

abbrev audio_time : Option AudioChunk → Option ℕ
audio_time none = none
audio_time (some a) = some a.pts_us

abbrev span : Option ℕ → Option ℕ → ℕ
span (some o) (some n) = n - o
span _ _ = 0

unfoldable pub buffered : MediaRing → ℕ
buffered ring =
    span
      (either_time min (video_time (head? ring.inner.video)) (audio_time (head? ring.inner.audio)))
      (either_time max (video_time (last? ring.inner.video)) (audio_time (last? ring.inner.audio)))

unfoldable pub bytes : MediaRing → ℕ
bytes ring = ring.inner.bytes
