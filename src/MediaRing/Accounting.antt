-- ===== src/MediaRing/Accounting.antt =====
-- agent_api.rs: the byte count of the pre-roll buffer is exact, so no subtraction goes below zero, and
-- the buffer keeps within its byte cap and its window.
use michoi.MediaRing.{MediaRing}
use michoi.Common.{◌∙◌}
use michoi.MediaRing.{expire_audio}
use michoi.MediaRing.{shrink}
use michoi.Common.{
  ℕ, ◌+◌, ◌-◌, ◌≤◌, List, [], ◌∷◌, ◌++◌, some, ltb, length, ◌≡◌, refl, ap, arith, inl, inr,
  Bool-cases,
}
use mathlib.Core.List.{append_assoc}
use michoi.MediaRing.{evict, with_inner, push_video, push_audio, new}
use michoi.Common.{if◌then◌else◌, ◌==◌}
use michoi.Api.{VideoFrame, AudioChunk}
use michoi.MediaRing.{RingInner, checked_sub, expire_video}

abbrev pub video_bytes : List VideoFrame → ℕ
video_bytes [] = 0
video_bytes (f ∷ fs) = length f.jpeg + video_bytes fs

abbrev pub audio_bytes : List AudioChunk → ℕ
audio_bytes [] = 0
audio_bytes (a ∷ as') = length a.pcm + audio_bytes as'

abbrev pub IsBalanced : RingInner → Type 0
IsBalanced inner = inner.bytes ≡ video_bytes inner.video + audio_bytes inner.audio

-- `ys` is what is left of `xs` when some of its first elements are dropped.
abbrev pub IsSuffix {ℓ} : {A : Type ℓ} → List A → List A → Type ℓ
IsSuffix {A} ys xs = (zs : List A) × (zs ++ ys ≡ xs)

-- The first frame, if there is one, is not before `floor`.
abbrev pub StartsAt : ℕ → List VideoFrame → Type 0
StartsAt floor [] = Unit {0}
StartsAt floor (f ∷ fs) = floor ≤ f.pts_us

abbrev pub AudioStartsAt : ℕ → List AudioChunk → Type 0
AudioStartsAt floor [] = Unit {0}
AudioStartsAt floor (a ∷ as') = floor ≤ a.pts_us

checked_sub_le : (b n : ℕ) → n ≤ b → checked_sub b n ≡ some (b - n)
checked_sub_le b n h = ground arith

expire_video_lem :
    (floor : ℕ) (fs : List VideoFrame) (bytes other : ℕ)
    → bytes ≡ video_bytes fs + other
    → (fs' : List VideoFrame) × (bytes' : ℕ) × (expire_video floor fs bytes ≡ some (fs', bytes'))
      × (bytes' ≡ video_bytes fs' + other)
      × StartsAt floor fs'
      × IsSuffix fs' fs
unfolding expire_video
expire_video_lem floor [] bytes other h = ([], bytes, refl, h, tt, ([], refl))
expire_video_lem floor (f ∷ fs) bytes other h = elim (Bool-cases (ltb f.pts_us floor)) [
  | inl old ↦
      let fits : length f.jpeg ≤ bytes = omega arith in
      let left : bytes - length f.jpeg ≡ video_bytes fs + other = omega arith in
      let (fs', bytes', e, b, s, (zs, p)) =
        expire_video_lem floor fs (bytes - length f.jpeg) other left in
      (
        fs',
        bytes',
        rw (old, checked_sub_le bytes (length f.jpeg) fits) e,
        b,
        s,
        (f ∷ zs, ap (λ t. f ∷ t) p),
      )
  | inr new ↦ (f ∷ fs, bytes, rw new, h, ground arith, ([], refl))
]

expire_audio_lem :
    (floor : ℕ) (as' : List AudioChunk) (bytes other : ℕ)
    → bytes ≡ other + audio_bytes as'
    → (bs : List AudioChunk) × (bytes' : ℕ) × (expire_audio floor as' bytes ≡ some (bs, bytes'))
      × (bytes' ≡ other + audio_bytes bs)
      × AudioStartsAt floor bs
      × IsSuffix bs as'
unfolding expire_audio
expire_audio_lem floor [] bytes other h = ([], bytes, refl, h, tt, ([], refl))
expire_audio_lem floor (a ∷ as') bytes other h = elim (Bool-cases (ltb a.pts_us floor)) [
  | inl old ↦
      let fits : length a.pcm ≤ bytes = omega arith in
      let left : bytes - length a.pcm ≡ other + audio_bytes as' = omega arith in
      let (bs, bytes', e, b, s, (zs, p)) =
        expire_audio_lem floor as' (bytes - length a.pcm) other left in
      (
        bs,
        bytes',
        rw (old, checked_sub_le bytes (length a.pcm) fits) e,
        b,
        s,
        (a ∷ zs, ap (λ t. a ∷ t) p),
      )
  | inr new ↦ (a ∷ as', bytes, rw new, h, ground arith, ([], refl))
]

-- What the byte cap's loop leaves of two streams.
pub record Shrunk (cap : ℕ) (fs : List VideoFrame) (as' : List AudioChunk) (r : RingInner)
    : Type 0 where
  pub balanced : IsBalanced r
  pub capped : r.bytes ≤ cap
  pub video_left : IsSuffix r.video fs
  pub audio_left : IsSuffix r.audio as'

Shrunk-video :
    {cap : ℕ} {fs : List VideoFrame} {as' : List AudioChunk} {r : RingInner} (f : VideoFrame)
    → Shrunk cap fs as' r
    → Shrunk cap (f ∷ fs) as' r
Shrunk-video f s = record {
  balanced = s.balanced;
  capped = s.capped;
  video_left = (f ∷ s.video_left.0, ap (λ t. f ∷ t) s.video_left.1);
  audio_left = s.audio_left;
}

Shrunk-audio :
    {cap : ℕ} {fs : List VideoFrame} {as' : List AudioChunk} {r : RingInner} (a : AudioChunk)
    → Shrunk cap fs as' r
    → Shrunk cap fs (a ∷ as') r
Shrunk-audio a s = record {
  balanced = s.balanced;
  capped = s.capped;
  video_left = s.video_left;
  audio_left = (a ∷ s.audio_left.0, ap (λ t. a ∷ t) s.audio_left.1);
}

Shrunk-all :
    (cap : ℕ) (fs : List VideoFrame) (as' : List AudioChunk) (bytes : ℕ)
    → bytes ≡ video_bytes fs + audio_bytes as'
    → bytes ≤ cap
    → Shrunk cap fs as' (record { video = fs; audio = as'; bytes = bytes })
Shrunk-all cap fs as' bytes h c = record {
  balanced = h;
  capped = c;
  video_left = ([], refl);
  audio_left = ([], refl);
}

shrink_lem :
    (cap : ℕ) (fs : List VideoFrame) (as' : List AudioChunk) (bytes : ℕ)
    → bytes ≡ video_bytes fs + audio_bytes as'
    → (r : RingInner) × (shrink cap fs as' bytes ≡ some r) × Shrunk cap fs as' r
unfolding shrink
shrink_lem cap [] [] bytes h = (_, refl, Shrunk-all cap [] [] bytes h (omega arith))
shrink_lem cap (f ∷ fs) [] bytes h = elim (Bool-cases (ltb cap bytes)) [
  | inl over ↦
      let left : bytes - length f.jpeg ≡ video_bytes fs + 0 = omega arith in
      let (r, e, s) = shrink_lem cap fs [] (bytes - length f.jpeg) left in
      (r, rw (over, checked_sub_le bytes (length f.jpeg) (omega arith)) e, Shrunk-video f s)
  | inr under ↦ (_, rw under, Shrunk-all cap (f ∷ fs) [] bytes h (ground arith))
]
shrink_lem cap [] (a ∷ as') bytes h = elim (Bool-cases (ltb cap bytes)) [
  | inl over ↦
      let left : bytes - length a.pcm ≡ 0 + audio_bytes as' = omega arith in
      let (r, e, s) = shrink_lem cap [] as' (bytes - length a.pcm) left in
      (r, rw (over, checked_sub_le bytes (length a.pcm) (omega arith)) e, Shrunk-audio a s)
  | inr under ↦ (_, rw under, Shrunk-all cap [] (a ∷ as') bytes h (ground arith))
]
shrink_lem cap (f ∷ fs) (a ∷ as') bytes h = elim (Bool-cases (ltb cap bytes)) [
  | inl over ↦ elim (Bool-cases (ltb a.pts_us f.pts_us)) [
    | inl sooner ↦
        let left : bytes - length a.pcm ≡ video_bytes (f ∷ fs) + audio_bytes as' = omega arith in
        let (r, e, s) = shrink_lem cap (f ∷ fs) as' (bytes - length a.pcm) left in
        (
          r,
          rw (over, sooner, checked_sub_le bytes (length a.pcm) (omega arith)) e,
          Shrunk-audio a s,
        )
    | inr later ↦
        let left : bytes - length f.jpeg ≡ video_bytes fs + audio_bytes (a ∷ as') = omega arith in
        let (r, e, s) = shrink_lem cap fs (a ∷ as') (bytes - length f.jpeg) left in
        (
          r,
          rw (over, later, checked_sub_le bytes (length f.jpeg) (omega arith)) e,
          Shrunk-video f s,
        )
  ]
  | inr under ↦ (_, rw under, Shrunk-all cap (f ∷ fs) (a ∷ as') bytes h (ground arith))
]

IsSuffix-trans {ℓ} :
    {A : Type ℓ} {xs ys zs : List A} → IsSuffix xs ys → IsSuffix ys zs → IsSuffix xs zs
IsSuffix-trans {xs = xs} (ps, p) (qs, q) =
    (qs ++ ps, append_assoc qs ps xs ∙ ap (λ t. qs ++ t) p ∙ q)

evict_lem :
    (inner : RingInner) (window_us cap newest_us : ℕ)
    → IsBalanced inner
    → (r : RingInner) × (evict inner window_us cap newest_us ≡ some r)
      × Shrunk cap inner.video inner.audio r
unfolding evict
evict_lem inner window_us cap newest_us h =
    let floor : ℕ = newest_us - window_us in
    let (fs, b₁, e₁, h₁, s₁, v) =
      expire_video_lem floor inner.video inner.bytes (audio_bytes inner.audio) h in
    let (as', b₂, e₂, h₂, s₂, a) = expire_audio_lem floor inner.audio b₁ (video_bytes fs) h₁ in
    let (r, e₃, s) = shrink_lem cap fs as' b₂ h₂ in
    (
      r,
      rw (e₁, e₂) e₃,
      record {
        balanced = s.balanced;
        capped = s.capped;
        video_left = IsSuffix-trans s.video_left v;
        audio_left = IsSuffix-trans s.audio_left a;
      },
    )

-- The byte count is the number of bytes held, and within the cap.
pub record IsWithin (ring : MediaRing) : Type 0 where
  pub balanced : IsBalanced ring.inner
  pub capped : ring.inner.bytes ≤ ring.max_bytes

pub new-IsWithin : (window_us max_bytes : ℕ) → IsWithin (new window_us max_bytes)
unfolding new
new-IsWithin window_us max_bytes = record { balanced = refl; capped = omega arith }

video_bytes-append :
    (fs : List VideoFrame) (f : VideoFrame)
    → video_bytes (fs ++ (f ∷ [])) ≡ video_bytes fs + length f.jpeg
video_bytes-append [] f = omega arith
video_bytes-append (x ∷ fs) f = omega (arith, video_bytes-append fs f)

audio_bytes-append :
    (as' : List AudioChunk) (a : AudioChunk)
    → audio_bytes (as' ++ (a ∷ [])) ≡ audio_bytes as' + length a.pcm
audio_bytes-append [] a = omega arith
audio_bytes-append (x ∷ as') a = omega (arith, audio_bytes-append as' a)

-- What a push answers: it never fails, the ring keeps its bounds, and of each stream, with the new
-- item behind it, only first elements are dropped.
pub record Pushed (ring : MediaRing) (fs : List VideoFrame) (as' : List AudioChunk) (r : MediaRing)
    : Type 0 where
  pub within : IsWithin r
  pub window_kept : r.window_us ≡ ring.window_us
  pub cap_kept : r.max_bytes ≡ ring.max_bytes
  pub video_left : IsSuffix r.inner.video fs
  pub audio_left : IsSuffix r.inner.audio as'

evicted-Pushed :
    (ring : MediaRing) (inner : RingInner) (newest_us : ℕ)
    → IsBalanced inner
    → (r : MediaRing) × (with_inner ring (evict inner ring.window_us ring.max_bytes newest_us)
        ≡ some r)
      × Pushed ring inner.video inner.audio r
evicted-Pushed ring inner newest_us h =
    let (r, e, s) = evict_lem inner ring.window_us ring.max_bytes newest_us h in
    (
      record ring { inner = r },
      rw e,
      record {
        within = record { balanced = s.balanced; capped = s.capped };
        window_kept = refl;
        cap_kept = refl;
        video_left = s.video_left;
        audio_left = s.audio_left;
      },
    )

disabled-Pushed :
    (ring : MediaRing) → IsWithin ring → Pushed ring ring.inner.video ring.inner.audio ring
disabled-Pushed ring h = record {
  within = h;
  window_kept = refl;
  cap_kept = refl;
  video_left = ([], refl);
  audio_left = ([], refl);
}

-- Pushing a frame always succeeds: no subtraction from the byte count goes below zero. Afterwards
-- the count is again exact and within the cap, and only the oldest frames and chunks are gone. A ring
-- with no window stays as it is.
pub push_video_total :
    (ring : MediaRing) (frame : VideoFrame)
    → IsWithin ring
    → (r : MediaRing) × (push_video ring frame ≡ some r)
      × Pushed ring
          (if ring.window_us == 0 then ring.inner.video else ring.inner.video ++ (frame ∷ []))
          ring.inner.audio
          r
unfolding push_video
push_video_total ring frame h = elim (Bool-cases (ring.window_us == 0)) [
  | inl off ↦ (ring, rw off, rw off (disabled-Pushed ring h))
  | inr on ↦
      let (r, e, p) =
        evicted-Pushed ring
          (record (ring.inner) {
            video = ring.inner.video ++ (frame ∷ []);
            bytes = ring.inner.bytes + length frame.jpeg;
          })
          frame.pts_us (omega (arith, video_bytes-append ring.inner.video frame, h.balanced)) in
      (r, rw on e, rw on p)
]

-- Pushing an audio chunk: the same, with the chunk at the end of the audio.
pub push_audio_total :
    (ring : MediaRing) (chunk : AudioChunk)
    → IsWithin ring
    → (r : MediaRing) × (push_audio ring chunk ≡ some r)
      × Pushed ring ring.inner.video
          (if ring.window_us == 0 then ring.inner.audio else ring.inner.audio ++ (chunk ∷ []))
          r
unfolding push_audio
push_audio_total ring chunk h = elim (Bool-cases (ring.window_us == 0)) [
  | inl off ↦ (ring, rw off, rw off (disabled-Pushed ring h))
  | inr on ↦
      let (r, e, p) =
        evicted-Pushed ring
          (record (ring.inner) {
            audio = ring.inner.audio ++ (chunk ∷ []);
            bytes = ring.inner.bytes + length chunk.pcm;
          })
          chunk.pts_us (omega (arith, audio_bytes-append ring.inner.audio chunk, h.balanced)) in
      (r, rw on e, rw on p)
]
