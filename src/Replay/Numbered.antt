-- ===== src/Replay/Numbered.antt =====
-- replay_agent.rs: the timeline of any capture.
use michoi.Replay.{door_ip}
use michoi.Common.{
  ℕ, ◌+◌, ◌-◌, ◌%◌, Bool, true, false, not, ◌&&◌, ◌||◌, Option, none, some, List, [], ◌∷◌, ◌++◌,
  ◌≡◌, refl, ap, ◌∙◌, length, length-append, ltb, ◌==◌, Result, ok, err, arith, if-both, and_right,
}
use mathlib.Core.Bool.{false≢true}
use michoi.Net.{ip_eq}
use michoi.Pcap.{UdpRecord}
use michoi.Protocol.{
  Message, MediaFragment, ProtocolError, parse_message, message_endpoints, message_media,
  media_audio,
}
use michoi.Protocol.Family
use michoi.Protocol.Op
use michoi.Protocol.Split.Total.{split_coalesced_total}
use michoi.Protocol.Jpeg.{JpegReassembler}
use michoi.Protocol.Jpeg.Tidy.{IsTidy, push_total}
use Prim.Native.Nat.{max}
use michoi.Common.Bytes.{ascii}
use michoi.Common.Options.{◌>>=◌}
use michoi.Replay.{
  call_started, pad_action_observed, call_ended, FramePayload, control, jpeg_bytes, door_pcm,
  TimedFrame, Timeline, add_frame, started_by, or_captured, on_request, on_pad_action, on_hangup,
  with_jpeg, on_fragment, on_session, on_parsed, on_parts, on_records,
}

-- The frames carry the numbers from `n` on, as 32-bit words.
abbrev pub NumberedFrom : ℕ → List TimedFrame → Type 0
NumberedFrom n [] = Unit {0}
NumberedFrom n (f ∷ fs) = (f.frame.sequence ≡ n % 4294967296) × NumberedFrom (n + 1) fs

NumberedFrom-append :
    (n : ℕ) (fs : List TimedFrame) (f : TimedFrame)
    → NumberedFrom n fs
    → f.frame.sequence ≡ (n + length fs) % 4294967296
    → NumberedFrom n (fs ++ (f ∷ []))
NumberedFrom-append n [] f h e = (e ∙ ap (λ k. k % 4294967296) (omega arith), tt)
NumberedFrom-append n (g ∷ gs) f h e =
    (h.0, NumberedFrom-append (n + 1) gs f h.1 (e ∙ ap (λ k. k % 4294967296) (omega arith)))

abbrev pub is_start : FramePayload → ℕ
is_start (control (call_started _ _)) = 1
is_start _ = 0

abbrev pub is_end : FramePayload → ℕ
is_end (control (call_ended _)) = 1
is_end _ = 0

abbrev pub count : (FramePayload → ℕ) → List TimedFrame → ℕ
count weight [] = 0
count weight (f ∷ fs) = weight f.frame.payload + count weight fs

count-append :
    (weight : FramePayload → ℕ) (fs : List TimedFrame) (f : TimedFrame)
    → count weight (fs ++ (f ∷ [])) ≡ count weight fs + weight f.frame.payload
count-append weight [] f = omega arith
count-append weight (g ∷ gs) f = omega (arith, count-append weight gs f)

abbrev pub bit : Bool → ℕ
bit true = 1
bit false = 0

pub record IsTimeline (t : Timeline) : Type 0 where
  pub tidy : IsTidy t.jpeg
  pub counted : t.sequence ≡ length t.out % 4294967296
  pub numbered : NumberedFrom 0 t.out
  pub starts : count is_start t.out ≡ bit t.started
  pub ends : count is_end t.out ≡ bit t.ended

not-true : (b : Bool) → not b ≡ true → b ≡ false
not-true true e = absurd (false≢true e)
not-true false e = refl

add_frame-IsTimeline :
    (offset : ℕ) (payload : FramePayload) (t : Timeline)
    → IsTidy t.jpeg
    → t.sequence ≡ length t.out % 4294967296
    → NumberedFrom 0 t.out
    → count is_start t.out + is_start payload ≡ bit t.started
    → count is_end t.out + is_end payload ≡ bit t.ended
    → IsTimeline (add_frame offset payload t)
unfolding add_frame
add_frame-IsTimeline offset payload t tidy counted numbered starts ends = record {
  tidy = tidy;
  counted = omega (arith, counted, length-append t.out (_ ∷ []));
  numbered = NumberedFrom-append 0 t.out _ numbered (omega (arith, counted));
  starts = count-append is_start t.out _ ∙ starts;
  ends = count-append is_end t.out _ ∙ ends;
}

-- A frame that neither starts nor ends the call.
add_media-IsTimeline :
    (offset : ℕ) (payload : FramePayload) (t : Timeline)
    → is_start payload ≡ 0
    → is_end payload ≡ 0
    → IsTimeline t
    → IsTimeline (add_frame offset payload t)
add_media-IsTimeline offset payload t s e h =
    add_frame-IsTimeline offset payload t h.tidy h.counted h.numbered (omega (arith, h.starts, s))
      (omega (arith, h.ends, e))

on_request-IsTimeline :
    (first offset : ℕ) (m : Message) (t : Timeline)
    → IsTimeline t
    → IsTimeline (on_request first offset m t)
on_request-IsTimeline first offset m t h =
    if-both IsTimeline (m.opcode == Op.request && not t.started) _ _
      (λ e.
        let once : t.started ≡ false = not-true t.started (and_right _ _ e) in
        let none_yet : count is_start t.out ≡ 0 = h.starts ∙ ap bit once in
        add_frame-IsTimeline offset (started_by (or_captured (message_endpoints m)))
          (record t { started = true; session_id = max first 1 }) h.tidy h.counted h.numbered
          (omega (arith, none_yet)) (omega (arith, h.ends)))
      (λ _. h)

on_pad_action-IsTimeline :
    (offset : ℕ) (m : Message) (t : Timeline) → IsTimeline t → IsTimeline (on_pad_action offset m t)
on_pad_action-IsTimeline offset m t h =
    if-both IsTimeline (m.opcode == Op.answer || m.opcode == Op.unlock) _ _
      (λ _. add_media-IsTimeline offset (control (pad_action_observed m.opcode)) t refl refl h)
      (λ _. h)

on_hangup-IsTimeline :
    (offset : ℕ) (m : Message) (t : Timeline) → IsTimeline t → IsTimeline (on_hangup offset m t)
on_hangup-IsTimeline offset m t h =
    if-both IsTimeline (m.opcode == Op.hangup && not t.ended) _ _
      (λ e.
        let once : t.ended ≡ false = not-true t.ended (and_right _ _ e) in
        let none_yet : count is_end t.out ≡ 0 = h.ends ∙ ap bit once in
        add_frame-IsTimeline offset (control (call_ended (ascii "captured_hangup")))
          (record t { ended = true }) h.tidy h.counted h.numbered (omega (arith, h.starts))
          (omega (arith, none_yet)))
      (λ _. h)

-- A step that gives a timeline.
abbrev IsMade : Option Timeline → Type 0
IsMade o = (t : Timeline) × ((o ≡ some t) × IsTimeline t)

made : (t : Timeline) → IsTimeline t → IsMade (some t)
made t h = (t, (refl, h))

and_then-IsMade :
    (o : Option Timeline) (next : Timeline → Option Timeline)
    → IsMade o
    → ((t : Timeline) → IsTimeline t → IsMade (next t))
    → IsMade (o >>= next)
and_then-IsMade o next (t, (e, h)) k =
    let (u, (f, hu)) = k t h in (u, (ap (λ x. x >>= next) e ∙ f, hu))

with_jpeg-IsTimeline :
    (offset : ℕ) (t : Timeline) (jpeg : JpegReassembler) (o : Option (List ℕ))
    → IsTimeline t
    → IsTidy jpeg
    → IsTimeline (with_jpeg offset t (jpeg, o))
with_jpeg-IsTimeline offset t jpeg none h tidy = record {
  tidy = tidy;
  counted = h.counted;
  numbered = h.numbered;
  starts = h.starts;
  ends = h.ends;
}
with_jpeg-IsTimeline offset t jpeg (some bytes) h tidy =
    add_frame-IsTimeline offset (jpeg_bytes bytes) (record t { jpeg = jpeg }) tidy h.counted
      h.numbered (omega (arith, h.starts)) (omega (arith, h.ends))

on_fragment-IsMade :
    (offset : ℕ) (t : Timeline) (o : Option MediaFragment)
    → IsTimeline t
    → IsMade (on_fragment offset t o)
on_fragment-IsMade offset t none h = made t h
on_fragment-IsMade offset t (some media) h =
    if-both IsMade (media.media_type == media_audio) _ _
      (λ _. made _ (add_media-IsTimeline offset (door_pcm media.payload) t refl refl h))
      (λ _.
        let (jpeg, out, e, tidy) = push_total t.jpeg media h.tidy in
        (
          with_jpeg offset t (jpeg, out),
          (
            ap (λ x. x >>= λ pushed. some (with_jpeg offset t pushed)) e,
            with_jpeg-IsTimeline offset t jpeg out h tidy,
          ),
        ))

on_session-IsMade :
    (first : ℕ) (r : UdpRecord) (m : Message) (t : Timeline)
    → IsTimeline t
    → IsMade (on_session first r m t)
unfolding on_session
on_session-IsMade first r m t h =
    let offset : ℕ = r.timestamp_micros - first in
    let one = on_request-IsTimeline first offset m t h in
    let two = on_pad_action-IsTimeline offset m (on_request first offset m t) one in
    let three = on_hangup-IsTimeline offset m _ two in
    if-both IsMade (not (m.opcode == Op.media) || not (ip_eq r.source_ip door_ip)) _ _
      (λ _. made _ three) (λ _. on_fragment-IsMade offset _ (message_media m) three)

on_parsed-IsMade :
    (first : ℕ) (r : UdpRecord) (t : Timeline) (p : Result ProtocolError Message)
    → IsTimeline t
    → IsMade (on_parsed first r t p)
on_parsed-IsMade first r t (err _) h = made t h
on_parsed-IsMade first r t (ok m) h =
    if-both IsMade (not (m.family == Family.session)) _ _ (λ _. made t h)
      (λ _. on_session-IsMade first r m t h)

on_parts-IsMade :
    (first : ℕ) (r : UdpRecord) (parts : List (List ℕ)) (t : Timeline)
    → IsTimeline t
    → IsMade (on_parts first r parts t)
on_parts-IsMade first r [] t h = made t h
on_parts-IsMade first r (raw ∷ rest) t h =
    and_then-IsMade (on_parsed first r t (parse_message raw)) (on_parts first r rest)
      (on_parsed-IsMade first r t (parse_message raw) h) (λ u hu. on_parts-IsMade first r rest u hu)

-- Any records of a capture, from any timeline that is well formed: the loop reaches the end without a
-- panic. The frames it has put out carry the numbers 0, 1, 2 and so on, as 32-bit words; at most one
-- of them starts a call and at most one ends it.
pub on_records-IsMade :
    (first : ℕ) (records : List UdpRecord) (t : Timeline)
    → IsTimeline t
    → IsMade (on_records first records t)
unfolding on_records
on_records-IsMade first [] t h = made t h
on_records-IsMade first (r ∷ rest) t h =
    if-both IsMade (ltb r.timestamp_micros first) _ _ (λ _. on_records-IsMade first rest t h)
      (λ _.
        let (parts, e, _, _) = split_coalesced_total r.payload in
        let used =
          and_then-IsMade (on_parts first r parts t) (on_records first rest)
            (on_parts-IsMade first r parts t h) (λ u hu. on_records-IsMade first rest u hu) in
        (
          used.0,
          (
            ap (λ x. x >>= λ ps. on_parts first r ps t >>= on_records first rest) e ∙ used.1.0,
            used.1.1,
          ),
        ))
