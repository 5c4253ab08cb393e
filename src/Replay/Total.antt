-- ===== src/Replay/Total.antt =====
-- replay_agent.rs: `replay_timeline` on any bytes.
use michoi.Replay.{parse_message}
use michoi.Replay.{has_request}
use michoi.Replay.{Message}
use michoi.Replay.{is_request}
use michoi.Replay.{split_coalesced}
use michoi.Common.{
  ℕ, Bool, true, false, Option, none, some, List, [], ◌∷◌, ◌≡◌, refl, sym, ◌∙◌, ◌≤◌, inl, inr, All,
  Bool-cases, if-cases, Result, ok, err, arith, if◌then◌else◌,
}
use mathlib.Core.Path.{subst}
use mathlib.Core.Bool.{false≢true}
use mathlib.Core.Option.{some-injective, none-ne-some}
use michoi.Pcap.{UdpRecord, PcapError, read_udp}
use michoi.Protocol.{Message, parse_message}
use michoi.Protocol.Family
use michoi.Protocol.Op
use michoi.Protocol.Split.{split_coalesced}
use michoi.Protocol.Split.Total.{split_coalesced_total}
use michoi.Protocol.Jpeg.Tidy.{empty-IsTidy}
use michoi.Replay.{
  TimedFrame, Timeline, ReplayError, panicked, no_session, not_read, fresh, is_request, has_request,
  first_session, timeline_out, timeline_from, timeline_of, replay_timeline,
}
use michoi.Replay.Numbered.{
  IsTimeline, NumberedFrom, count, is_start, is_end, bit, on_records-IsMade,
}

fresh-IsTimeline : IsTimeline fresh
unfolding fresh
fresh-IsTimeline = record {
  tidy = empty-IsTidy;
  counted = omega arith;
  numbered = tt;
  starts = refl;
  ends = refl;
}

-- The frames are numbered, and at most one starts the call and one ends it.
abbrev pub IsReplay : List TimedFrame → Type 0
IsReplay out = NumberedFrom 0 out × ((count is_start out ≤ 1) × (count is_end out ≤ 1))

bit-le : (b : Bool) → bit b ≤ 1
bit-le true = omega arith
bit-le false = omega arith

IsTimeline-IsReplay : (t : Timeline) → IsTimeline t → IsReplay t.out
IsTimeline-IsReplay t h =
    (h.numbered, (omega (arith, h.starts, bit-le t.started), omega (arith, h.ends, bit-le t.ended)))

-- A message that does not open a session.
abbrev NoRequest : List ℕ → Type 0
NoRequest raw =
    (m : Message) → parse_message raw ≡ ok m → m.family ≡ Family.session → m.opcode ≡ Op.request → ⊥

-- No message in the datagram opens a session.
abbrev pub IsQuiet : UdpRecord → Type 0
IsQuiet r = (parts : List (List ℕ)) → split_coalesced r.payload ≡ some parts → All NoRequest parts

-- What a run of `replay_timeline` may give for a capture that was read so.
abbrev pub IsGood :
    Result PcapError (List UdpRecord) → Result ReplayError (List TimedFrame) → Type 0
IsGood captured (ok out) = IsReplay out
IsGood captured (err panicked) = ⊥
IsGood captured (err no_session) =
    (records : List UdpRecord) × (captured ≡ ok records) × All IsQuiet records
IsGood captured (err (not_read e)) = captured ≡ err e

is_request-NoRequest : (raw : List ℕ) → is_request (parse_message raw) ≡ false → NoRequest raw
is_request-NoRequest raw h m e family opcode =
    let yes_it : is_request (parse_message raw) ≡ true = rw e (rw (family, opcode) refl) in
    false≢true (sym h ∙ yes_it)

has_request-NoRequest : (parts : List (List ℕ)) → has_request parts ≡ false → All NoRequest parts
has_request-NoRequest [] h = tt
has_request-NoRequest (raw ∷ rest) h = elim (Bool-cases (is_request (parse_message raw))) [
  | inl e ↦ absurd (false≢true (sym h ∙ rw e refl))
  | inr e ↦ (is_request-NoRequest raw e, has_request-NoRequest rest (sym (rw e refl) ∙ h))
]

first_session-IsQuiet :
    (records : List UdpRecord) → first_session records ≡ none → All IsQuiet records
unfolding first_session
first_session-IsQuiet [] h = tt
first_session-IsQuiet (r ∷ rest) h =
    let (parts, split, _, _) = split_coalesced_total r.payload in
    let here : (if has_request parts then some r.timestamp_micros else first_session rest) ≡ none =
      sym (rw split refl) ∙ h in
    elim (if-cases (has_request parts) _ _ _ here) [
      | inl (_, e) ↦ absurd (none-ne-some r.timestamp_micros (sym e))
      | inr (quiet, e) ↦ (
        λ found k.
            subst (All NoRequest) (some-injective parts found (sym split ∙ k))
              (has_request-NoRequest parts quiet),
        first_session-IsQuiet rest e,
      )
    ]

from-IsGood :
    (records : List UdpRecord) (o : Option ℕ)
    → first_session records ≡ o
    → IsGood (ok records) (timeline_from records o)
from-IsGood records none e = (records, refl, first_session-IsQuiet records e)
from-IsGood records (some first) e =
    let (t, (f, h)) = on_records-IsMade first records fresh fresh-IsTimeline in
    subst (λ o. IsGood (ok records) (timeline_out o)) (sym f) (IsTimeline-IsReplay t h)

-- Any bytes as a capture: the timeline is built without a panic. If it is built, its frames carry the
-- numbers 0, 1, 2 and so on, as 32-bit words, at most one of them starts a call and at most one ends
-- it. It is refused only when the capture cannot be read, with that error, or when no message in any
-- of its datagrams is a session request.
pub replay_timeline-IsGood :
    (capture : List ℕ) → IsGood (read_udp capture) (replay_timeline capture)
unfolding replay_timeline
replay_timeline-IsGood capture = read (read_udp capture)
  where
    read : (r : Result PcapError (List UdpRecord)) → IsGood r (timeline_of r)
    read (err e) = refl
    read (ok records) = from-IsGood records (first_session records) refl
