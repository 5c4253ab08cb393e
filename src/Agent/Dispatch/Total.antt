-- ===== src/Agent/Dispatch/Total.antt =====
-- agent.rs: `on_wire` on any bytes.
use michoi.Agent.Dispatch.{ascii}
use michoi.Agent.{add_one32}
use michoi.Common.{
  ℕ, Bool, true, false, not, ◌&&◌, Option, none, some, List, [], ◌∷◌, ◌≡◌, refl, ap, sym, inl, inr,
}
use michoi.Common.{◌==◌, Result, ok, err, Bool-cases}
use michoi.Api.{VideoFrame, AudioChunk}
use michoi.MediaRing.Accounting.{push_video_total, push_audio_total}
use michoi.Protocol.{
  Endpoints, Message, MediaFragment, ProtocolError, parse_message, is_session_like,
  message_endpoints, message_media, media_audio,
}
use michoi.Protocol.Family
use michoi.Protocol.Op
use michoi.Protocol.Jpeg.Tidy.{push_total}
use michoi.Agent.{Side, Peers, Agent, Clock}
use michoi.Agent.Identity.{accept_endpoints}
use michoi.Agent.Identity.Pinned.{KeepsPins, KeepsPins-same, KeepsPins-trans}
use michoi.Agent.Media.{push_video, push_audio, feed, feed_media, deliver_frame}
use michoi.Agent.Dispatch.{
  Step, quietly, on_bootstrap, on_monitor, on_call_session, on_session_opcode, checked, on_session,
  on_message, on_wire, parsed, is_door, is_running,
}
use mathlib.Core.Path.{subst}
use michoi.Agent.Dispatch.Kept.{
  accept_endpoints-IsKept, IsSound, IsDone, Untouched-same, Untouched-IsDone,
  on_call_started-Untouched, on_pad_answer-Untouched, on_pad_unlock-Untouched,
  on_wire_hangup-Untouched, stop_monitor_now-Untouched, hangup_call_now-Untouched,
  callee_answered-Untouched,
}
use michoi.Agent.{door_side, pad_side, add_one32}
use michoi.Common.{◌++◌}

-- The media operations: they succeed, and leave the identity alone.
abbrev IsFed : Agent → Option Agent → Type 0
IsFed before o =
    (after : Agent) × ((o ≡ some after) × (IsSound after × (after.peers ≡ before.peers)))

push_video-IsFed :
    (frame : VideoFrame) (agent : Agent) → IsSound agent → IsFed agent (push_video frame agent)
unfolding push_video
push_video-IsFed frame agent s =
    let (ring, e, pushed) = push_video_total agent.history frame s.0 in
    (
      record agent { latest = some frame; video = agent.video ++ (frame ∷ []); history = ring },
      (rw e refl, ((pushed.within, s.1), refl)),
    )

push_audio-IsFed :
    (chunk : AudioChunk) (agent : Agent) → IsSound agent → IsFed agent (push_audio chunk agent)
unfolding push_audio
push_audio-IsFed chunk agent s =
    let (ring, e, pushed) = push_audio_total agent.history chunk s.0 in
    (
      record agent { audio = agent.audio ++ (chunk ∷ []); history = ring },
      (rw e refl, ((pushed.within, s.1), refl)),
    )

deliver_frame-IsFed :
    (monitored : Bool) (clock : Clock) (agent : Agent) (o : Option (List ℕ))
    → IsSound agent
    → IsFed agent (deliver_frame monitored clock agent o)
deliver_frame-IsFed monitored clock agent none s = (agent, (refl, (s, refl)))
deliver_frame-IsFed true clock agent (some jpeg) s =
    push_video-IsFed (record { pts_us = clock.pts_us; jpeg = jpeg })
      (record agent { monitor_frames = add_one32 agent.monitor_frames }) s
deliver_frame-IsFed false clock agent (some jpeg) s =
    push_video-IsFed (record { pts_us = clock.pts_us; jpeg = jpeg }) agent s

feed-IsFed :
    (monitored : Bool) (clock : Clock) (media : MediaFragment) (agent : Agent)
    → IsSound agent
    → IsFed agent (feed monitored clock media agent)
unfolding feed
feed-IsFed monitored clock media agent s = elim (Bool-cases (media.media_type == media_audio)) [
  | inl sound ↦
      rw sound (push_audio-IsFed (record { pts_us = clock.pts_us; pcm = media.payload }) agent s)
  | inr picture ↦
      let (jpeg, out, e, tidy) = push_total agent.jpeg media s.1 in
      rw (picture, e)
        (deliver_frame-IsFed monitored clock (record agent { jpeg = jpeg }) out (s.0, tidy))
]

feed_media-IsDone :
    (monitored : Bool) (clock : Clock) (o : Option MediaFragment) (agent : Agent)
    → IsSound agent
    → IsDone agent (quietly (feed_media monitored clock o agent))
unfolding feed_media
feed_media-IsDone monitored clock none agent s =
    Untouched-IsDone agent agent [] s (Untouched-same agent)
feed_media-IsDone monitored clock (some media) agent s =
    let (after, (e, (sound, same))) = feed-IsFed monitored clock media agent s in
    (
      after,
      (
        [],
        (
          ap quietly e,
          (sound, subst (KeepsPins agent.peers) (sym same) (KeepsPins-same agent.peers)),
        ),
      ),
    )

on_bootstrap-IsDone :
    (side : Side) (agent : Agent) → IsSound agent → IsDone agent (on_bootstrap side agent)
on_bootstrap-IsDone door_side agent s = Untouched-IsDone agent agent _ s (Untouched-same agent)
on_bootstrap-IsDone pad_side agent s = Untouched-IsDone agent agent _ s (Untouched-same agent)

on_monitor-IsDone :
    (clock : Clock) (m : Message) (agent : Agent)
    → IsSound agent
    → IsDone agent (on_monitor clock m agent)
on_monitor-IsDone clock m agent s = elim (Bool-cases (m.opcode == Op.media)) [
  | inl media ↦ rw media (feed_media-IsDone true clock (message_media m) agent s)
  | inr other ↦ elim (Bool-cases (m.opcode == Op.hangup)) [
    | inl bye ↦ rw (other, bye) (Untouched-IsDone agent _ _ s (stop_monitor_now-Untouched agent))
    | inr control ↦ rw (other, control) (Untouched-IsDone agent agent [] s (Untouched-same agent))
  ]
]

on_call_session-IsDone :
    (clock : Clock) (m : Message) (agent : Agent)
    → IsSound agent
    → IsDone agent (on_call_session clock m agent)
on_call_session-IsDone clock m agent s = elim (Bool-cases (m.opcode == Op.answer)) [
  | inl answer ↦
      rw answer
        (Untouched-IsDone agent _ [] s (callee_answered-Untouched clock agent agent.call_session))
  | inr one ↦ elim (Bool-cases (m.opcode == Op.media)) [
    | inl media ↦ rw (one, media) (feed_media-IsDone false clock (message_media m) agent s)
    | inr two ↦ elim (Bool-cases (m.opcode == Op.hangup)) [
      | inl bye ↦
          rw (one, two, bye)
            (Untouched-IsDone agent _ _ s
              (hangup_call_now-Untouched clock (ascii "callee_hangup") agent))
      | inr control ↦
          rw (one, two, control) (Untouched-IsDone agent agent [] s (Untouched-same agent))
    ]
  ]
]

on_session_opcode-IsDone :
    (clock : Clock) (side : Side) (m : Message) (e : Endpoints) (peers : Peers) (agent : Agent)
    → IsSound agent
    → IsDone agent (on_session_opcode clock side m e peers agent)
on_session_opcode-IsDone clock side m e peers agent s =
    elim (Bool-cases (m.opcode == Op.request && is_door side)) [
      | inl a ↦ rw a (Untouched-IsDone agent _ _ s (on_call_started-Untouched clock e agent))
      | inr b ↦ elim (Bool-cases (m.opcode == Op.answer && not (is_door side))) [
        | inl a ↦ rw (b, a) (Untouched-IsDone agent _ _ s (on_pad_answer-Untouched clock agent))
        | inr c ↦ elim (Bool-cases (m.opcode == Op.unlock && not (is_door side))) [
          | inl a ↦
              rw (b, c, a) (Untouched-IsDone agent _ _ s (on_pad_unlock-Untouched clock agent))
          | inr d ↦ elim (Bool-cases (m.opcode == Op.hangup)) [
            | inl a ↦
                rw (b, c, d, a)
                  (Untouched-IsDone agent _ _ s (on_wire_hangup-Untouched clock peers agent))
            | inr f ↦ elim (Bool-cases (m.opcode == Op.media && is_door side)) [
              | inl a ↦ rw (b, c, d, f, a) (feed_media-IsDone false clock (message_media m) agent s)
              | inr g ↦
                  rw (b, c, d, f, g) (Untouched-IsDone agent agent [] s (Untouched-same agent))
            ]
          ]
        ]
      ]
    ]

-- A step of an Agent whose buffers are those of an earlier one.
pub later-IsDone :
    (before agent : Agent) (step : Step)
    → KeepsPins before.peers agent.peers
    → IsDone agent step
    → IsDone before step
later-IsDone before agent step k (after, (effects, (e, (s, p)))) =
    (after, (effects, (e, (s, KeepsPins-trans before.peers agent.peers after.peers k p))))

checked-IsDone :
    (clock : Clock) (side : Side) (m : Message) (e : Endpoints) (o : Agent × Option Peers)
    → IsSound o.0
    → IsDone o.0 (checked clock side m e o)
checked-IsDone clock side m e (agent, none) s =
    Untouched-IsDone agent agent [] s (Untouched-same agent)
checked-IsDone clock side m e (agent, some peers) s =
    on_session_opcode-IsDone clock side m e peers agent s

on_session-IsDone :
    (clock : Clock) (side : Side) (m : Message) (agent : Agent) (o : Option Endpoints)
    → IsSound agent
    → IsDone agent (on_session clock side m agent o)
on_session-IsDone clock side m agent none s =
    Untouched-IsDone agent agent [] s (Untouched-same agent)
on_session-IsDone clock side m agent (some e) s =
    let kept = accept_endpoints-IsKept e agent s in
    later-IsDone agent (accept_endpoints e agent).0
      (checked clock side m e (accept_endpoints e agent)) kept.1
      (checked-IsDone clock side m e (accept_endpoints e agent) kept.0)

on_message-IsDone :
    (clock : Clock) (side : Side) (m : Message) (agent : Agent)
    → IsSound agent
    → IsDone agent (on_message clock side m agent)
unfolding on_message
on_message-IsDone clock side m agent s =
    elim (Bool-cases (m.family == Family.bootstrap && m.opcode == Op.request)) [
      | inl a ↦ rw a (on_bootstrap-IsDone side agent s)
      | inr b ↦ elim (Bool-cases (is_running agent.monitor && is_session_like m)) [
        | inl a ↦ rw (b, a) (on_monitor-IsDone clock m agent s)
        | inr c ↦ elim (Bool-cases (is_running agent.call_session && is_session_like m)) [
          | inl a ↦ rw (b, c, a) (on_call_session-IsDone clock m agent s)
          | inr d ↦
              elim (Bool-cases (m.family == Family.elevator && not (m.opcode == Op.request))) [
                | inl a ↦
                    rw (b, c, d, a)
                      (Untouched-IsDone agent _ _ s
                        (record { history = refl; jpeg = refl; peers = refl }))
                | inr f ↦ elim (Bool-cases (not (m.family == Family.session))) [
                  | inl a ↦
                      rw (b, c, d, f, a) (Untouched-IsDone agent agent [] s (Untouched-same agent))
                  | inr g ↦
                      rw (b, c, d, f, g)
                        (on_session-IsDone clock side m agent (message_endpoints m) s)
                ]
              ]
        ]
      ]
    ]

-- Whatever bytes arrive, from whichever side and in whatever state of calls and monitors: the
-- handler gives an outcome, so no checked subtraction of the ring fails and no index of the
-- reassembler is missing; the ring's accounting and the reassembler's order hold afterwards if they
-- held before; and every pinned address, identifier and MAC is unchanged.
pub on_wire_total :
    (clock : Clock) (side : Side) (raw : List ℕ) (agent : Agent)
    → IsSound agent
    → IsDone agent (on_wire clock side raw agent)
unfolding on_wire
on_wire_total clock side raw agent s = read (parse_message raw)
  where
    read : (r : Result ProtocolError Message) → IsDone agent (parsed clock side agent r)
    read (err _) = Untouched-IsDone agent agent [] s (Untouched-same agent)
    read (ok m) = on_message-IsDone clock side m agent s
