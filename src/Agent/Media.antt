-- ===== src/Agent/Media.antt =====
-- agent.rs: the media that the Agent receives. `none` stands for the panic of a checked
-- subtraction in the ring or of an index in the reassembler.
use michoi.Common.{ℕ, Bool, Option, none, some, List, [], ◌∷◌, ◌++◌}
use michoi.Common.{◌==◌, if◌then◌else◌}
use michoi.Api.{VideoFrame, AudioChunk}
use michoi.MediaRing.{MediaRing, push_video as ring_video, push_audio as ring_audio}
use michoi.Protocol.{MediaFragment, media_audio}
use michoi.Protocol.Jpeg.{JpegReassembler, push}
use michoi.Agent.{Agent, Clock, add_one32}

abbrev pub with_history : Agent → Option MediaRing → Option Agent
with_history agent none = none
with_history agent (some ring) = some (record agent { history = ring })

unfoldable pub push_video : VideoFrame → Agent → Option Agent
push_video frame agent =
    with_history (record agent { latest = some frame; video = agent.video ++ (frame ∷ []) })
      (ring_video agent.history frame)

unfoldable pub push_audio : AudioChunk → Agent → Option Agent
push_audio chunk agent =
    with_history (record agent { audio = agent.audio ++ (chunk ∷ []) })
      (ring_audio agent.history chunk)

-- A frame that the reassembler has finished; a monitor counts its frames.
abbrev pub deliver_frame : Bool → Clock → Agent → Option (List ℕ) → Option Agent
deliver_frame monitored clock agent none = some agent
deliver_frame monitored clock agent (some jpeg) =
    push_video (record { pts_us = clock.pts_us; jpeg = jpeg })
      (if monitored
        then record agent { monitor_frames = add_one32 agent.monitor_frames }
        else agent)

abbrev pub reassembled :
    Bool → Clock → Agent → Option (JpegReassembler × Option (List ℕ)) → Option Agent
reassembled monitored clock agent none = none
reassembled monitored clock agent (some (jpeg, frame)) =
    deliver_frame monitored clock (record agent { jpeg = jpeg }) frame

unfoldable pub feed : Bool → Clock → MediaFragment → Agent → Option Agent
feed monitored clock media agent =
    if media.media_type == media_audio
    then push_audio (record { pts_us = clock.pts_us; pcm = media.payload }) agent
    else reassembled monitored clock agent (push agent.jpeg media)

unfoldable pub feed_media : Bool → Clock → Option MediaFragment → Agent → Option Agent
feed_media monitored clock none agent = some agent
feed_media monitored clock (some media) agent = feed monitored clock media agent
