-- ===== src/Examples/Stations.antt =====
-- replay_agent.rs and door_station.rs: the theorems at a concrete capture and station.
use michoi.Common.{ℕ, ◌≡◌, refl, true, some, List, [], ◌∷◌, ◌++◌}
use michoi.Common.Bytes.{ascii}
use michoi.Api.{claim}
use michoi.Replay.{TimedFrame, jpeg_bytes, replay_timeline}
use michoi.Pcap.{read_udp}
use michoi.Replay.Total.{IsGood, replay_timeline-IsGood}
use michoi.DoorStation.{default_station, DoorStation, from_timeline, station_of, ring, command}
use michoi.DoorStation.Streaming.{IsStreaming, done, step, rings, commands, reached-IsStreaming}
use michoi.Examples.Agents.{clock}

-- A session message without a body.
abbrev session_message : ℕ → List ℕ
session_message opcode =
    ascii "PENGUIN0"
    ++ (0xb7 ∷ 0 ∷ opcode ∷ 0 ∷ 0 ∷ 0 ∷ 0 ∷ 0 ∷ 0 ∷ 0 ∷ 0 ∷ 0 ∷ 0 ∷ 0 ∷ 0 ∷ 0 ∷ 0 ∷ 0 ∷ 0 ∷ 0 ∷ 0
        ∷ 0 ∷ 0 ∷ 0 ∷ [])

-- A little-endian capture of one Ethernet frame of 106 bytes, which the door sends: a request and a
-- hangup in one datagram.
abbrev ring_and_hangup : List ℕ
ring_and_hangup =
    (0xd4 ∷ 0xc3 ∷ 0xb2 ∷ 0xa1 ∷ 2 ∷ 0 ∷ 4 ∷ 0 ∷ 0 ∷ 0 ∷ 0 ∷ 0 ∷ 0 ∷ 0 ∷ 0 ∷ 0 ∷ 0 ∷ 0 ∷ 1 ∷ 0 ∷ 1
      ∷ 0 ∷ 0 ∷ 0 ∷ [])
    ++ ((5 ∷ 0 ∷ 0 ∷ 0 ∷ 100 ∷ 0 ∷ 0 ∷ 0 ∷ 106 ∷ 0 ∷ 0 ∷ 0 ∷ 106 ∷ 0 ∷ 0 ∷ 0 ∷ [])
        ++ ((2 ∷ 0 ∷ 0 ∷ 0 ∷ 0 ∷ 2 ∷ 2 ∷ 0 ∷ 0 ∷ 0 ∷ 0 ∷ 1 ∷ 8 ∷ 0 ∷ [])
            ++ ((0x45 ∷ 0 ∷ 0 ∷ 92 ∷ 0 ∷ 1 ∷ 0x40 ∷ 0 ∷ 64 ∷ 17 ∷ 0 ∷ 0 ∷ 192 ∷ 168 ∷ 124 ∷ 2 ∷ 192
                  ∷ 168 ∷ 124 ∷ 61 ∷ [])
                ++ ((39 ∷ 16 ∷ 39 ∷ 16 ∷ 0 ∷ 72 ∷ 0 ∷ 0 ∷ [])
                    ++ (session_message 1 ++ session_message 0x1e)))))

replay_timeline-IsGood_example : IsGood (read_udp ring_and_hangup) (replay_timeline ring_and_hangup)
replay_timeline-IsGood_example = replay_timeline-IsGood ring_and_hangup

abbrev picture : TimedFrame
picture = record {
  offset_micros = 0;
  frame = record {
    flags = 0;
    session_id = 1;
    sequence = 0;
    timestamp_micros = 0;
    payload = jpeg_bytes (0xff ∷ 0xd8 ∷ 0xff ∷ 0xd9 ∷ []);
  };
}

abbrev station : DoorStation
station = station_of default_station (picture ∷ []) true

abbrev rung : DoorStation
rung = ring clock station

abbrev claimed : DoorStation
claimed = (command clock claim (ascii "a") rung).0

station-made : from_timeline default_station (picture ∷ []) true ≡ some station
unfolding from_timeline
station-made = refl

reached-IsStreaming_example : IsStreaming claimed
reached-IsStreaming_example =
    reached-IsStreaming default_station (picture ∷ []) true station claimed station-made (
      step station rung claimed (rings clock station)
        (step rung claimed claimed (commands clock claim (ascii "a") rung) (done claimed)))
