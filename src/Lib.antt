-- ===== src/Lib.antt =====
-- michoi: an Agent that stands beside or in for the room device (the Pad) of a video intercom. It
-- watches the intercom's UDP messages, keeps the state of the call, collects picture and sound for
-- remote clients, and lets them claim the call, open the door, talk and hang up.
--
-- Parts and files:
--   Call           src/state.rs: `CallMachine`. Each method is a function from the machine to the
--                  new machine and the method's result; `Instant` is a number on one clock.
--   Api            src/agent_api.rs: the shared types (`EventKind`, `CallAction`, `CallError`,
--                  `CommandResult`) and the HTTP status of each error; Api/Control has the traits
--                  `AgentControl` and `AgentMedia` as a record of operations.
--   EventLog       src/agent_api.rs: `EventLog`; the broadcast channel is the list of all that was
--                  sent into it.
--   CommandCache   src/agent_api.rs: `CommandCache`, with the map as an association list.
--   MediaRing      src/agent_api.rs: `MediaRing`; a subtraction below zero is `none`.
--   Net            The standard library's `Ipv4Addr`, `SocketAddr` and `String::from_utf8_lossy`,
--                  which the source uses.
--   Config         src/config.rs: the configuration, its defaults and its checks.
--   Firewall       src/firewall.rs: the scripts for `nft`.
--   Protocol       src/protocol.rs: stations, endpoint blocks, messages and media headers; below
--                  it the opcodes and families, the builders, the discovery messages,
--                  `split_coalesced` and `JpegReassembler`.
--   Ethernet       src/ethernet.rs: MAC addresses, `EthernetUdp::parse`, `build_udp_ipv4` and the
--                  header checksum.
--   Discovery      src/discovery.rs: `DiscoveryService`, with `run` as a step for one datagram and
--                  `resolve` as the steps before and after its wait.
--   Pcap           src/pcap.rs: `read_udp` over the bytes of the file, and `decode_udp`.
--   Agent          src/agent.rs: the state of one Agent. Agent/Identity has the pinning of the
--                  household, Agent/Command `execute` and `state`, Agent/Media the buffers,
--                  Agent/Session the calls and the monitor, Agent/Dispatch `on_wire`, and
--                  Agent/Talk `talk`, `talk_video` and `dial_now`.
--   Wire           src/wire_udp.rs (Wire/Udp) and src/wire_tap.rs (Wire/Tap): the bodies of their
--                  receive loops, and what they send for each effect of the Agent.
--   Server         src/agent_server.rs: `Request` and `Response`; below it the reading of bodies
--                  (Body) and requests (Parse), negotiation and authorization (Negotiate), the
--                  handlers, the router, the streams of events and media (Events, Media), the
--                  talk uploads (Talk), and the loop over the requests of a connection
--                  (Connection).
--   Replay         src/replay_agent.rs and src/transport.rs: `replay_timeline`; Replay/Player has
--                  `ReplayAgent`.
--   DoorStation    src/door_station.rs: the software door station.
--   Common         Lists, maps, results, options, tests, bytes and texts that the parts share.
--   Examples       The theorems at concrete inputs.
--
-- How the parts interact: `on_wire` parses a message with Protocol, checks its endpoints with
-- Agent/Identity, moves the machine of Call, pushes events into EventLog and media through the
-- reassembler into MediaRing. A wire hands it the messages of each datagram, with what the
-- addresses of the frame teach. The server reads a request, checks the token, and calls an
-- operation of Api/Control, behind which the Agent, the replay or the door station stands.
-- `execute` asks CommandCache first, moves the machine, builds a packet with Protocol/Builders and
-- pushes an event. What an operation asks of the `Wire`, of sockets, of channels and of spawned
-- tasks is a list of effects that it returns; what they answer (whether a send succeeds, what the
-- discovery finds, what the clocks read) is an argument.
--
-- Bounds and fuel: a number of w bits wraps with `% 2 ^ w` where the source adds to it. Decimal
-- printing has fuel for 20 digits, which every `u64` fits. Hexadecimal printing has fuel for 16
-- digits, which every length fits. `chunks`, `split_coalesced` and `read_records` run on the
-- length of their input, since each round takes a byte at least; `read_chunked`, the loop of a
-- connection and the loop of a talk upload run on one more than that for the same reason.
-- `JpegReassembler::trim` is a recursion on its order, with `none` for the endless loop over an
-- empty one.
--
-- What the server takes from libraries (`serde_json`, the parsing of quality values, SHA-1, the
-- WebSocket framing) is a parameter, as is the TOML parser of `Config::load`.
--
-- Not modelled: logging (`tracing`, `trace_packet`), the JSON and CBOR forms, the send loops of
-- spawned tasks, the waits of `call_elevator_now` and `list_cameras`, the timers of the replay and
-- of the event stream, the accept loop of `serve` with TLS, `PrefixedStream`, start-up
-- (src/main.rs, `run_agent`), the console, the player and `emit_to` of the door station, the
-- packet tools (src/emitter.rs), and the glue around ffmpeg and HomeKit (src/media.rs,
-- src/bridge.rs, src/hap.rs).
pub mod Common
pub mod Call
pub mod Api
pub mod EventLog
pub mod CommandCache
pub mod MediaRing
pub mod Net
pub mod Config
pub mod Firewall
pub mod Protocol
pub mod Ethernet
pub mod Discovery
pub mod Pcap
pub mod Agent
pub mod Wire
pub mod Server
pub mod DoorStation
pub mod Replay
pub mod Examples
