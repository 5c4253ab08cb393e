-- ===== src/Wire.antt =====
-- agent.rs, wire_udp.rs and wire_tap.rs: the wires that an Agent stands on. This file has what the
-- two share: the messages of one datagram handed to the Agent in order, and the errors.
pub mod Udp
pub mod Tap
pub mod Total
use michoi.Common.{◌+◌}
use michoi.Common.{ℕ, Option, none, some, List, [], ◌∷◌, ◌++◌}
use michoi.Ethernet.{EthernetError}
use michoi.Protocol.{ProtocolError}
use michoi.Firewall.{FirewallError}
use michoi.Agent.{Side, Agent, Clock, Effect}
use michoi.Agent.Dispatch.{Step, on_wire}

-- The errors, by what their messages say.
pub data WireError : Type 0 where
  no_door_yet not_sent short_send door_not_learned door_ip_not_learned pad_ip_not_learned
        door_mac_not_learned pad_mac_not_learned interface_missing :
      WireError
  not_built : EthernetError → WireError

abbrev pub with_effects : List Effect → Step → Step
with_effects effects none = none
with_effects effects (some (agent, more)) = some (agent, effects ++ more)

-- One step behind another: the effects stand in the order in which they happened.
abbrev pub and_then : Step → (Agent → Step) → Step
and_then none next = none
and_then (some (agent, effects)) next = with_effects effects (next agent)

-- The loop over the messages of a datagram. The clock is read anew for each.
unfoldable pub each : (Clock → List ℕ → Agent → Step) → (ℕ → Clock) → List (List ℕ) → Agent → Step
each handle clocks [] agent = some (agent, [])
each handle clocks (raw ∷ rest) agent =
    and_then (handle (clocks 0) raw agent) (each handle (λ n. clocks (n + 1)) rest)

-- `split_coalesced` and the loop over what it gives.
abbrev pub each_of :
    (Clock → List ℕ → Agent → Step) → (ℕ → Clock) → Option (List (List ℕ)) → Agent → Step
each_of handle clocks none agent = none
each_of handle clocks (some parts) agent = each handle clocks parts agent
