-- ===== src/Examples.antt =====
-- The theorems at concrete inputs.
pub mod Calls
pub mod Buffers
pub mod Wire
pub mod Agents
pub mod Captures
pub mod Wires
pub mod Servers
pub mod Stations
