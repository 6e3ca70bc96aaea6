-- ===== src/EdgeAgent.antt =====
-- packages/edge-agent: the agent's run counters, its telemetry relay and its podman adapter.
pub mod Run
pub mod Relay
pub mod Podman
pub mod Tests
