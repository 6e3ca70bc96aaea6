-- ===== src/Security.antt =====
-- packages/security: the monitor, the queue in front of the SIEM service, the aggregator and the
-- alerts of the dashboard.
pub mod Monitor
pub mod Queries
pub mod Evaluation
pub mod Siem
pub mod Aggregator
pub mod Dashboard
pub mod Tests
