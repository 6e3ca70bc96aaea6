-- ===== src/Arbitrage.antt =====
-- packages/arbitrage/src/arbitrage-engine.ts: choosing a provider for a run.
pub mod Rules
pub mod Engine
pub mod Tests
