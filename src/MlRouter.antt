-- ===== src/MlRouter.antt =====
-- packages/ml-router/src: routing by learned predictions of cost and latency.
pub mod Types
pub mod Selection
pub mod Features
pub mod Router
pub mod Loading
pub mod Batch
pub mod Tests
