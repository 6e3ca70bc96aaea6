-- ===== src/Adapters.antt =====
-- packages/adapters: the providers that run a sandbox on a service or on machines.
mod Tests
pub mod World
pub mod Leaks
pub mod E2b
pub mod Daytona
pub mod Modal
pub mod BareMetal
pub mod AppleContainers
