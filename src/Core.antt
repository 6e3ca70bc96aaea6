-- ===== src/Core.antt =====
-- packages/core/src: the types that all packages share.
pub mod Provider
pub mod Language
pub mod Sandbox
pub mod Security
