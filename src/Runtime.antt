-- ===== src/Runtime.antt =====
-- The runtime of a job (src/switchboard-core/src/runtime/).
pub mod Bytes
pub mod Der
pub mod DerLaws
pub mod Signature
pub mod Serialized
pub mod Agree
pub mod LowS
pub mod Tests
