-- ===== src/Operator.antt =====
-- Capabilities of operators (src/switchboard-core/src/operator-capability.ts).
pub mod Types
pub mod Addresses
pub mod Blocks
pub mod Processors
pub mod Select
pub mod Choose
pub mod Normal
pub mod Agree
pub mod Owner
pub mod Passes
pub mod Eligible
mod Tests
