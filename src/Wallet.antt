-- ===== src/Wallet.antt =====
-- The advisory lock on a signing wallet (src/switchboard-core/cli/src/acurast-wallet-lock.ts).
pub mod Lock
pub mod Steal
pub mod Tests
