-- ===== src/Acurast.antt =====
pub mod EnvBudget
pub mod Tests
