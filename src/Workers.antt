-- ===== src/Workers.antt =====
pub mod OrdersWorker
pub mod BalanceWorker
pub mod BalancesWorker
pub mod OrderWorker
