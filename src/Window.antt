-- ===== src/Window.antt =====
-- The parts of swift-lib that look for arbitrage.
pub mod Orderbook
pub mod ArbitrageWindow
pub mod OrderParams
pub mod ArbitragePair
pub mod ArbitrageManager
