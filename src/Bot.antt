-- ===== src/Bot.antt =====
-- swift-bot/: the process that turns arbitrage candidates into orders.
pub mod OrdersManager
pub mod Order
pub mod MoneyShiftManager
