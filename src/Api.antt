-- ===== src/Api.antt =====
-- swift-lib/ and swift-arbitrage-api-node/: the clients of the exchanges.
pub mod Client
pub mod Emulator
