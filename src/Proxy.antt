-- ===== src/Proxy.antt =====
pub mod NodesController
pub mod OrderbooksNode
