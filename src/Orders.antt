-- ===== src/Orders.antt =====
-- swift-lib/ordersstorage.cpp and ordersstorage.h: the store of orders and its indexes.
pub mod Order
pub mod Index
pub mod Store
pub mod Query
