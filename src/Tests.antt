-- ===== src/Tests.antt =====
-- The theorems at concrete inputs.
mod Orders
mod Manager
mod Balances
mod Windows
mod Nodes
mod Reserves
mod Rpc
mod Pairs
mod Links
mod Clients
mod Markets
mod Assets
