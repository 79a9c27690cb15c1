-- ===== src/Tests.antt =====
-- The properties at concrete inputs, and runs of the code.
pub mod Stores
pub mod Database
pub mod Protocols
pub mod Peers
pub mod Disks
pub mod Web
pub mod Uploads
pub mod Clients
pub mod Nodes
pub mod Blocklists
pub mod Buckets
pub mod Caches
pub mod Downloads
pub mod Claims
pub mod Coins
pub mod Wallets
