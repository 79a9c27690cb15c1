-- ===== src/Wallet.antt =====
-- wallet: the client of the wallet servers.
pub mod Node
