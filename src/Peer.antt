-- ===== src/Peer.antt =====
-- The peer protocol (server/peer/*.go), by which blobs are downloaded.
pub mod Message
pub mod Server
pub mod Connection
pub mod Client
pub mod Store
pub mod Conversation
