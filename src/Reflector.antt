-- ===== src/Reflector.antt =====
-- The reflector protocol (reflector/*.go): a server that takes blobs from uploaders, its client, the
-- uploader of a directory, and the blocklist.
pub mod Hash
pub mod Server
pub mod Uploader
pub mod Client
pub mod Blocklist
