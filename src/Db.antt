-- ===== src/Db.antt =====
-- db/db.go: `SQL`, the database of the blobs that are stored, of the streams that they make up and
-- of the blocked hashes. The tables and the statements are in `Db.Tables`, and what the driver and
-- the server may answer in `Db.Exec`.
pub mod Tables
pub mod Exec
pub mod Insert
pub mod Lookup
pub mod Streams
pub mod Manage
pub mod Ranges
