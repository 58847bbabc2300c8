-- ===== src/Dao.antt =====
-- The dao package, dao/: the cache of items and of key sets on a Redis server.
pub mod Redis
pub mod Items
pub mod Sets
pub mod Filled
pub mod Selected
pub mod Scanned
pub mod Statements
pub mod Tables
pub mod Server
