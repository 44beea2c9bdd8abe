-- ===== src/Reachable.antt =====
-- What holds of the map of inodes and of the chunk store in every state of the enclave.
pub mod Objects
pub mod Covered
pub mod Names
pub mod Lookups
pub mod Caches
pub mod Room
pub mod Reads
pub mod Writes
pub mod Mounts
pub mod Sessions
