-- ===== src/Storage.antt =====
-- The storage layer: `StorageAPI` and its local backend, the OCALLs, the cipher, and the functions
-- of enclave/storage.cpp that load and save metadata and chunks.
pub mod Api
pub mod Local
pub mod Host
pub mod Cipher
pub mod Saved
