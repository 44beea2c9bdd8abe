-- ===== src/Metadata.antt =====
-- The metadata objects of enclave/metadata.hpp and their codecs. The structures of
-- enclave/internal.hpp and include/bridge.hpp are read and written as the x86-64 ABI lays them out:
-- fields in order, little-endian, `dirent_t` with four bytes of padding at its end. `load` is given
-- the memory from `buf` on and the size that it may use; `dump` the memory that it writes into.
pub mod Layout
pub mod Superinfo
pub mod Filenode
pub mod Dirnode
pub mod Ecp
pub mod Usertable
pub mod Codec
pub mod Codecs
