-- ===== src/Tests.antt =====
-- Concrete surroundings of the enclave, and the theorems at them.
pub mod Surroundings
mod Stores
pub mod Mounted
mod Directories
mod Removals
mod Persistence
mod Files
mod Objects
pub mod Volumes
mod Requests
mod Results
pub mod Libraries
mod Programs
mod Histories
