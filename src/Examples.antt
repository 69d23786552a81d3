-- ===== src/Examples.antt =====
-- Concrete documents, stores, logs and frames, and what the theorems say of them.
pub mod Values
pub mod Stores
pub mod Persistence
pub mod Calls
pub mod Sessions
pub mod Pool
pub mod Peers
pub mod Watchers
pub mod Copies
pub mod Start
