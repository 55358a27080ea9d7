-- ===== src/Tests.antt =====
-- The theorems at concrete inputs.
pub mod Policies
pub mod Notes
pub mod Vaults
pub mod Trees
pub mod Tools
pub mod Graph
pub mod Audit
pub mod Watcher
pub mod Sweep
