-- ===== src/Sync.antt =====
-- The gate that every pushed operation passes: server/dukan/application/sync_policy.py and sync.py.
pub mod Values
pub mod Fields
pub mod Types
pub mod EventTime
pub mod Changes
pub mod Guards
pub mod Handlers
pub mod Plans
pub mod Accepted
pub mod Dispatch
pub mod Pull
