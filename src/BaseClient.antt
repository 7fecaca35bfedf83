-- ===== src/BaseClient.antt =====
-- baseclient: the deterministic sync state machine.
pub mod State
pub mod Optimistic
pub mod Queries
pub mod Snapshot
pub mod Auth
pub mod Results
pub mod Requests
pub mod Receive
pub mod Pending
pub mod QuerySet
pub mod Session
