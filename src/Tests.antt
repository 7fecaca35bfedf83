-- ===== src/Tests.antt =====
-- Tests by evaluation, and the witnesses.
pub mod Paths
pub mod Sessions
pub mod Values
pub mod Replies
pub mod Wire
pub mod Runs
pub mod Subscriptions
