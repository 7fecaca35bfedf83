-- ===== src/SyncClient.antt =====
-- internal/syncclient: the manager that connects the base client to a WebSocket.
pub mod Connection
pub mod Channel
pub mod SessionId
pub mod Manager
pub mod Run
