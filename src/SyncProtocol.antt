-- ===== src/SyncProtocol.antt =====
-- internal/syncprotocol: the messages of the sync protocol with all their fields, and their JSON.
-- The base client's own view of them is in Protocol.
pub mod Json
pub mod Values
pub mod Timestamp
pub mod Fields
pub mod Messages
pub mod Identity
pub mod ClientCodec
pub mod ServerCodec
pub mod RoundTrip
pub mod Projection
pub mod Bounds
