-- ===== src/Realtime.antt =====
-- frontend/src/features/realtime: the WebSocket protocol, the connection store, the query cache that
-- snapshots and deltas write, and the client that ties them together.
pub mod Protocol
pub mod Mappers
pub mod Store
pub mod Queries
pub mod Cache
pub mod Client
pub mod Messages
