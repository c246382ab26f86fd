-- ===== src/Session.antt =====
-- server.go: the WebSocket protocol for identified clients, from an authenticated connection on.
pub mod Envelope
pub mod Action
pub mod Dispatch
pub mod Loop
pub mod Relates
pub mod Permitted
pub mod Reads
pub mod History
pub mod Separation
pub mod Healthy
pub mod Download
pub mod Hidden
pub mod Upload
pub mod Expiry
mod Examples
pub mod Handshake
pub mod Auth
