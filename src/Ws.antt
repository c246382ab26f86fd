-- ===== src/Ws.antt =====
-- ws.go: RFC 6455 framing over a byte stream.
pub mod Bits
pub mod Frame
pub mod RoundTrip
pub mod Message
pub mod Upgrade
pub mod Total
pub mod Reassembly
pub mod Progress
mod Examples
