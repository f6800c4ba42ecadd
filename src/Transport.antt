-- ===== src/Transport.antt =====
-- daemon/src/transport: the handshake, the frame header, and the protocols built of frames.
pub mod Frame
pub mod Stream
pub mod Handshake
pub mod Endpoint
pub mod Datagram
