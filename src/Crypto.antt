-- ===== src/Crypto.antt =====
-- daemon/src/crypto: the replay window, the session that uses it, the Noise handshake, and the
-- node's identity.
pub mod Replay
pub mod Session
pub mod Handshake
pub mod Identity
