-- ===== src/Tests/Source.antt =====
-- The unit tests that stand in the daemon's own source, as functions into Bool, each with the proof
-- that it succeeds: whatever the crates that it uses do, as long as they do what they document.
mod Crypto
mod Frame
mod Relay
