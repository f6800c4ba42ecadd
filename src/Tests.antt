-- ===== src/Tests.antt =====
-- Runs of the models on concrete inputs, the source's own tests (Source), and each theorem with
-- hypotheses at an input that meets them.
mod Source
mod Crypto
mod Daemon
mod Dialer
mod Control
mod Status
mod Link
mod Inbound
mod Main
mod FileRelay
mod Paths
mod Frames
mod Endpoint
mod Stream
mod Parallel
mod Datagram
mod Nat
