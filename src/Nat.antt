-- ===== src/Nat.antt =====
-- daemon/src/nat: how a node finds its public address and opens the firewall.
pub mod Punch
pub mod Stun
pub mod Upnp
pub mod Signaling
