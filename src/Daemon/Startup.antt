-- ===== src/Daemon/Startup.antt =====
-- The task of daemon/src/main.rs that makes the node reachable: a mapping by UPnP, or else the
-- address that STUN finds, then the registration, then the request for a rendezvous. Its effects on
-- what it shares with the rest are listed in order; a shutdown may come after any number of them.
pub mod Announce
use decentis.Prelude.{ℕ, Bool, true, false, List, [], ◌∷◌, ◌++◌, map, Option, some, none}
use decentis.Nat.Stun
use decentis.Nat.Stun.{SocketAddr, StunResult, StunAnswers, discover_public_ip}
use decentis.Nat.Upnp.{RouterCall, MapAnswers, UpnpResult, map_external_port}
use decentis.Nat.Upnp
use decentis.Nat.Signaling
use decentis.Nat.Signaling.{Payload, ServerAnswers, SignalingResult, start_registration, dial_peer}

-- "127.0.0.1", which is registered as the local address.
abbrev pub local_ip : List ℕ
local_ip = b'1' ∷ b'2' ∷ b'7' ∷ b'.' ∷ b'0' ∷ b'.' ∷ b'0' ∷ b'.' ∷ b'1' ∷ []

-- What the network answers to the task.
pub record NatAnswers : Type 0 where
  pub upnp : MapAnswers
  pub stun : StunAnswers
  pub registers : Bool
  pub opens : Bool
  pub dialing : ServerAnswers

pub data Effect : Type 0 where
  routed : RouterCall → Effect
  -- `upnp_mapped_clone.store(true)`
  flagged : Effect
  signaled : Payload → Effect

-- What the task takes from the STUN discovery: an error is logged, and a panic ends the task, which
-- then sends nothing either.
abbrev pub discovered : Option (StunResult SocketAddr) × List (List ℕ) → Option SocketAddr
discovered (some (Stun.ok public_addr), probes) = some public_addr
discovered _ = none

-- The address of STUN with the port of the endpoint.
abbrev pub stun_socket : Option SocketAddr → ℕ → Option SocketAddr
stun_socket none local_port = none
stun_socket (some public_addr) local_port = some (record public_addr { port = local_port })

abbrev pub public_socket : UpnpResult SocketAddr → Option SocketAddr → ℕ → Option SocketAddr
public_socket (Upnp.ok public_addr) stun local_port = some public_addr
public_socket (Upnp.err e) stun local_port = stun_socket stun local_port

-- The request for a rendezvous follows a registration that succeeds, if there is a peer to dial.
abbrev pub dial_after :
    List ℕ → ServerAnswers → Option (List ℕ) → SignalingResult × List Payload → List Payload
dial_after node_id a (some target_pub) (Signaling.ok, sent) =
    sent ++ (dial_peer node_id a target_pub).1
dial_after node_id a _ (result, sent) = sent

abbrev pub announce : NatAnswers → List ℕ → Option (List ℕ) → Option SocketAddr → List Payload
announce a node_id target none = []
announce a node_id target (some socket) =
    dial_after node_id a.dialing target
      (start_registration node_id a.registers a.opens socket local_ip)

abbrev pub flag_if : UpnpResult SocketAddr → List Effect
flag_if (Upnp.ok public_addr) = flagged ∷ []
flag_if (Upnp.err e) = []

unfoldable pub nat_task : NatAnswers → List ℕ → ℕ → Option (List ℕ) → List Effect
nat_task a node_id local_port target =
    let (mapped, calls) = map_external_port a.upnp local_port [] in
    map routed calls
    ++ (flag_if mapped
        ++ map signaled (
            announce a node_id target
              (public_socket mapped (discovered (discover_public_ip a.stun)) local_port)))
