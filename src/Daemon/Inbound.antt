-- ===== src/Daemon/Inbound.antt =====
-- The inbound listener of daemon/src/main.rs as a whole: what it starts for each connection that
-- comes in. Every connection has a task of its own; here they come in the order in which their
-- handshakes end, since each changes the registry in one step.
pub mod Guarded
pub mod Outcomes
use decentis.Prelude.{
  ℕ, Bool, true, List, [], ◌∷◌, ◌++◌, Option, some, none, if◌then◌else◌, ◌≡◌, refl, arith,
}
use decentis.Crypto.Identity.{Keypair}
use decentis.Crypto.Session.{SessionTx, SessionRx}
use decentis.Crypto.Handshake.{Snow}
use decentis.Transport.Handshake.{Stream, Arrival, Result, ok, err, respond_noise_handshake}
use decentis.Daemon.{
  Codecs, Connection, PeerRegistry, Outcome, not_connected, handshake_failed, unauthorized,
  established, allows, register, on_incoming,
}
use decentis.Daemon.Link.{proved_key}

-- A connection that comes in, if it comes up, with the stream of its handshake and what the one
-- read from that gives.
pub record Incoming : Type 0 where
  pub conn : Option Connection
  pub stream : Stream
  pub arrival : Arrival

-- What is done with a connection: its streams are served, its datagrams are bridged with the
-- device, or it is closed with a code. A connection that is only dropped, as after a handshake that
-- fails, is not among these.
pub data Started : Type 0 where
  listens : Connection → Started
  bridges : Connection → SessionTx → SessionRx → Started
  closes : Connection → ℕ → Started

-- A panic of the task starts nothing.
abbrev pub start :
    Connection
    → SessionTx
    → SessionRx
    → Outcome × PeerRegistry
    → List Started × Outcome × PeerRegistry
start conn tx rx (established, peers) = (listens conn ∷ bridges conn tx rx ∷ [], established, peers)
start conn tx rx (outcome, peers) = ([], outcome, peers)

module _ (codecs : Codecs) (snow : Snow) (filter : Option (List ℕ)) (local_key : Keypair) where
  abbrev pub on_handshake :
      Connection
      → Result (SessionTx × SessionRx × List ℕ)
      → PeerRegistry
      → List Started × Outcome × PeerRegistry
  on_handshake conn (err e) peers = ([], handshake_failed, peers)
  on_handshake conn (ok (tx, rx, remote_pub)) peers =
      if allows filter (codecs.encode64 remote_pub)
      then start conn tx rx (register codecs remote_pub conn peers)
      else (closes conn 4001 ∷ [], unauthorized, peers)

  abbrev pub on_connection :
      Option Connection → Incoming → PeerRegistry → List Started × Outcome × PeerRegistry
  on_connection none i peers = ([], not_connected, peers)
  on_connection (some conn) i peers =
      on_handshake conn (respond_noise_handshake snow i.stream i.arrival local_key) peers

  -- The task of one connection.
  unfoldable pub accept : Incoming → PeerRegistry → List Started × Outcome × PeerRegistry
  accept i peers = on_connection i.conn i peers

  unfoldable pub inbound_listener : List Incoming → PeerRegistry → List Started × PeerRegistry
  inbound_listener [] peers = ([], peers)
  inbound_listener (i ∷ rest) peers =
      let (started, outcome, peers1) = accept i peers in
      let (later, peers2) = inbound_listener rest peers1 in (started ++ later, peers2)
