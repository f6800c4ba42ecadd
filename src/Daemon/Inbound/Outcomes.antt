-- ===== src/Daemon/Inbound/Outcomes.antt =====
-- The inbound listener changes the registry as `on_incoming` and `run` do.
use decentis.Prelude.{ℕ, List, [], ◌∷◌, Option}
use decentis.Crypto.Identity.{Keypair}
use decentis.Crypto.Session.{SessionTx, SessionRx}
use decentis.Crypto.Handshake.{Snow}
use decentis.Transport.Handshake.{Stream, Arrival, Result, respond_noise_handshake}
use decentis.Daemon.{Codecs, Event, incoming}
use decentis.Daemon.Link.{proved_key}
use decentis.Daemon.Inbound.{Incoming}

module _ (codecs : Codecs) (snow : Snow) (filter : Option (List ℕ)) (local_key : Keypair) where
  abbrev pub responds : Stream → Arrival → Result (SessionTx × SessionRx × List ℕ)
  responds stream arrival = respond_noise_handshake snow stream arrival local_key

  -- What the registry meets with, less the sessions.
  abbrev pub events_of : List Incoming → List Event
  events_of [] = []
  events_of (i ∷ rest) = incoming i.conn (proved_key (responds i.stream i.arrival)) ∷ events_of rest
