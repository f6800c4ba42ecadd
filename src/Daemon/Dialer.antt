-- ===== src/Daemon/Dialer.antt =====
-- The rendezvous task of daemon/src/main.rs as a whole: it takes the peers that the signaling
-- stream tells of, one after the other, probes the ports of each, and dials the configured one. It
-- ends with the stream, or by a panic.
use decentis.Prelude.{
  ℕ, zero, suc, ◌+◌, ◌%◌, ◌^◌, Bool, List, [], ◌∷◌, ◌++◌, map, take, Option, some, none, ◌≡◌, refl,
  ap, ◌∙◌,
}
use decentis.Nat.Stun.{SocketAddr}
use decentis.Nat.Punch.{fire_prediction_probes}
use decentis.Nat.Signaling.{PeerFound, StreamRead, relay}
use decentis.Daemon.Registry.{AreDistinct}
use decentis.Daemon.Admission.{run-AreDistinct}
use decentis.Daemon.{
  Codecs, PeerRegistry, Outcome, panicked, Answers, on_rendezvous, Event, rendezvous, step, run,
}

-- What an event meets with: the socket of the probes, and the answers of the network.
pub record Meeting : Type 0 where
  pub bound : Bool
  pub takes : ℕ → Bool
  pub answers : Answers

-- What goes out to an address: a probe of the hole punching, or a dial.
pub data Sent : Type 0 where
  probed dialed : SocketAddr → Sent

abbrev pub probes_to : ℕ → Option (List ℕ × ℕ) → List Sent
probes_to ip none = []
probes_to ip (some (ports, fired)) = map (λ port. probed (record { port = port; ip = ip })) ports

-- Every peer whose public address parses is probed, also one that is not dialed.
abbrev pub punch : Meeting → Option ℕ → ℕ → List Sent
punch m none target_port = []
punch m (some target_ip) target_port =
    probes_to target_ip (fire_prediction_probes m.bound m.takes target_port)

-- Only a panic keeps the task from the events that follow.
abbrev pub unless_panicked :
    Outcome × PeerRegistry → (PeerRegistry → List Sent × PeerRegistry) → List Sent × PeerRegistry
unless_panicked (panicked, peers) later = ([], peers)
unless_panicked (outcome, peers) later = later peers

module _ (codecs : Codecs) (target : Option (List ℕ)) (meet : ℕ → Meeting) where
  unfoldable pub dialer : ℕ → List PeerFound → PeerRegistry → List Sent × PeerRegistry
  dialer i [] peers = ([], peers)
  dialer i (peer ∷ rest) peers =
      let (addresses, outcome, peers') = on_rendezvous codecs target peer (meet i).answers peers in
      let (sent, peers'') = unless_panicked (outcome, peers') (dialer (i + 1) rest) in
      (
        punch (meet i) (codecs.parse_ip peer.public_ip) (peer.public_port % 2 ^ 16)
            ++ (map dialed addresses ++ sent),
        peers'',
      )

  unfoldable pub rendezvous_task : List StreamRead → PeerRegistry → List Sent × PeerRegistry
  rendezvous_task reads peers = dialer 0 (relay reads) peers

  -- The peers found, as events of the registry.
  abbrev pub found_events : ℕ → List PeerFound → List Event
  found_events i [] = []
  found_events i (peer ∷ rest) = rendezvous peer (meet i).answers ∷ found_events (i + 1) rest

  -- The task leaves the registry as the first so many events do.
  dialer-run :
      (i : ℕ) (found : List PeerFound) (peers : PeerRegistry)
      → (n : ℕ) × ((dialer i found peers).1
          ≡ run codecs target (take n (found_events i found)) peers)
  unfolding dialer run step
  dialer-run i [] peers = (zero, refl)
  dialer-run i (peer ∷ rest) peers =
      let met = on_rendezvous codecs target peer (meet i).answers peers in
      let (n, later) = dialer-run (i + 1) rest met.2 in by_outcome met.1 met.2 n refl later
    where
      by_outcome :
          (outcome : Outcome) (peers' : PeerRegistry) (n : ℕ)
          → peers' ≡ (on_rendezvous codecs target peer (meet i).answers peers).2
          → (dialer (i + 1) rest peers').1
            ≡ run codecs target (take n (found_events (i + 1) rest)) peers'
          → (m : ℕ) × ((unless_panicked (outcome, peers') (dialer (i + 1) rest)).1
              ≡ run codecs target (take m (found_events i (peer ∷ rest))) peers)
      by_outcome panicked peers' n same later = (1, same)
      by_outcome outcome peers' n same later =
          (suc n, later ∙ ap (run codecs target (take n (found_events (i + 1) rest))) same)

-- In the registry that the task leaves, from one without double addresses, no address is double.
rendezvous_task-AreDistinct :
    (codecs : Codecs) (target : Option (List ℕ)) (meet : ℕ → Meeting) (reads : List StreamRead)
    → AreDistinct (rendezvous_task codecs target meet reads []).1
unfolding rendezvous_task
rendezvous_task-AreDistinct codecs target meet reads =
    let (n, ran) = dialer-run codecs target meet 0 (relay reads) [] in
    rw ran
      (run-AreDistinct codecs target (take n (found_events codecs target meet 0 (relay reads))))
