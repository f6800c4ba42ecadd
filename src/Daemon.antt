-- ===== src/Daemon.antt =====
-- daemon/src/main.rs: which peers get into the registry of connections, by the two tasks that
-- change it, and what the control service reads from it. A string is the list of its bytes, a
-- connection a number that names it. base64 and the parser of addresses are parameters,
-- and so is what the network answers.
pub mod Registry
pub mod Admission
pub mod Outcomes
pub mod Control
pub mod Mesh
pub mod Status
pub mod Link
pub mod Dialer
pub mod Inbound
pub mod Settings
pub mod Startup
pub mod Main
use decentis.Prelude.{
  ℕ, ◌%◌, ◌^◌, Bool, true, false, ◌&&◌, List, [], ◌∷◌, Option, some, none, length, ◌==◌,
  if◌then◌else◌,
}
use decentis.Crypto.Identity.{Ipv4Addr, derive_virtual_ip}
use decentis.Crypto.Identity.Text.{ip_to_string}
use decentis.Nat.Stun.{SocketAddr}
use decentis.Nat.Signaling.{PeerFound}

pub record Codecs : Type 0 where
  pub encode64 : List ℕ → List ℕ
  pub decode64 : List ℕ → Option (List ℕ)
  pub parse_ip : List ℕ → Option ℕ

abbrev pub Connection : Type 0
Connection = ℕ

abbrev pub PeerRegistry : Type 0
PeerRegistry = List (List ℕ × Connection)

-- Equality of two strings.
abbrev pub same : List ℕ → List ℕ → Bool
same [] [] = true
same (x ∷ xs) (y ∷ ys) = x == y && same xs ys
same _ _ = false

unfoldable pub get : PeerRegistry → List ℕ → Option Connection
get [] vip = none
get ((key, conn) ∷ rest) vip = let later = get rest vip in if same key vip then some conn else later

unfoldable pub remove : PeerRegistry → List ℕ → PeerRegistry
remove [] vip = []
remove ((key, conn) ∷ rest) vip =
    let later = remove rest vip in if same key vip then later else (key, conn) ∷ later

-- `HashMap::insert`: an earlier connection under the key is replaced.
unfoldable pub insert : PeerRegistry → List ℕ → Connection → PeerRegistry
insert peers vip conn = (vip, conn) ∷ remove peers vip

-- How an attempt to connect ends.
pub data Outcome : Type 0 where
  bad_ip not_target bad_key not_connected handshake_failed unauthorized panicked established :
      Outcome

-- How a dial ends. `dial_invalid`: `connect` itself returns an error, as it does for port 0 or an
-- address of another family than the endpoint's, and its `unwrap` panics.
pub data Dial : Type 0 where
  dial_invalid dial_failed : Dial
  dial_ok : Connection → Dial

-- What the network answers to a rendezvous: the two dials, and the handshake.
pub record Answers : Type 0 where
  pub via_lan : Dial
  pub via_public : Dial
  pub handshake : Bool

-- LAN first; the public address only if that fails. Also the addresses that are dialed.
unfoldable pub connect_either : SocketAddr → SocketAddr → Answers → List SocketAddr × Dial
connect_either target_local target_public answers = elim answers.via_lan [
  | dial_invalid ↦ (target_local ∷ [], dial_invalid)
  | dial_ok conn ↦ (target_local ∷ [], dial_ok conn)
  | dial_failed ↦ (target_local ∷ target_public ∷ [], answers.via_public)
]

-- `parse().unwrap_or(target_ip)`
abbrev pub ip_or : Option ℕ → ℕ → ℕ
ip_or (some ip) target_ip = ip
ip_or none target_ip = target_ip

-- The check of an inbound key, which only a configured key makes.
abbrev pub allows : Option (List ℕ) → List ℕ → Bool
allows none key = true
allows (some allowed) key = same allowed key

-- Only the configured peer is dialed.
abbrev pub is_target : Option (List ℕ) → List ℕ → Bool
is_target none key = false
is_target (some target) key = same target key

-- The two tasks, as events. An inbound connection has the key that its handshake proves.
pub data Event : Type 0 where
  incoming : Option Connection → Option (List ℕ) → Event
  rendezvous : PeerFound → Answers → Event

module _ (codecs : Codecs) where
  -- The peer's address comes from its key, of which two bytes are indexed.
  unfoldable pub register : List ℕ → Connection → PeerRegistry → Outcome × PeerRegistry
  register remote_pub conn peers = elim (derive_virtual_ip remote_pub) [
    | none ↦ (panicked, peers)
    | some ip ↦ (established, insert peers (ip_to_string ip) conn)
  ]

  -- An inbound connection: whether it comes up, and the key that its handshake proves.
  unfoldable pub on_incoming :
      Option (List ℕ) → Option Connection → Option (List ℕ) → PeerRegistry → Outcome × PeerRegistry
  on_incoming filter none proved peers = (not_connected, peers)
  on_incoming filter (some conn) none peers = (handshake_failed, peers)
  on_incoming filter (some conn) (some remote_pub) peers =
      if allows filter (codecs.encode64 remote_pub)
      then register remote_pub conn peers
      else (unauthorized, peers)

  -- The connection of a dial, if there is one, and the handshake over it.
  unfoldable pub on_dialed : List ℕ → Bool → Dial → PeerRegistry → Outcome × PeerRegistry
  on_dialed remote_pub handshake dial_invalid peers = (panicked, peers)
  on_dialed remote_pub handshake dial_failed peers = (not_connected, peers)
  on_dialed remote_pub false (dial_ok conn) peers = (handshake_failed, peers)
  on_dialed remote_pub true (dial_ok conn) peers = register remote_pub conn peers

  abbrev pub dial_key :
      Option (List ℕ)
      → SocketAddr
      → SocketAddr
      → Answers
      → PeerRegistry
      → List SocketAddr × Outcome × PeerRegistry
  dial_key none target_local target_public answers peers = ([], bad_key, peers)
  dial_key (some remote_pub) target_local target_public answers peers =
      let (dialed, conn) = connect_either target_local target_public answers in
      let (outcome, peers') = on_dialed remote_pub answers.handshake conn peers in
      (dialed, outcome, peers')

  abbrev pub dial_ip :
      Option (List ℕ)
      → PeerFound
      → Option ℕ
      → Answers
      → PeerRegistry
      → List SocketAddr × Outcome × PeerRegistry
  dial_ip target peer none answers peers = ([], bad_ip, peers)
  dial_ip target peer (some target_ip) answers peers =
      let target_port = peer.public_port % 2 ^ 16 in
      let target_public : SocketAddr = record { port = target_port; ip = target_ip } in
      let target_local : SocketAddr = record {
        port = target_port;
        ip = ip_or (codecs.parse_ip peer.local_ip) target_ip;
      } in
      if is_target target peer.target_node_id
      then dial_key (codecs.decode64 peer.target_node_id) target_local target_public answers peers
      else ([], not_target, peers)

  -- A rendezvous event: the addresses dialed, the outcome, and the registry. The probes of the
  -- hole punching before it are in `Dialer`.
  unfoldable pub on_rendezvous :
      Option (List ℕ)
      → PeerFound
      → Answers
      → PeerRegistry
      → List SocketAddr × Outcome × PeerRegistry
  on_rendezvous target peer answers peers =
      dial_ip target peer (codecs.parse_ip peer.public_ip) answers peers

  -- Both tasks with the same configured key; the registry after an event, and after several. A
  -- dialer that panics takes no more events; here they may still come.
  unfoldable pub step : Option (List ℕ) → Event → PeerRegistry → PeerRegistry
  step peer_pub (incoming conn proved) peers = (on_incoming peer_pub conn proved peers).1
  step peer_pub (rendezvous peer answers) peers = (on_rendezvous peer_pub peer answers peers).2

  unfoldable pub run : Option (List ℕ) → List Event → PeerRegistry → PeerRegistry
  run peer_pub [] peers = peers
  run peer_pub (event ∷ rest) peers = run peer_pub rest (step peer_pub event peers)

-- `get_status`: the number of active peers.
abbrev pub active_peers : PeerRegistry → ℕ
active_peers peers = length peers
