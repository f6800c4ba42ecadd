-- ===== src/Daemon/Admission.antt =====
-- Who gets into the registry, and under which address.
use decentis.Prelude.{
  ℕ, Bool, true, false, List, [], ◌∷◌, Option, some, none, if◌then◌else◌, ◌≡◌, refl, ◌⊎◌, inl, inr,
}
use decentis.Crypto.Identity.{Ipv4Addr, derive_virtual_ip}
use decentis.Crypto.Identity.Text.{ip_to_string}
use decentis.Nat.Signaling.{PeerFound}
use decentis.Daemon.{
  Codecs, Connection, PeerRegistry, get, insert, Outcome, not_target, unauthorized, panicked,
  established, Dial, dial_invalid, dial_failed, dial_ok, Answers, connect_either, allows, is_target,
  register, on_incoming, on_dialed, on_rendezvous, dial_key, dial_ip, Event, incoming, rendezvous,
  step, run,
}
use decentis.Nat.Stun.{SocketAddr}
use decentis.Daemon.Registry.{
  same-eq, AllKeys, AreDistinct, get-AllKeys, insert-AllKeys, insert-AreDistinct,
}

-- The address of a key, as the registry has it.
abbrev pub IsAddressOf : List ℕ → List ℕ → Type 0
IsAddressOf key vip = (ip : Ipv4Addr) × (derive_virtual_ip key ≡ some ip) × (vip ≡ ip_to_string ip)

-- The address of a key that the configured string encodes, or decodes to.
abbrev IsConfigured : Codecs → List ℕ → List ℕ → Type 0
IsConfigured codecs allowed vip =
    (key : List ℕ) × (codecs.decode64 allowed ≡ some key) × IsAddressOf key vip

-- What lets a key in: an inbound check that it passes, or a dial of the string it is decoded from.
abbrev pub IsAdmitted : Codecs → Option (List ℕ) → (List ℕ → Type 0) → List ℕ → Type 0
IsAdmitted codecs peer_pub Proved key =
    ((allows peer_pub (codecs.encode64 key) ≡ true) × Proved key)
    ⊎ ((id : List ℕ) × (is_target peer_pub id ≡ true) × (codecs.decode64 id ≡ some key))

-- Every key that an inbound handshake proves has the property.
abbrev pub AllProved : (List ℕ → Type 0) → List Event → Type 0
AllProved Proved [] = Unit {0}
AllProved Proved (incoming conn (some key) ∷ rest) = Proved key × AllProved Proved rest
AllProved Proved (event ∷ rest) = AllProved Proved rest

AllProved-Unit : (events : List Event) → AllProved (λ key. Unit {0}) events
AllProved-Unit [] = tt
AllProved-Unit (incoming conn (some key) ∷ rest) = (tt, AllProved-Unit rest)
AllProved-Unit (incoming conn none ∷ rest) = AllProved-Unit rest
AllProved-Unit (rendezvous peer answers ∷ rest) = AllProved-Unit rest

-- A predicate that every insert of an admitted key keeps is kept by both tasks.
module _ (codecs : Codecs) (peer_pub : Option (List ℕ)) (Proved : List ℕ → Type 0)
    (Inv : PeerRegistry → Type 0)
    (inserts : (key : List ℕ) (ip : Ipv4Addr) (conn : Connection) (peers : PeerRegistry)
      → IsAdmitted codecs peer_pub Proved key
      → derive_virtual_ip key ≡ some ip
      → Inv peers
      → Inv (insert peers (ip_to_string ip) conn)) where
  abbrev registered_at : Connection → PeerRegistry → Option Ipv4Addr → Outcome × PeerRegistry
  registered_at conn peers none = (panicked, peers)
  registered_at conn peers (some ip) = (established, insert peers (ip_to_string ip) conn)

  register-Inv :
      (key : List ℕ) (conn : Connection) (peers : PeerRegistry)
      → IsAdmitted codecs peer_pub Proved key
      → Inv peers
      → Inv (register codecs key conn peers).1
  unfolding register
  register-Inv key conn peers admitted i = by_ip (derive_virtual_ip key) refl
    where
      by_ip : (o : Option Ipv4Addr) → derive_virtual_ip key ≡ o → Inv (registered_at conn peers o).1
      by_ip none e = i
      by_ip (some ip) e = inserts key ip conn peers admitted e i

  on_incoming-Inv :
      (conn : Option Connection) (proved : Option (List ℕ)) (peers : PeerRegistry)
      → AllProved Proved (incoming conn proved ∷ [])
      → Inv peers
      → Inv (on_incoming codecs peer_pub conn proved peers).1
  unfolding on_incoming
  on_incoming-Inv none proved peers p i = i
  on_incoming-Inv (some conn) none peers p i = i
  on_incoming-Inv (some conn) (some key) peers p i =
      by_check (allows peer_pub (codecs.encode64 key)) refl
    where
      by_check :
          (b : Bool)
          → allows peer_pub (codecs.encode64 key) ≡ b
          → Inv (if b then register codecs key conn peers else (unauthorized, peers)).1
      by_check true e = register-Inv key conn peers (inl (e, p.0)) i
      by_check false e = i

  on_dialed-Inv :
      (key : List ℕ) (handshake : Bool) (dial : Dial) (peers : PeerRegistry)
      → IsAdmitted codecs peer_pub Proved key
      → Inv peers
      → Inv (on_dialed codecs key handshake dial peers).1
  unfolding on_dialed
  on_dialed-Inv key handshake dial_invalid peers admitted i = i
  on_dialed-Inv key handshake dial_failed peers admitted i = i
  on_dialed-Inv key false (dial_ok conn) peers admitted i = i
  on_dialed-Inv key true (dial_ok conn) peers admitted i = register-Inv key conn peers admitted i

  dial_key-Inv :
      (id : List ℕ) (o : Option (List ℕ)) (target_local target_public : SocketAddr)
      (answers : Answers) (peers : PeerRegistry)
      → is_target peer_pub id ≡ true
      → codecs.decode64 id ≡ o
      → Inv peers
      → Inv (dial_key codecs o target_local target_public answers peers).2
  dial_key-Inv id none target_local target_public answers peers t e i = i
  dial_key-Inv id (some key) target_local target_public answers peers t e i =
      on_dialed-Inv key answers.handshake (connect_either target_local target_public answers).1
        peers (inr (id, t, e)) i

  dial_ip-Inv :
      (peer : PeerFound) (o : Option ℕ) (answers : Answers) (peers : PeerRegistry)
      → Inv peers
      → Inv (dial_ip codecs peer_pub peer o answers peers).2
  dial_ip-Inv peer none answers peers i = i
  dial_ip-Inv peer (some target_ip) answers peers i =
      by_target _ (is_target peer_pub peer.target_node_id) refl (λ t.
        dial_key-Inv peer.target_node_id (codecs.decode64 peer.target_node_id) _ _ answers peers t
          refl i)
    where
      by_target :
          (dialed : List SocketAddr × Outcome × PeerRegistry) (b : Bool)
          → is_target peer_pub peer.target_node_id ≡ b
          → (is_target peer_pub peer.target_node_id ≡ true → Inv dialed.2)
          → Inv (if b then dialed else ([], not_target, peers)).2
      by_target dialed true e kept = kept e
      by_target dialed false e kept = i

  pub run-Inv :
      (events : List Event) (peers : PeerRegistry)
      → AllProved Proved events
      → Inv peers
      → Inv (run codecs peer_pub events peers)
  unfolding run step on_rendezvous
  run-Inv [] peers p i = i
  run-Inv (incoming conn none ∷ rest) peers p i =
      run-Inv rest (on_incoming codecs peer_pub conn none peers).1 p
        (on_incoming-Inv conn none peers tt i)
  run-Inv (incoming conn (some key) ∷ rest) peers p i =
      run-Inv rest (on_incoming codecs peer_pub conn (some key) peers).1 p.1
        (on_incoming-Inv conn (some key) peers (p.0, tt) i)
  run-Inv (rendezvous peer answers ∷ rest) peers p i =
      run-Inv rest (on_rendezvous codecs peer_pub peer answers peers).2 p
        (dial_ip-Inv peer (codecs.parse_ip peer.public_ip) answers peers i)

IsAdmitted-configured :
    (codecs : Codecs) (allowed key : List ℕ)
    → ((k : List ℕ) → codecs.decode64 (codecs.encode64 k) ≡ some k)
    → IsAdmitted codecs (some allowed) (λ k. Unit {0}) key
    → codecs.decode64 allowed ≡ some key
IsAdmitted-configured codecs allowed key law (inl (e, proved)) =
    rw (same-eq allowed (codecs.encode64 key) e) (law key)
IsAdmitted-configured codecs allowed key law (inr (id, t, e)) = rw (same-eq allowed id t) e

-- With a configured peer, whatever connections, handshakes and rendezvous events come, every
-- address in the registry is that of the key which the configured string decodes to. base64 is
-- assumed to decode what it encodes.
pub run_configured :
    (codecs : Codecs) (allowed : List ℕ) (events : List Event) (vip : List ℕ) {conn : Connection}
    → ((k : List ℕ) → codecs.decode64 (codecs.encode64 k) ≡ some k)
    → get (run codecs (some allowed) events []) vip ≡ some conn
    → (key : List ℕ) × (codecs.decode64 allowed ≡ some key) × IsAddressOf key vip
run_configured codecs allowed events vip law e =
    get-AllKeys (IsConfigured codecs allowed) (run codecs (some allowed) events []) vip
      (run-Inv codecs (some allowed) (λ k. Unit {0}) (AllKeys (IsConfigured codecs allowed))
        (λ key ip c peers admitted derived a.
          insert-AllKeys (IsConfigured codecs allowed) peers (ip_to_string ip) c
            (key, IsAdmitted-configured codecs allowed key law admitted, (ip, derived, refl)) a)
        events [] (AllProved-Unit events) tt)
      e

-- Whatever connections, handshakes and rendezvous events come, with or without a configured peer,
-- no address occurs twice in the registry.
pub run-AreDistinct :
    (codecs : Codecs) (peer_pub : Option (List ℕ)) (events : List Event)
    → AreDistinct (run codecs peer_pub events [])
run-AreDistinct codecs peer_pub events =
    run-Inv codecs peer_pub (λ k. Unit {0}) AreDistinct
      (λ key ip conn peers admitted derived d. insert-AreDistinct peers (ip_to_string ip) conn d)
      events [] (AllProved-Unit events) tt
