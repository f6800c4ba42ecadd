-- ===== src/Daemon/Inbound/Guarded.antt =====
-- Nobody gets through the inbound listener whose key is not let in.
use decentis.Prelude.{
  ℕ, true, false, List, [], ◌∷◌, ◌++◌, Option, some, none, ◌≡◌, refl, Bool-cases, inl, inr,
}
use mathlib.Core.List.{Memᴰ}
use mathlib.Core.List.Memᴰ
use decentis.Crypto.Identity.{Keypair, Ipv4Addr, derive_virtual_ip}
use decentis.Crypto.Identity.Text.{ip_to_string}
use decentis.Crypto.Session.{SessionTx, SessionRx}
use decentis.Crypto.Handshake.{Snow}
use decentis.Transport.Handshake.{Stream, Arrival, Result, ok, err, respond_noise_handshake}
use decentis.Daemon.{
  Codecs, Connection, PeerRegistry, Outcome, panicked, established, allows, register, insert,
}
use decentis.Daemon.Link.{get-insert_self}
use decentis.Daemon.Status.{IsRegistered, insert-get}
use decentis.Daemon.Inbound.{
  Incoming, Started, listens, bridges, closes, start, on_handshake, on_connection, accept,
  inbound_listener,
}

abbrev pub AllStarted : (Started → Type 0) → List Started → Type 0
AllStarted P [] = Unit {0}
AllStarted P (s ∷ rest) = P s × AllStarted P rest

AllStarted-append :
    (P : Started → Type 0) (xs ys : List Started)
    → AllStarted P xs
    → AllStarted P ys
    → AllStarted P (xs ++ ys)
AllStarted-append P [] ys hx hy = hy
AllStarted-append P (x ∷ xs) ys hx hy = (hx.0, AllStarted-append P xs ys hx.1 hy)

AllStarted-weaken :
    (P Q : Started → Type 0) (xs : List Started)
    → ((s : Started) → P s → Q s)
    → AllStarted P xs
    → AllStarted Q xs
AllStarted-weaken P Q [] sub h = tt
AllStarted-weaken P Q (x ∷ xs) sub h = (sub x h.0, AllStarted-weaken P Q xs sub h.1)

-- Every address stays registered.
abbrev Keeps : PeerRegistry → PeerRegistry → Type 0
Keeps before after = (vip : List ℕ) → IsRegistered before vip → IsRegistered after vip

register-panicked :
    (codecs : Codecs) (key : List ℕ) (conn : Connection) (peers : PeerRegistry)
    → derive_virtual_ip key ≡ none
    → register codecs key conn peers ≡ (panicked, peers)
unfolding register
register-panicked codecs key conn peers e = rw (e, register)

register-established :
    (codecs : Codecs) (key : List ℕ) (conn : Connection) (peers : PeerRegistry) (ip : Ipv4Addr)
    → derive_virtual_ip key ≡ some ip
    → register codecs key conn peers ≡ (established, insert peers (ip_to_string ip) conn)
unfolding register
register-established codecs key conn peers ip e = rw (e, register)

module _ (codecs : Codecs) (snow : Snow) (filter : Option (List ℕ)) (local_key : Keypair) where
  abbrev pub responds : Stream → Arrival → Result (SessionTx × SessionRx × List ℕ)
  responds stream arrival = respond_noise_handshake snow stream arrival local_key

  -- The connection is one of those that came in, and the handshake over it has given the session
  -- and proved the key.
  abbrev pub HasProved : List Incoming → Connection → SessionTx → SessionRx → List ℕ → Type 0
  HasProved is conn tx rx key =
      (i : Incoming) × Memᴰ i is
      × (i.conn ≡ some conn)
      × (responds i.stream i.arrival ≡ ok (tx, rx, key))

  -- The key is let in, and its address is registered.
  abbrev pub IsAdmitted : PeerRegistry → List ℕ → Type 0
  IsAdmitted peers key =
      (allows filter (codecs.encode64 key) ≡ true)
      × ((ip : Ipv4Addr) × (derive_virtual_ip key ≡ some ip) × IsRegistered peers (ip_to_string ip))

  abbrev pub IsGuarded : List Incoming → PeerRegistry → Started → Type 0
  IsGuarded is peers (listens conn) =
      (tx : SessionTx) × (rx : SessionRx) × (key : List ℕ) × HasProved is conn tx rx key
      × IsAdmitted peers key
  IsGuarded is peers (bridges conn tx rx) =
      (key : List ℕ) × HasProved is conn tx rx key × IsAdmitted peers key
  IsGuarded is peers (closes conn code) =
      (code ≡ 4001)
      × ((tx : SessionTx) × (rx : SessionRx) × (key : List ℕ) × HasProved is conn tx rx key
          × (allows filter (codecs.encode64 key) ≡ false))

  -- More connections may have come in, and more addresses be registered.
  IsGuarded-weaken :
      (is all : List Incoming) (before after : PeerRegistry) (s : Started)
      → ((i : Incoming) → Memᴰ i is → Memᴰ i all)
      → Keeps before after
      → IsGuarded is before s
      → IsGuarded all after s
  IsGuarded-weaken is all before after (listens conn) among kept
        (tx, rx, key, (i, is_in, up, proved), (allowed, (ip, derived, held))) =
      (
        tx,
        rx,
        key,
        (i, among i is_in, up, proved),
        (allowed, (ip, derived, kept (ip_to_string ip) held)),
      )
  IsGuarded-weaken is all before after (bridges conn tx rx) among kept
        (key, (i, is_in, up, proved), (allowed, (ip, derived, held))) =
      (key, (i, among i is_in, up, proved), (allowed, (ip, derived, kept (ip_to_string ip) held)))
  IsGuarded-weaken is all before after (closes conn code) among kept
        (code_is, (tx, rx, key, (i, is_in, up, proved), refused)) =
      (code_is, (tx, rx, key, (i, among i is_in, up, proved), refused))

  -- What the task of a connection does: the registry keeps its addresses, and all that is started
  -- is guarded.
  abbrev IsSafe : List Incoming → PeerRegistry → List Started × Outcome × PeerRegistry → Type 0
  IsSafe is peers (started, outcome, peers') =
      Keeps peers peers' × AllStarted (IsGuarded is peers') started

  on_handshake-IsSafe :
      (i : Incoming) (conn : Connection) (r : Result (SessionTx × SessionRx × List ℕ))
      (peers : PeerRegistry)
      → i.conn ≡ some conn
      → responds i.stream i.arrival ≡ r
      → IsSafe (i ∷ []) peers (on_handshake codecs snow filter local_key conn r peers)
  on_handshake-IsSafe i conn (err e) peers up same = (λ vip held. held, tt)
  on_handshake-IsSafe i conn (ok (tx, rx, key)) peers up same =
      elim (Bool-cases (allows filter (codecs.encode64 key))) [
        | inl allowed ↦ rw allowed (by_ip allowed (derive_virtual_ip key) refl)
        | inr refused ↦ rw refused (λ vip held. held, ((refl, (tx, rx, key, proved, refused)), tt))
      ]
    where
      proved : HasProved (i ∷ []) conn tx rx key
      proved = (i, Memᴰ.head refl, up, same)

      by_ip :
          allows filter (codecs.encode64 key) ≡ true
          → (o : Option Ipv4Addr) → derive_virtual_ip key ≡ o
          → IsSafe (i ∷ []) peers (start conn tx rx (register codecs key conn peers))
      by_ip allowed none lost =
          rw (register-panicked codecs key conn peers lost) (λ vip held. held, tt)
      by_ip allowed (some ip) derived =
          let vip = ip_to_string ip in
          let admitted : IsAdmitted (insert peers vip conn) key =
            (allowed, (ip, derived, (conn, get-insert_self peers vip conn))) in
          rw (register-established codecs key conn peers ip derived) (
            λ other (held, found). insert-get peers vip other conn held found,
            ((tx, rx, key, proved, admitted), ((key, proved, admitted), tt)),
          )

  accept-IsSafe :
      (i : Incoming) (peers : PeerRegistry)
      → IsSafe (i ∷ []) peers (accept codecs snow filter local_key i peers)
  unfolding accept
  accept-IsSafe i peers = by_conn i.conn refl
    where
      by_conn :
          (o : Option Connection)
          → i.conn ≡ o
          → IsSafe (i ∷ []) peers (on_connection codecs snow filter local_key o i peers)
      by_conn none down = (λ vip held. held, tt)
      by_conn (some conn) up =
          on_handshake-IsSafe i conn (responds i.stream i.arrival) peers up refl

  listener-IsSafe :
      (is : List Incoming) (peers : PeerRegistry)
      → let (started, peers') = inbound_listener codecs snow filter local_key is peers in
        Keeps peers peers' × AllStarted (IsGuarded is peers') started
  unfolding inbound_listener
  listener-IsSafe [] peers = (λ vip held. held, tt)
  listener-IsSafe (i ∷ rest) peers =
      let done = accept codecs snow filter local_key i peers in
      let (kept, guarded) = accept-IsSafe i peers in
      let (kept', guarded') = listener-IsSafe rest done.2 in
      let after = (inbound_listener codecs snow filter local_key rest done.2).1 in
      (
        λ vip held. kept' vip (kept vip held),
        AllStarted-append (IsGuarded (i ∷ rest) after) done.0 _
            (AllStarted-weaken (IsGuarded (i ∷ []) done.2) (IsGuarded (i ∷ rest) after) done.0
              (λ s. IsGuarded-weaken (i ∷ []) (i ∷ rest) done.2 after s (λ j. first j) kept')
              guarded)
            (AllStarted-weaken (IsGuarded rest after) (IsGuarded (i ∷ rest) after) _
              (λ s.
                IsGuarded-weaken rest (i ∷ rest) after after s (λ j. Memᴰ.tail) (λ vip held. held))
              guarded'),
      )
    where
      first : (j : Incoming) → Memᴰ j (i ∷ []) → Memᴰ j (i ∷ rest)
      first j (Memᴰ.head e) = Memᴰ.head e
      first j (Memᴰ.tail m) = absurd (Memᴰ.not-nil m)

  -- Whatever connections come in and whatever arrives on them: the streams of a connection are
  -- served and its datagrams bridged only if it came in and its own handshake, which gave the
  -- session, has proved a key that is let in, and in the end the address of that key is registered;
  -- and a connection is closed only with the code 4001, after its own handshake has proved a key
  -- that is not let in.
  pub inbound_listener-IsGuarded :
      (is : List Incoming) (peers : PeerRegistry)
      → AllStarted
          (IsGuarded is (inbound_listener codecs snow filter local_key is peers).1)
          (inbound_listener codecs snow filter local_key is peers).0
  inbound_listener-IsGuarded is peers = (listener-IsSafe is peers).1
