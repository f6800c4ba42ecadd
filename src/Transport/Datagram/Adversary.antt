-- ===== src/Transport/Datagram/Adversary.antt =====
-- What comes out of the device whoever sends the datagrams: a network may lose, double and reorder
-- them, and an attacker may make up others.
use decentis.Prelude.{
  ℕ, suc, ◌+◌, ◌<◌, ◌^◌, Bool, true, false, List, [], ◌∷◌, Option, some, none, length, get_elem?,
  ◌==◌, if◌then◌else◌, ◌≡◌, ◌⊎◌, inl, inr, refl, sym, ◌∙◌, arith, Bool-cases,
}
use decentis.Transport.Frame.{FrameHeader, Read, decode, type_l3_tun_datagram}
use decentis.Crypto.Replay.{check_and_mark}
use decentis.Crypto.Replay.Window.{contains, admits, record_accepted, admits-contains, AllNew}
use decentis.Crypto.Replay.Refine.{Tracks, new-Tracks, check_and_mark-Agrees}
use decentis.Crypto.Session.{
  SessionTx, SessionRx, TransportState, replay_dropped, opened, open_result, encrypt, decrypt,
  split_session,
}
use decentis.Crypto.Session.Once.{AllNew-weaken, decrypt-admits}
use decentis.Transport.Datagram.{
  buffer_size, TunRead, packet, tun_error, QuicRead, datagram, disconnected, rx_task,
}

-- The packets that the sending device hands over.
abbrev pub packets_of : List (TunRead × Bool) → List (List ℕ)
packets_of [] = []
packets_of ((tun_error, sends) ∷ rest) = []
packets_of ((packet p, sends) ∷ rest) = p ∷ packets_of rest

-- The sender has encrypted this packet under this nonce.
abbrev pub Encrypted : SessionTx → List (TunRead × Bool) → ℕ → List ℕ → Type 0
Encrypted tx [] nonce p = ⊥
Encrypted tx ((tun_error, sends) ∷ rest) nonce p = ⊥
Encrypted tx ((packet q, sends) ∷ rest) nonce p =
    ((nonce ≡ tx.tx_seq) × (p ≡ q)) ⊎ Encrypted (encrypt tx q buffer_size).1 rest nonce p

-- What snow documents of an authenticated cipher, taken as certain: the reader opens nothing but
-- what the sender has encrypted under that nonce.
abbrev pub IsAuthentic : TransportState → SessionTx → List (TunRead × Bool) → Type 0
IsAuthentic reader tx reads =
    (nonce : ℕ) (ciphertext : List ℕ) (size : ℕ) (p : List ℕ)
    → reader.read_message nonce ciphertext size ≡ some p
    → Encrypted tx reads nonce p

-- The packets at these places of the list, in this order.
abbrev pub Picks : List (List ℕ) → List ℕ → List (List ℕ) → Type 0
Picks ps [] [] = Unit {0}
Picks ps (i ∷ is) (p ∷ out) = (get_elem? ps i ≡ some p) × Picks ps is out
Picks ps _ _ = ⊥

Encrypted-place :
    (tx : SessionTx) (reads : List (TunRead × Bool)) (nonce : ℕ) (p : List ℕ)
    → tx.tx_seq + length reads < 2 ^ 32
    → Encrypted tx reads nonce p
    → (k : ℕ) × (nonce ≡ tx.tx_seq + k) × (get_elem? (packets_of reads) k ≡ some p)
unfolding encrypt
Encrypted-place tx [] nonce p few e = absurd e
Encrypted-place tx ((tun_error, sends) ∷ rest) nonce p few e = absurd e
Encrypted-place tx ((packet q, sends) ∷ rest) nonce p few (inl (same, here)) =
    (0, omega arith, rw here refl)
Encrypted-place tx ((packet q, sends) ∷ rest) nonce p few (inr later) =
    let (k, at, found) =
      Encrypted-place (encrypt tx q buffer_size).1 rest nonce p (omega arith) later in
    (suc k, omega arith, found)

-- The output is made of different places of the list, none of them in the history.
abbrev Genuine : List (List ℕ) → List ℕ → List (List ℕ) → Type 0
Genuine ps h out = (is : List ℕ) × AllNew h is × Picks ps is out

Genuine-later :
    (ps : List (List ℕ)) (h : List ℕ) (seq : ℕ) (b : Bool) (out : List (List ℕ))
    → Genuine ps (if b then seq ∷ h else h) out
    → Genuine ps h out
Genuine-later ps h seq true out (is, new, picks) =
    (is, AllNew-weaken (seq ∷ h) h is (λ x c. ground arith) new, picks)
Genuine-later ps h seq false out g = g

admits-fresh : (h : List ℕ) (seq : ℕ) → admits h seq ≡ true → contains h seq ≡ false
admits-fresh h seq e = elim (Bool-cases (contains h seq)) [
  | inl old ↦ absurd (cc (sym e ∙ admits-contains h seq old))
  | inr fresh ↦ fresh
]

abbrev Opens : List (List ℕ) → TransportState → Type 0
Opens ps reader =
    (nonce : ℕ) (ciphertext : List ℕ) (size : ℕ) (p : List ℕ)
    → reader.read_message nonce ciphertext size ≡ some p
    → get_elem? ps nonce ≡ some p

module _ (ps : List (List ℕ)) where
  -- One datagram for the session.
  decrypted-Genuine :
      (rx : SessionRx) (h : List ℕ) (seq : ℕ) (ciphertext : List ℕ) (injects : Bool)
      (later : List (List ℕ))
      → Opens ps rx.state
      → Tracks rx.replay_filter h
      → Genuine ps (record_accepted h seq) later
      → Genuine ps h (elim (decrypt rx seq ciphertext buffer_size).0 [
        | opened plaintext ↦ if injects then plaintext ∷ later else []
        | _ ↦ later
      ])
  decrypted-Genuine rx h seq ciphertext injects later opens t g =
      rw (decrypt-admits rx h seq ciphertext buffer_size t) (
        by_admits (admits h seq) refl (rx.state.read_message seq ciphertext buffer_size) refl
          injects g)
    where
      by_admits :
          (b : Bool)
          → admits h seq ≡ b
          → (plaintext : Option (List ℕ))
          → rx.state.read_message seq ciphertext buffer_size ≡ plaintext
          → (injects : Bool) → Genuine ps (if b then seq ∷ h else h) later
          → Genuine ps h (elim (if b then open_result plaintext else replay_dropped) [
            | opened plaintext ↦ if injects then plaintext ∷ later else []
            | _ ↦ later
          ])
      by_admits true welcome (some p) e true (is, new, picks) = (
        seq ∷ is,
        (admits-fresh h seq welcome, new),
        (opens seq ciphertext buffer_size p e, picks),
      )
      by_admits true welcome (some p) e false g = ([], tt, tt)
      by_admits true welcome none e injects g = Genuine-later ps h seq true later g
      by_admits false welcome plaintext e injects g = g

  rx_task-Genuine :
      (rx : SessionRx) (h : List ℕ) (arrivals : List (QuicRead × Bool))
      → Opens ps rx.state
      → Tracks rx.replay_filter h
      → Genuine ps h (rx_task rx arrivals)
  unfolding rx_task
  rx_task-Genuine rx h [] opens t = ([], tt, tt)
  rx_task-Genuine rx h ((disconnected, injects) ∷ rest) opens t = ([], tt, tt)
  rx_task-Genuine rx h ((datagram bytes, injects) ∷ rest) opens t =
      by_read (decode bytes) (rx_task-Genuine rx h rest opens t) (λ seq ciphertext.
        rw (decrypt-admits rx h seq ciphertext buffer_size t) (
          rx_task-Genuine (record rx { replay_filter = (check_and_mark rx.replay_filter seq).1 })
            (record_accepted h seq) rest opens
            (check_and_mark-Agrees rx.replay_filter h seq t).tracks))
    where
      by_type :
          (l3 : Bool) (seq : ℕ) (ciphertext : List ℕ)
          → Genuine ps h (rx_task rx rest)
          → Genuine ps
              (record_accepted h seq)
              (rx_task (decrypt rx seq ciphertext buffer_size).1 rest)
          → let later = rx_task (decrypt rx seq ciphertext buffer_size).1 rest in
            Genuine ps h (
              if l3
              then (elim (decrypt rx seq ciphertext buffer_size).0 [
                | opened plaintext ↦ if injects then plaintext ∷ later else []
                | _ ↦ later
              ])
              else rx_task rx rest)
      by_type true seq ciphertext ignored later =
          decrypted-Genuine rx h seq ciphertext injects
            (rx_task (decrypt rx seq ciphertext buffer_size).1 rest) opens t later
      by_type false seq ciphertext ignored later = ignored

      by_read :
          (r : Read FrameHeader)
          → Genuine ps h (rx_task rx rest)
          → ((seq : ℕ) (ciphertext : List ℕ)
              → Genuine ps
                  (record_accepted h seq)
                  (rx_task (decrypt rx seq ciphertext buffer_size).1 rest))
          → Genuine ps h (elim r [
            | Read.panicked ↦ []
            | Read.failed e left ↦ rx_task rx rest
            | Read.done header ciphertext ↦
                let (result, rx') = decrypt rx header.seq_num ciphertext buffer_size in
                let later = rx_task rx' rest in
                if header.frame_type == type_l3_tun_datagram
                then (elim result [
                  | opened plaintext ↦ if injects then plaintext ∷ later else []
                  | _ ↦ later
                ])
                else rx_task rx rest
          ])
      by_read Read.panicked ignored later = ([], tt, tt)
      by_read (Read.failed e left) ignored later = ignored
      by_read (Read.done header ciphertext) ignored later =
          by_type (header.frame_type == type_l3_tun_datagram) header.seq_num ciphertext ignored
            (later header.seq_num ciphertext)

-- Over a new session, whatever datagrams arrive, from the other end or from anyone else, lost,
-- doubled, reordered or made up: the packets that come out of the device are packets that the other
-- end's device has handed over, each place of that sequence at most once. The sender has encrypted
-- fewer than 2 ^ 32 packets, and the reader is assumed to open nothing but what the sender has
-- encrypted under that nonce.
pub rx_task-Picks :
    (transport transport' : TransportState) (reads : List (TunRead × Bool))
    (arrivals : List (QuicRead × Bool))
    → IsAuthentic transport' (split_session transport).0 reads
    → length reads < 2 ^ 32
    → (is : List ℕ) × AllNew [] is
      × Picks (packets_of reads) is (rx_task (split_session transport').1 arrivals)
unfolding split_session
rx_task-Picks transport transport' reads arrivals authentic few =
    rx_task-Genuine (packets_of reads) (split_session transport').1 [] arrivals
      (λ nonce ciphertext size p e.
        let (k, at, found) =
          Encrypted-place (split_session transport).0 reads nonce p (omega arith)
            (authentic nonce ciphertext size p e) in
        let same : k ≡ nonce = omega arith in rw same at found)
      new-Tracks
