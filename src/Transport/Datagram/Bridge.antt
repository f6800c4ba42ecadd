-- ===== src/Transport/Datagram/Bridge.antt =====
-- From one TUN device to the other, over a link that loses datagrams.
use decentis.Prelude.{
  ℕ, ◌+◌, ◌%◌, ◌^◌, ◌≤◌, ◌<◌, Bool, true, false, List, [], ◌∷◌, ◌++◌, some, length, ◌≡◌, refl, ap,
  ◌∙◌, arith,
}
use decentis.Transport.Frame.{Read, encode, decode}
use decentis.Transport.Frame.Codec.{decode-encode}
use decentis.Crypto.Replay.{check_and_mark}
use decentis.Crypto.Replay.Window.{highest, admits}
use decentis.Crypto.Replay.Refine.{Tracks, new-Tracks, check_and_mark-Agrees}
use decentis.Crypto.Session.{
  SessionTx, SessionRx, TransportState, Paired, opened, encrypt, decrypt, split_session,
}
use decentis.Crypto.Session.Deliver.{encrypt-some, decrypt-encrypt}
use decentis.Transport.Datagram.{
  buffer_size, l3_header, TunRead, packet, tx_task, QuicRead, datagram, rx_task,
}

-- Packets that the device hands over, each with whether `send_datagram` takes its datagram.
abbrev pub from_tun : List (List ℕ × Bool) → List (TunRead × Bool)
from_tun [] = []
from_tun ((p, taken) ∷ ps) = (packet p, taken) ∷ from_tun ps

-- The packets up to the first one whose datagram is refused.
abbrev pub until_refused : List (List ℕ × Bool) → List (List ℕ)
until_refused [] = []
until_refused ((p, true) ∷ ps) = p ∷ until_refused ps
until_refused ((p, false) ∷ ps) = []

-- The datagrams that the link does not lose, and a device that takes every packet. A list of
-- losses that ends loses nothing more.
abbrev pub survivors : List Bool → List (List ℕ) → List (List ℕ)
survivors lost [] = []
survivors [] (d ∷ ds) = d ∷ survivors [] ds
survivors (true ∷ lost) (d ∷ ds) = survivors lost ds
survivors (false ∷ lost) (d ∷ ds) = d ∷ survivors lost ds

abbrev pub from_link : List (List ℕ) → List (QuicRead × Bool)
from_link [] = []
from_link (d ∷ ds) = (datagram d, true) ∷ from_link ds

abbrev pub AllFit : List (List ℕ × Bool) → Type 0
AllFit [] = Unit {0}
AllFit ((p, taken) ∷ ps) = (length p ≤ 1500) × AllFit ps

-- The history lies behind the sender.
abbrev IsBehind : List ℕ → ℕ → Type 0
IsBehind [] seq = Unit {0}
IsBehind (x ∷ h) seq = highest (x ∷ h) < seq

-- One datagram through: its packet is injected.
rx_task-next :
    (tx : SessionTx) (rx : SessionRx) (h plaintext ciphertext : List ℕ)
    (rest : List (QuicRead × Bool))
    → Paired tx.state rx.state
    → Tracks rx.replay_filter h
    → admits h tx.tx_seq ≡ true
    → tx.tx_seq < 2 ^ 32
    → length plaintext ≤ 1500
    → tx.state.write_message tx.tx_seq plaintext buffer_size ≡ some ciphertext
    → rx_task rx ((datagram (encode (l3_header tx.tx_seq) [] ++ ciphertext), true) ∷ rest)
      ≡ plaintext
        ∷ rx_task (record rx { replay_filter = (check_and_mark rx.replay_filter tx.tx_seq).1 }) rest
unfolding rx_task
rx_task-next tx rx h plaintext ciphertext rest pair t welcome seq_lt fits written =
    ground (arith, decoded, decrypted)
  where
    decoded :
        decode (encode (l3_header tx.tx_seq) [] ++ ciphertext)
        ≡ Read.done (l3_header tx.tx_seq) ciphertext
    decoded = decode-encode (l3_header tx.tx_seq) ciphertext (record {
      frame_type_lt = omega arith;
      flags_lt = omega arith;
      stream_id_lt = omega arith;
      seq_num_lt = seq_lt;
    })

    decrypted : decrypt rx tx.tx_seq ciphertext buffer_size ≡ (
      opened plaintext,
      record rx { replay_filter = (check_and_mark rx.replay_filter tx.tx_seq).1 },
    )
    decrypted =
        decrypt-encrypt tx rx h plaintext ciphertext buffer_size buffer_size pair t welcome written
          (omega arith)

tx_task-next :
    (tx : SessionTx) (plaintext ciphertext : List ℕ) (rest : List (TunRead × Bool))
    → encrypt tx plaintext buffer_size
      ≡ (some (tx.tx_seq, ciphertext), record tx { tx_seq = (tx.tx_seq + 1) % 2 ^ 32 })
    → tx_task tx ((packet plaintext, true) ∷ rest)
      ≡ (encode (l3_header tx.tx_seq) [] ++ ciphertext)
        ∷ tx_task (record tx { tx_seq = (tx.tx_seq + 1) % 2 ^ 32 }) rest
unfolding tx_task
tx_task-next tx plaintext ciphertext rest e = ground (arith, e)

tx_task-refused :
    (tx : SessionTx) (plaintext ciphertext : List ℕ) (rest : List (TunRead × Bool))
    → encrypt tx plaintext buffer_size
      ≡ (some (tx.tx_seq, ciphertext), record tx { tx_seq = (tx.tx_seq + 1) % 2 ^ 32 })
    → tx_task tx ((packet plaintext, false) ∷ rest) ≡ []
unfolding tx_task
tx_task-refused tx plaintext ciphertext rest e = ground (arith, e)

admits_behind : (h : List ℕ) (seq : ℕ) → IsBehind h seq → admits h seq ≡ true
admits_behind [] seq b = refl
admits_behind (x ∷ h) seq b = ground arith

highest_behind : (h : List ℕ) (seq : ℕ) → IsBehind h seq → highest (seq ∷ h) ≡ seq
highest_behind [] seq b = omega arith
highest_behind (x ∷ h) seq b = omega arith

IsBehind-suc : (h : List ℕ) (seq next : ℕ) → IsBehind h seq → seq < next → IsBehind h next
IsBehind-suc [] seq next b lt = tt
IsBehind-suc (x ∷ h) seq next b lt = omega arith

-- From any point of a session at which the receiver's history lies behind the sender's counter.
rx_task-survivors :
    (ps : List (List ℕ × Bool)) (lost : List Bool) (tx : SessionTx) (rx : SessionRx) (h : List ℕ)
    → Paired tx.state rx.state
    → Tracks rx.replay_filter h
    → IsBehind h tx.tx_seq
    → tx.tx_seq + length ps < 2 ^ 32
    → AllFit ps
    → rx_task rx (from_link (survivors lost (tx_task tx (from_tun ps))))
      ≡ survivors lost (until_refused ps)
unfolding rx_task
rx_task-survivors [] lost tx rx h pair t b few fit = unfold tx_task rx_task in refl
rx_task-survivors ((p, false) ∷ ps) lost tx rx h pair t b few fit =
    let (ciphertext, written, encrypted) =
      encrypt-some tx rx p buffer_size pair (omega arith) (omega arith) in
    rw (tx_task-refused tx p ciphertext (from_tun ps) encrypted) refl
rx_task-survivors ((p, true) ∷ ps) lost tx rx h pair t b few fit =
    let (ciphertext, written, encrypted) =
      encrypt-some tx rx p buffer_size pair (omega arith) (omega arith) in
    rw (tx_task-next tx p ciphertext (from_tun ps) encrypted) (
      by_loss
        (λ lost' rx1 h1 pair1 t1 b1.
          rx_task-survivors ps lost' (record tx { tx_seq = (tx.tx_seq + 1) % 2 ^ 32 }) rx1 h1 pair1
            t1 b1 (omega arith) fit.1)
        lost ciphertext written)
  where
    tx' : SessionTx
    tx' = record tx { tx_seq = (tx.tx_seq + 1) % 2 ^ 32 }

    rx' : SessionRx
    rx' = record rx { replay_filter = (check_and_mark rx.replay_filter tx.tx_seq).1 }

    welcome : admits h tx.tx_seq ≡ true
    welcome = admits_behind h tx.tx_seq b

    tracks : Tracks rx'.replay_filter (tx.tx_seq ∷ h)
    tracks = rw welcome at (check_and_mark-Agrees rx.replay_filter h tx.tx_seq t).tracks

    ahead : highest (tx.tx_seq ∷ h) < tx'.tx_seq
    ahead = omega (arith, highest_behind h tx.tx_seq b)

    Later : Type 0
    Later =
        (lost : List Bool) (rx1 : SessionRx) (h1 : List ℕ)
        → Paired tx'.state rx1.state
        → Tracks rx1.replay_filter h1
        → IsBehind h1 tx'.tx_seq
        → rx_task rx1 (from_link (survivors lost (tx_task tx' (from_tun ps))))
          ≡ survivors lost (until_refused ps)

    arrives :
        Later
        → (lost : List Bool) (ciphertext : List ℕ)
        → tx.state.write_message tx.tx_seq p buffer_size ≡ some ciphertext
        → rx_task rx (
            (datagram (encode (l3_header tx.tx_seq) [] ++ ciphertext), true)
            ∷ from_link (survivors lost (tx_task tx' (from_tun ps))))
          ≡ p ∷ survivors lost (until_refused ps)
    arrives later lost ciphertext written =
        rx_task-next tx rx h p ciphertext (from_link (survivors lost (tx_task tx' (from_tun ps))))
          pair t welcome (omega arith) fit.0 written
        ∙ ap (λ ds. p ∷ ds) (later lost rx' (tx.tx_seq ∷ h) pair tracks ahead)

    by_loss :
        Later
        → (lost : List Bool) (ciphertext : List ℕ)
        → tx.state.write_message tx.tx_seq p buffer_size ≡ some ciphertext
        → rx_task rx (
            from_link (
              survivors lost
                ((encode (l3_header tx.tx_seq) [] ++ ciphertext) ∷ tx_task tx' (from_tun ps))))
          ≡ survivors lost (p ∷ until_refused ps)
    by_loss later [] ciphertext written = arrives later [] ciphertext written
    by_loss later (false ∷ lost) ciphertext written = arrives later lost ciphertext written
    by_loss later (true ∷ lost) ciphertext written =
        later lost rx h pair t (IsBehind-suc h tx.tx_seq tx'.tx_seq b (omega arith))

-- Over a new session of two paired cipher states, of fewer than 2 ^ 32 packets of at most 1500 bytes
-- those before the first whose datagram quinn refuses, as it does above the size that the path
-- takes, come out of the other end's device exactly as they went in, in order, less those whose
-- datagrams the link loses; the others do not come out. The other end's device takes each packet.
pub rx_task-tx_task :
    (transport transport' : TransportState) (ps : List (List ℕ × Bool)) (lost : List Bool)
    → Paired transport transport'
    → length ps < 2 ^ 32
    → AllFit ps
    → rx_task
        (split_session transport').1
        (from_link (survivors lost (tx_task (split_session transport).0 (from_tun ps))))
      ≡ survivors lost (until_refused ps)
unfolding split_session
rx_task-tx_task transport transport' ps lost pair few fit =
    rx_task-survivors ps lost (split_session transport).0 (split_session transport').1 [] pair
      new-Tracks tt (omega arith) fit
