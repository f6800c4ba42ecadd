-- ===== src/Crypto/Session/Deliver.antt =====
-- A message that one end encrypts is the message that the other end decrypts.
use decentis.Prelude.{ℕ, ◌+◌, ◌%◌, ◌^◌, ◌≤◌, true, List, some, length, ◌≡◌, refl}
use decentis.Crypto.Replay.{check_and_mark}
use decentis.Crypto.Replay.Window.{admits}
use decentis.Crypto.Replay.Refine.{Tracks}
use decentis.Crypto.Session.{SessionTx, SessionRx, Paired, opened, encrypt, decrypt}
use decentis.Crypto.Session.Once.{decrypt-admits}

-- Encryption into a buffer with room for the tag succeeds, under the present number.
pub encrypt-some :
    (tx : SessionTx) (rx : SessionRx) (plaintext : List ℕ) (size : ℕ)
    → Paired tx.state rx.state
    → length plaintext + 16 ≤ size
    → length plaintext + 16 ≤ 65535
    → (ciphertext : List ℕ) × (tx.state.write_message tx.tx_seq plaintext size ≡ some ciphertext)
      × (encrypt tx plaintext size
          ≡ (some (tx.tx_seq, ciphertext), record tx { tx_seq = (tx.tx_seq + 1) % 2 ^ 32 }))
unfolding encrypt
encrypt-some tx rx plaintext size pair fits short =
    let (ciphertext, written, sized) = pair.writes tx.tx_seq plaintext size fits short in
    (ciphertext, written, rw written refl)

-- The other end opens it, if its filter has not seen the number and the window has not passed it.
pub decrypt-encrypt :
    (tx : SessionTx) (rx : SessionRx) (h plaintext ciphertext : List ℕ) (size size' : ℕ)
    → Paired tx.state rx.state
    → Tracks rx.replay_filter h
    → admits h tx.tx_seq ≡ true
    → tx.state.write_message tx.tx_seq plaintext size ≡ some ciphertext
    → length plaintext ≤ size'
    → decrypt rx tx.tx_seq ciphertext size' ≡ (
      opened plaintext,
      record rx { replay_filter = (check_and_mark rx.replay_filter tx.tx_seq).1 },
    )
decrypt-encrypt tx rx h plaintext ciphertext size size' pair t welcome written fits =
    rw
      (
        decrypt-admits rx h tx.tx_seq ciphertext size' t,
        welcome,
        pair.opens tx.tx_seq plaintext ciphertext size size' written fits,
      )
      refl
