-- ===== src/Crypto/Session.antt =====
-- daemon/src/crypto/session.rs: the sending and the receiving half of an encrypted session. The
-- cipher state is the crate snow's, a parameter; the lock round it makes each call one step.
pub mod Nonces
pub mod Once
pub mod Deliver
use decentis.Prelude.{ℕ, ◌+◌, ◌%◌, ◌^◌, ◌≤◌, List, Option, some, none, length, ◌≡◌}
use decentis.Crypto.Replay
use decentis.Crypto.Replay.{ReplayFilter, check_and_mark}
use mathlib.Core.Bool.{Bool, true, false}

-- `StatelessTransportState`: nonce, input and size of the output buffer; `none` is an error.
pub record TransportState : Type 0 where
  pub write_message : ℕ → List ℕ → ℕ → Option (List ℕ)
  pub read_message : ℕ → List ℕ → ℕ → Option (List ℕ)

-- What snow documents of the two ends of a handshake: a message that fits its buffer and the limit
-- of 65535 bytes with the tag of 16 bytes is written, and the other end opens it under the same nonce.
pub record Paired (writer reader : TransportState) : Type 0 where
  pub writes :
      (nonce : ℕ) (plaintext : List ℕ) (size : ℕ)
      → length plaintext + 16 ≤ size
      → length plaintext + 16 ≤ 65535
      → (ciphertext : List ℕ) × (writer.write_message nonce plaintext size ≡ some ciphertext)
        × (length ciphertext ≡ length plaintext + 16)
  pub opens :
      (nonce : ℕ) (plaintext ciphertext : List ℕ) (size size' : ℕ)
      → writer.write_message nonce plaintext size ≡ some ciphertext
      → length plaintext ≤ size'
      → reader.read_message nonce ciphertext size' ≡ some plaintext

pub record SessionTx : Type 0 where
  pub state : TransportState
  pub tx_seq : ℕ

-- The counter moves on, and wraps, whether or not the encryption succeeds.
unfoldable pub encrypt : SessionTx → List ℕ → ℕ → Option (ℕ × List ℕ) × SessionTx
encrypt tx plaintext size =
    let seq = tx.tx_seq in
    let tx' : SessionTx = record tx { tx_seq = (seq + 1) % 2 ^ 32 } in
    (
      elim (tx.state.write_message seq plaintext size) [
        | none ↦ none
        | some ciphertext ↦ some (seq, ciphertext)
      ],
      tx',
    )

pub record SessionRx : Type 0 where
  pub state : TransportState
  pub replay_filter : ReplayFilter

pub data DecryptResult : Type 0 where
  replay_dropped decryption_failed : DecryptResult
  opened : List ℕ → DecryptResult

abbrev pub open_result : Option (List ℕ) → DecryptResult
open_result none = decryption_failed
open_result (some plaintext) = opened plaintext

-- The filter is asked, and marks the number, before the cipher is.
unfoldable pub decrypt : SessionRx → ℕ → List ℕ → ℕ → DecryptResult × SessionRx
decrypt rx seq ciphertext size =
    let (fresh, filter) = check_and_mark rx.replay_filter seq in
    let rx' : SessionRx = record rx { replay_filter = filter } in
    elim fresh [
      | false ↦ (replay_dropped, rx')
      | true ↦ (open_result (rx.state.read_message seq ciphertext size), rx')
    ]

unfoldable pub split_session : TransportState → SessionTx × SessionRx
split_session transport = (
  record { state = transport; tx_seq = 0 },
  record { state = transport; replay_filter = Replay.new },
)
