-- ===== src/Crypto/Session/Nonces.antt =====
-- The nonces of a session: all different for 2 ^ 32 messages, and then used again.
use decentis.Prelude.{ℕ, ◌+◌, ◌%◌, ◌^◌, ◌<◌, List, [], ◌∷◌, length, ◌≡◌, ◌↔◌, arith}
use decentis.Crypto.Session.{TransportState, SessionTx, encrypt, split_session}

-- The state after encrypting the messages, each into a buffer of its own size.
pub after : SessionTx → List (List ℕ × ℕ) → SessionTx
after tx [] = tx
after tx ((plaintext, size) ∷ rest) = after (encrypt tx plaintext size).1 rest

tx_seq-after :
    (tx : SessionTx) (messages : List (List ℕ × ℕ))
    → tx.tx_seq < 2 ^ 32
    → (after tx messages).tx_seq ≡ (tx.tx_seq + length messages) % 2 ^ 32
unfolding after encrypt
tx_seq-after tx [] h = omega arith
tx_seq-after tx ((plaintext, size) ∷ rest) h =
    omega (arith, tx_seq-after (encrypt tx plaintext size).1 rest (omega arith))

-- The nonce under which a new session encrypts the message that follows `sent`.
abbrev pub nonce_after : TransportState → List (List ℕ × ℕ) → ℕ
nonce_after transport sent = (after (split_session transport).0 sent).tx_seq

-- Two messages of a session are encrypted under the same nonce exactly if the numbers of messages
-- before them are equal modulo 2 ^ 32, failed encryptions counted.
pub nonce_after-eq_iff :
    (transport : TransportState) (sent1 sent2 : List (List ℕ × ℕ))
    → (nonce_after transport sent1 ≡ nonce_after transport sent2)
      ↔ (length sent1 % 2 ^ 32 ≡ length sent2 % 2 ^ 32)
unfolding split_session
nonce_after-eq_iff transport sent1 sent2 =
    (λ e. omega (arith, e, first, second), λ e. omega (arith, e, first, second))
  where
    first : nonce_after transport sent1 ≡ (0 + length sent1) % 2 ^ 32
    first = tx_seq-after (split_session transport).0 sent1 (omega arith)

    second : nonce_after transport sent2 ≡ (0 + length sent2) % 2 ^ 32
    second = tx_seq-after (split_session transport).0 sent2 (omega arith)
