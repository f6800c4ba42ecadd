-- ===== src/Tests/Datagram.antt =====
-- The bridge of daemon/src/transport/datagram.rs with a toy cipher over a link with losses.
use decentis.Transport.Frame.{encode, decode}
use decentis.Crypto.Replay
use decentis.Crypto.Replay.{check_and_mark}
use decentis.Crypto.Replay.Window.{AllNew}
use decentis.Daemon.{same}
use decentis.Transport.Datagram.{l3_header, QuicRead, datagram}
use decentis.Transport.Datagram.Adversary.{IsAuthentic, Picks, rx_task-Picks}
use decentis.Prelude.{
  ℕ, zero, suc, Bool, get_elem?, inl, inr, refl, ◌+◌, true, false, List, [], ◌∷◌, ◌++◌, Option,
  some, none, length, drop, leb, if◌then◌else◌, ◌≡◌, arith,
}
use decentis.Crypto.Session.{TransportState, Paired, encrypt, decrypt, split_session}
use decentis.Transport.Datagram.{tx_task, rx_task}
use decentis.Transport.Datagram.Bridge.{from_tun, from_link, survivors, rx_task-tx_task}

-- A cipher that prepends a tag of sixteen zeros; it opens what has that tag.
abbrev tag : List ℕ
tag = 0 ∷ 0 ∷ 0 ∷ 0 ∷ 0 ∷ 0 ∷ 0 ∷ 0 ∷ 0 ∷ 0 ∷ 0 ∷ 0 ∷ 0 ∷ 0 ∷ 0 ∷ 0 ∷ []

abbrev seal : ℕ → List ℕ → ℕ → Option (List ℕ)
seal nonce plaintext size =
    if leb (length plaintext + 16) size then some (tag ++ plaintext) else none

abbrev unseal : ℕ → List ℕ → ℕ → Option (List ℕ)
unseal nonce ciphertext size =
    if leb (length (drop 16 ciphertext)) size then some (drop 16 ciphertext) else none

abbrev pub toy : TransportState
toy = record { write_message = seal; read_message = unseal }

pub toy-Paired : Paired toy toy
toy-Paired = record {
  writes = λ nonce plaintext size fits short. (tag ++ plaintext, ground arith, omega arith);
  opens = λ nonce plaintext ciphertext size size' written fits. ground arith;
}

abbrev packets : List (List ℕ)
packets = (1 ∷ []) ∷ (2 ∷ 2 ∷ []) ∷ [] ∷ []

abbrev all_taken : List (List ℕ) → List (List ℕ × Bool)
all_taken [] = []
all_taken (p ∷ ps) = (p, true) ∷ all_taken ps

rx_task-tx_task_example :
    rx_task (split_session toy).1 (
      from_link (
        survivors
          (false ∷ true ∷ [])
          (tx_task (split_session toy).0 (from_tun (all_taken packets)))))
    ≡ (1 ∷ []) ∷ [] ∷ []
rx_task-tx_task_example =
    rx_task-tx_task toy toy (all_taken packets) (false ∷ true ∷ []) toy-Paired (omega arith)
      (omega arith, (omega arith, (omega arith, tt)))

-- A reader that knows what the sender will encrypt, and opens nothing else.
abbrev unseal_known : ℕ → List ℕ → ℕ → Option (List ℕ)
unseal_known nonce ciphertext size = elim (get_elem? packets nonce) [
  | none ↦ none
  | some p ↦ if same ciphertext (tag ++ p) then some p else none
]

abbrev strict : TransportState
strict = record { write_message = seal; read_message = unseal_known }

strict-IsAuthentic : IsAuthentic strict (split_session strict).0 (from_tun (all_taken packets))
unfolding split_session encrypt
strict-IsAuthentic zero ciphertext size p e = inl (refl, ground arith)
strict-IsAuthentic (suc zero) ciphertext size p e = inr (inl (omega arith, ground arith))
strict-IsAuthentic (suc (suc zero)) ciphertext size p e =
    inr (inr (inl (omega arith, ground arith)))
strict-IsAuthentic (suc (suc (suc n))) ciphertext size p e = absurd (ground arith)

-- The second packet comes first, then twice the first, a forgery under the third number, and noise.
abbrev arrivals : List (QuicRead × Bool)
arrivals =
    (datagram (encode (l3_header 1) [] ++ (tag ++ (2 ∷ 2 ∷ []))), true)
    ∷ (datagram (encode (l3_header 0) [] ++ (tag ++ (1 ∷ []))), true)
    ∷ (datagram (encode (l3_header 0) [] ++ (tag ++ (1 ∷ []))), true)
    ∷ (datagram (encode (l3_header 2) [] ++ (tag ++ (9 ∷ []))), true)
    ∷ (datagram (7 ∷ 7 ∷ []), true)
    ∷ []

injects-once : rx_task (split_session strict).1 arrivals ≡ (2 ∷ 2 ∷ []) ∷ (1 ∷ []) ∷ []
unfolding rx_task split_session encode decode decrypt check_and_mark Replay.new
injects-once = refl

rx_task-Picks_example :
    (is : List ℕ) × AllNew [] is × Picks packets is (rx_task (split_session strict).1 arrivals)
rx_task-Picks_example =
    rx_task-Picks strict strict (from_tun (all_taken packets)) arrivals strict-IsAuthentic
      (omega arith)
