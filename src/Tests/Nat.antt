-- ===== src/Tests/Nat.antt =====
-- The STUN answer and the probes of daemon/src/nat at concrete inputs.
use decentis.Prelude.{
  ℕ, ◌+◌, ◌≤◌, true, List, [], ◌∷◌, ◌++◌, some, length, replicate, leb, ◌≡◌, ◌↔◌, refl, arith,
}
use decentis.Nat.Punch.{fire_prediction_probes}
use decentis.Nat.Punch.Window.{contains, fire_prediction_probes_window}
use decentis.Nat.Stun.{
  SocketAddr, StunResult, ok, panicked, parse_response, StunAnswers, datagram, discover_public_ip,
}
use decentis.Nat.Stun.Parse.{Attribute, attributes_bytes, answer, parse_response-answer}
use decentis.Nat.Stun.Ends.{parse_response-truncated, discover_public_ip_total}

abbrev header : List ℕ
header = replicate 18 0

abbrev attributes : List Attribute
attributes = record { kind = 0x8022; value = 1 ∷ 2 ∷ 3 ∷ [] } ∷ []

abbrev address : SocketAddr
address = record { port = 4500; ip = 3_405_803_786 }

parse_response-answer_example :
    parse_response 2 (some (answer header attributes address (9 ∷ []))) ≡ some (ok address)
parse_response-answer_example =
    parse_response-answer 2 header attributes address (9 ∷ []) refl
      ((omega arith, ground arith, omega arith), tt) (omega arith, omega arith) (omega arith)

parse_response-truncated_example :
    parse_response 2 (
      some
        (1 ∷ 1 ∷ (header ++ (attributes_bytes attributes ++ (0 ∷ 0x20 ∷ 0 ∷ 8 ∷ 0 ∷ 1 ∷ 5 ∷ [])))))
    ≡ some panicked
parse_response-truncated_example =
    parse_response-truncated 2 header attributes 0 8 (0 ∷ 1 ∷ 5 ∷ []) refl
      ((omega arith, ground arith, omega arith), tt) (refl, omega arith) (omega arith)

-- The answer is an attribute of another kind.
abbrev answers_other : StunAnswers
answers_other = record {
  bound = true;
  connected = true;
  sends = true;
  transaction_id = [];
  arrives = datagram (1 ∷ 1 ∷ (header ++ (0 ∷ 1 ∷ 0 ∷ 0 ∷ [])));
}

discover_public_ip_total_example :
    (result : StunResult SocketAddr) × ((discover_public_ip answers_other).0 ≡ some result)
    × (result ≡ panicked → (bytes : List ℕ) × (answers_other.arrives ≡ datagram bytes))
discover_public_ip_total_example = discover_public_ip_total answers_other

fire_prediction_probes_window_example :
    (ports : List ℕ) × (fired : ℕ) × (fire_prediction_probes true (leb 1100) 1050
      ≡ some (ports, fired))
    × ((port : ℕ)
        → (contains ports port ≡ true)
          ↔ ((1050 ≤ port + 64) × (port ≤ 1050 + 63) × (1024 ≤ port) × (port ≤ 65535)))
    × (length ports ≤ 128)
    × (fired ≤ length ports)
fire_prediction_probes_window_example = fire_prediction_probes_window (leb 1100) 1050 (omega arith)
