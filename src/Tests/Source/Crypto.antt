-- ===== src/Tests/Source/Crypto.antt =====
-- The test modules of daemon/src/crypto/replay.rs and daemon/src/crypto/handshake.rs.
use decentis.Prelude.{ℕ, Bool, true, not, ◌&&◌, List, [], ◌∷◌, Option, some, none, ◌≡◌, refl, arith}
use decentis.Crypto.Replay
use decentis.Crypto.Replay.{check_and_mark, advance, mark_old}
use decentis.Crypto.Identity.{Keypair}
use decentis.Crypto.Handshake.{Snow, build_initiator, build_responder, Completes}
use decentis.Daemon.{same}

abbrev test_in_order : Bool
test_in_order =
    let (first, f1) = check_and_mark Replay.new 1 in
    let (second, f2) = check_and_mark f1 2 in
    let (third, f3) = check_and_mark f2 3 in first && (second && third)

abbrev test_duplicate_rejection : Bool
test_duplicate_rejection =
    let (first, f1) = check_and_mark Replay.new 10 in
    let (second, f2) = check_and_mark f1 10 in first && not second

abbrev test_out_of_order_acceptance : Bool
test_out_of_order_acceptance =
    let (first, f1) = check_and_mark Replay.new 10 in
    let (second, f2) = check_and_mark f1 8 in
    let (third, f3) = check_and_mark f2 8 in first && (second && not third)

abbrev test_too_old_rejection : Bool
test_too_old_rejection =
    let (first, f1) = check_and_mark Replay.new 200 in
    let (second, f2) = check_and_mark f1 50 in first && not second

replay_tests-succeed :
    (test_in_order ≡ true)
    × (test_duplicate_rejection ≡ true)
    × (test_out_of_order_acceptance ≡ true)
    × (test_too_old_rejection ≡ true)
unfolding Replay.new check_and_mark
replay_tests-succeed = (refl, refl, refl, refl)

infixl 5 ◌>>=◌
abbrev ◌>>=◌ : {A B : Type 0} → Option A → (A → Option B) → Option B
none >>= k = none
some a >>= k = k a

-- b"Decentis Zero-Trust Payload"
abbrev secret_msg : List ℕ
secret_msg =
    b'D' ∷ b'e' ∷ b'c' ∷ b'e' ∷ b'n' ∷ b't' ∷ b'i' ∷ b's' ∷ b' ' ∷ b'Z' ∷ b'e' ∷ b'r' ∷ b'o' ∷ b'-'
    ∷ b'T' ∷ b'r' ∷ b'u' ∷ b's' ∷ b't' ∷ b' ' ∷ b'P' ∷ b'a' ∷ b'y' ∷ b'l' ∷ b'o' ∷ b'a' ∷ b'd' ∷ []

module _ (snow : Snow) (key_a key_b : Keypair) where
  -- The two key pairs are what `generate_static_keypair` gives; `none` is an error on the way.
  test_noise_ik_handshake : Option Bool
  test_noise_ik_handshake = do
    initiator ← build_initiator snow key_a key_b.public
    responder ← build_responder snow key_b
    (message_1, initiator_1) ← snow.write_message initiator [] 65535
    (payload_1, responder_1) ← snow.read_message responder message_1 65535
    (message_2, responder_2) ← snow.write_message responder_1 [] 65535
    (payload_2, initiator_2) ← snow.read_message initiator_1 message_2 65535
    transport_a ← snow.into_stateless_transport_mode initiator_2
    transport_b ← snow.into_stateless_transport_mode responder_2
    ciphertext ← transport_a.write_message 0 secret_msg 65535
    plaintext ← transport_b.read_message 0 ciphertext 65535
    some (same plaintext secret_msg)

  test_noise_ik_handshake-succeeds :
      Completes snow 65535 key_a key_b → test_noise_ik_handshake ≡ some true
  unfolding test_noise_ik_handshake build_initiator build_responder
  test_noise_ik_handshake-succeeds c =
      let (ciphertext, written, long) =
        c.to_responder.writes 0 secret_msg 65535 (omega arith) (omega arith) in
      let opened = c.to_responder.opens 0 secret_msg ciphertext 65535 65535 written (omega arith) in
      rw
        (
          c.parsed, c.initiator_key, c.remote_key, c.initiator_built, c.responder_key,
          c.responder_built, c.init_written, c.init_read, c.resp_written, c.resp_read,
          c.initiator_done, c.responder_done, written, opened,
        )
        refl
