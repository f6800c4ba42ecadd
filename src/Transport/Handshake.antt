-- ===== src/Transport/Handshake.antt =====
-- daemon/src/transport/handshake.rs: a Noise handshake over a bidirectional QUIC stream. Each end
-- reads once, whatever that read gives. `Stream` is what the connection does: whether the stream
-- opens, takes the bytes written to it, and can be finished.
pub mod Complete
use decentis.Prelude.{ℕ, Bool, true, false, List, [], Option, some, none, take}
use decentis.Crypto.Identity.{Keypair}
use decentis.Crypto.Session.{SessionTx, SessionRx, split_session}
use decentis.Crypto.Handshake
use decentis.Crypto.Handshake.{Snow, build_initiator, build_responder}

pub record Stream : Type 0 where
  pub opens : Bool
  pub takes : Bool
  pub finishes : Bool

-- What one `read` gives.
pub data Arrival : Type 0 where
  piece : List ℕ → Arrival
  closed broken : Arrival

pub data HandshakeError : Type 0 where
  stream_failed build_failed write_failed send_failed premature_close receive_failed rejected :
      HandshakeError
  no_remote_key not_finished finish_failed : HandshakeError

pub data Result (A : Type 0) : Type 0 where
  ok : A → Result A
  err : HandshakeError → Result A

infixl 5 ◌>>=◌ ◌>>◌
abbrev pub ◌>>=◌ : {A B : Type 0} → Result A → (A → Result B) → Result B
ok a >>= k = k a
err e >>= k = err e

abbrev pub ◌>>◌ : {B : Type 0} → Result (Unit {0}) → Result B → Result B
m >> k = m >>= λ _. k

abbrev pub guard : Bool → HandshakeError → Result (Unit {0})
guard true e = ok tt
guard false e = err e

abbrev pub or_fail : {A : Type 0} → Option A → HandshakeError → Result A
or_fail none e = err e
or_fail (some a) e = ok a

-- A `read` into a buffer of 1024 bytes.
abbrev pub received : Arrival → Result (List ℕ)
received (piece bytes) = ok (take 1024 bytes)
received closed = err premature_close
received broken = err receive_failed

module _ (snow : Snow) where
  open snow use {HandshakeState}

  -- `reply` is what comes back after the first message has been sent.
  unfoldable pub initiate_noise_handshake :
      Stream → (List ℕ → Arrival) → Keypair → List ℕ → Result (SessionTx × SessionRx)
  initiate_noise_handshake stream reply local_key remote_pub = do
    guard stream.opens stream_failed
    initiator ← or_fail (build_initiator snow local_key remote_pub) build_failed
    (init, sent) ← or_fail (snow.write_message initiator [] 1024) write_failed
    guard stream.takes send_failed
    resp ← received (reply init)
    (payload, complete) ← or_fail (snow.read_message sent resp 1024) rejected
    transport ← or_fail (snow.into_stateless_transport_mode complete) not_finished
    guard stream.finishes finish_failed
    ok (split_session transport)

  -- The responder up to its reply, which goes out before anything else can fail.
  unfoldable pub respond_reply : Stream → Arrival → Keypair → Result (List ℕ × HandshakeState)
  respond_reply stream arrival local_key = do
    guard stream.opens stream_failed
    responder ← or_fail (build_responder snow local_key) build_failed
    init ← received arrival
    (payload, knowing) ← or_fail (snow.read_message responder init 1024) rejected
    (resp, complete) ← or_fail (snow.write_message knowing [] 1024) write_failed
    guard stream.takes send_failed
    ok (resp, complete)

  -- The session, and the key that the initiator has proved.
  unfoldable pub respond_noise_handshake :
      Stream → Arrival → Keypair → Result (SessionTx × SessionRx × List ℕ)
  respond_noise_handshake stream arrival local_key = do
    (resp, complete) ← respond_reply stream arrival local_key
    remote_public_key ← or_fail (snow.get_remote_static complete) no_remote_key
    transport ← or_fail (snow.into_stateless_transport_mode complete) not_finished
    guard stream.finishes finish_failed
    let (tx, rx) = split_session transport
    ok (tx, rx, remote_public_key)
