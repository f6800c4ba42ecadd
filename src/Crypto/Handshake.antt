-- ===== src/Crypto/Handshake.antt =====
-- daemon/src/crypto/handshake.rs: the two ends of a Noise_IK handshake. The crate snow, which
-- carries the handshake out, is a parameter; `none` is an error of it.
use Prim.Native.String.{String}
use decentis.Prelude.{ℕ, List, Option, some, none, ◌≡◌, ◌≤◌, length, []}
use decentis.Crypto.Identity.{Keypair}
use decentis.Crypto.Session.{TransportState, Paired}

-- NOISE_PATTERN
abbrev pub noise_pattern : String
noise_pattern = "Noise_IK_25519_ChaChaPoly_BLAKE2s"

-- What the daemon uses of snow. A message is written and read with a buffer of a given size; both
-- give the next state.
pub record Snow : Type 1 where
  pub Builder : Type 0
  pub HandshakeState : Type 0
  pub parse : String → Option Builder
  pub generate_keypair : Builder → Option Keypair
  pub local_private_key : Builder → List ℕ → Option Builder
  pub remote_public_key : Builder → List ℕ → Option Builder
  pub build_initiator : Builder → Option HandshakeState
  pub build_responder : Builder → Option HandshakeState
  pub write_message : HandshakeState → List ℕ → ℕ → Option (List ℕ × HandshakeState)
  pub read_message : HandshakeState → List ℕ → ℕ → Option (List ℕ × HandshakeState)
  pub get_remote_static : HandshakeState → Option (List ℕ)
  pub into_stateless_transport_mode : HandshakeState → Option TransportState

infixl 5 ◌>>=◌
abbrev ◌>>=◌ : {A B : Type 0} → Option A → (A → Option B) → Option B
none >>= k = none
some a >>= k = k a

module _ (snow : Snow) where
  open snow use {Builder, HandshakeState}

  unfoldable pub generate_static_keypair : Option Keypair
  generate_static_keypair = do builder ← snow.parse noise_pattern; snow.generate_keypair builder

  -- The initiator knows the public key of the responder.
  unfoldable pub build_initiator : Keypair → List ℕ → Option HandshakeState
  build_initiator local_keypair remote_pub_key = do
    builder ← snow.parse noise_pattern
    keyed ← snow.local_private_key builder local_keypair.private
    aimed ← snow.remote_public_key keyed remote_pub_key
    snow.build_initiator aimed

  unfoldable pub build_responder : Keypair → Option HandshakeState
  build_responder local_keypair = do
    builder ← snow.parse noise_pattern
    keyed ← snow.local_private_key builder local_keypair.private
    snow.build_responder keyed

  -- What snow promises of an IK handshake between two key pairs, step by step, with buffers of a
  -- given size for a message (the daemon has 1024 bytes): each message is written, read by the
  -- other end, and fits; the responder then knows the initiator's public key, and the two
  -- transports are paired.
  pub record Completes (size : ℕ) (initiator responder : Keypair) : Type 0 where
    pub builder : Builder
    pub parsed : snow.parse noise_pattern ≡ some builder
    pub initiator_keyed : Builder
    pub initiator_key : snow.local_private_key builder initiator.private ≡ some initiator_keyed
    pub aimed : Builder
    pub remote_key : snow.remote_public_key initiator_keyed responder.public ≡ some aimed
    pub i0 : HandshakeState
    pub initiator_built : snow.build_initiator aimed ≡ some i0
    pub responder_keyed : Builder
    pub responder_key : snow.local_private_key builder responder.private ≡ some responder_keyed
    pub r0 : HandshakeState
    pub responder_built : snow.build_responder responder_keyed ≡ some r0
    pub init : List ℕ
    pub i1 : HandshakeState
    pub init_written : snow.write_message i0 [] size ≡ some (init, i1)
    pub init_fits : length init ≤ size
    pub r1 : HandshakeState
    pub init_read : snow.read_message r0 init size ≡ some ([], r1)
    pub resp : List ℕ
    pub r2 : HandshakeState
    pub resp_written : snow.write_message r1 [] size ≡ some (resp, r2)
    pub resp_fits : length resp ≤ size
    pub i2 : HandshakeState
    pub resp_read : snow.read_message i1 resp size ≡ some ([], i2)
    pub key_known : snow.get_remote_static r2 ≡ some initiator.public
    pub initiator_transport : TransportState
    pub initiator_done : snow.into_stateless_transport_mode i2 ≡ some initiator_transport
    pub responder_transport : TransportState
    pub responder_done : snow.into_stateless_transport_mode r2 ≡ some responder_transport
    pub to_responder : Paired initiator_transport responder_transport
    pub to_initiator : Paired responder_transport initiator_transport
