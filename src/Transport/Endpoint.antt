-- ===== src/Transport/Endpoint.antt =====
-- daemon/src/transport/endpoint.rs: the QUIC endpoint, which dials and accepts, with a certificate
-- made up at the start. The crates rcgen, rustls and quinn are parameters: `Crates` has their calls
-- that can fail, and the settings that are left at their defaults.
pub mod Trust
use decentis.Prelude.{ℕ, Bool, true, false, List, [], ◌∷◌, Option, some, none}
use decentis.Nat.Stun.{SocketAddr}

pub data SignatureScheme : Type 0 where
  ecdsa_nistp256_sha256 ecdsa_nistp384_sha384 ecdsa_nistp521_sha512 ed25519 : SignatureScheme
  rsa_pss_sha256 rsa_pss_sha384 rsa_pss_sha512 : SignatureScheme
  other : ℕ → SignatureScheme

-- The trait of rustls: `true` is the assertion that something is verified.
pub record ServerCertVerifier : Type 0 where
  -- the certificate, those above it, the name of the server, the answer of OCSP, and the time
  pub verify_server_cert : List ℕ → List (List ℕ) → List ℕ → List ℕ → ℕ → Bool
  -- the message, the certificate, and the scheme and bytes of the signature
  pub verify_tls12_signature : List ℕ → List ℕ → SignatureScheme → List ℕ → Bool
  pub verify_tls13_signature : List ℕ → List ℕ → SignatureScheme → List ℕ → Bool
  pub supported_verify_schemes : List SignatureScheme

unfoldable pub skip_server_verification : ServerCertVerifier
skip_server_verification = record {
  verify_server_cert = λ end_entity intermediates server_name ocsp_response now. true;
  verify_tls12_signature = λ message cert scheme signature. true;
  verify_tls13_signature = λ message cert scheme signature. true;
  supported_verify_schemes =
      ecdsa_nistp256_sha256 ∷ ecdsa_nistp384_sha384 ∷ ecdsa_nistp521_sha512 ∷ ed25519
      ∷ rsa_pss_sha256 ∷ rsa_pss_sha384 ∷ rsa_pss_sha512 ∷ [];
}

-- The settings of a connection that the daemon changes; `none` as an interval: no packet is sent to
-- keep it alive.
pub record TransportConfig : Type 0 where
  pub datagram_receive_buffer_size : Option ℕ
  pub keep_alive_secs : Option ℕ

-- `rustls::ServerConfig` and `rustls::ClientConfig`, as far as the daemon sets them.
pub record ServerCrypto (PrivateKeyDer : Type 0) : Type 0 where
  pub asks_client_auth : Bool
  pub cert_chain : List (List ℕ)
  pub key : PrivateKeyDer
  pub alpn_protocols : List (List ℕ)

pub record ClientCrypto : Type 0 where
  pub verifier : ServerCertVerifier
  pub has_client_auth : Bool
  pub alpn_protocols : List (List ℕ)

pub record Crates : Type 1 where
  pub PrivateKeyDer : Type 0
  -- the bytes of a new certificate for a name, and of its key
  pub generate_simple_self_signed : List ℕ → Option (List ℕ × List ℕ)
  pub private_key_der : List ℕ → Option PrivateKeyDer
  -- whether the provider has what the protocol versions of the default need
  pub has_default_versions : Bool
  pub takes_single_cert : List (List ℕ) → PrivateKeyDer → Bool
  pub quic_server_config : ServerCrypto PrivateKeyDer → Bool
  pub quic_client_config : ClientCrypto → Bool
  pub default_transport : TransportConfig
  pub binds : SocketAddr → Bool

pub data EndpointError : Type 0 where
  cert_failed invalid_key versions_failed single_cert_failed quic_server_failed : EndpointError
  quic_client_failed bind_failed : EndpointError

pub data EndpointResult (A : Type 0) : Type 0 where
  ok : A → EndpointResult A
  err : EndpointError → EndpointResult A

infixl 5 ◌>>=◌ ◌>>◌
abbrev pub ◌>>=◌ : {A B : Type 0} → EndpointResult A → (A → EndpointResult B) → EndpointResult B
ok a >>= k = k a
err e >>= k = err e

abbrev pub ◌>>◌ : {B : Type 0} → EndpointResult (Unit {0}) → EndpointResult B → EndpointResult B
m >> k = m >>= λ _. k

abbrev pub or_err : {A : Type 0} → Option A → EndpointError → EndpointResult A
or_err none e = err e
or_err (some a) e = ok a

abbrev pub guard : Bool → EndpointError → EndpointResult (Unit {0})
guard true e = ok tt
guard false e = err e

-- "decentis.local"
abbrev pub local_name : List ℕ
local_name =
    b'd' ∷ b'e' ∷ b'c' ∷ b'e' ∷ b'n' ∷ b't' ∷ b'i' ∷ b's' ∷ b'.' ∷ b'l' ∷ b'o' ∷ b'c' ∷ b'a' ∷ b'l'
    ∷ []

-- b"decentis-mesh"
abbrev pub mesh_protocol : List ℕ
mesh_protocol =
    b'd' ∷ b'e' ∷ b'c' ∷ b'e' ∷ b'n' ∷ b't' ∷ b'i' ∷ b's' ∷ b'-' ∷ b'm' ∷ b'e' ∷ b's' ∷ b'h' ∷ []

module _ (crates : Crates) where
  open crates use {PrivateKeyDer}

  pub record ServerConfig : Type 0 where
    pub crypto : ServerCrypto PrivateKeyDer
    pub transport : TransportConfig

  pub record ClientConfig : Type 0 where
    pub crypto : ClientCrypto
    pub transport : TransportConfig

  pub record Endpoint : Type 0 where
    pub server_config : ServerConfig
    pub bind_addr : SocketAddr
    pub default_client_config : Option ClientConfig

  unfoldable pub generate_dummy_cert : EndpointResult (List (List ℕ) × PrivateKeyDer)
  generate_dummy_cert = do
    (cert_der, key_bytes) ← or_err (crates.generate_simple_self_signed local_name) cert_failed
    key_der ← or_err (crates.private_key_der key_bytes) invalid_key
    ok (cert_der ∷ [], key_der)

  -- The configuration for connections that come in.
  unfoldable pub server_config : List (List ℕ) → PrivateKeyDer → EndpointResult ServerConfig
  server_config cert_chain key = do
    guard crates.has_default_versions versions_failed
    guard (crates.takes_single_cert cert_chain key) single_cert_failed
    let server_crypto : ServerCrypto PrivateKeyDer = record {
      asks_client_auth = false;
      cert_chain = cert_chain;
      key = key;
      alpn_protocols = mesh_protocol ∷ [];
    }
    guard (crates.quic_server_config server_crypto) quic_server_failed
    ok (record { crypto = server_crypto; transport = crates.default_transport })

  -- The configuration for connections that go out.
  unfoldable pub client_config : EndpointResult ClientConfig
  client_config = do
    guard crates.has_default_versions versions_failed
    let client_crypto : ClientCrypto = record {
      verifier = skip_server_verification;
      has_client_auth = false;
      alpn_protocols = mesh_protocol ∷ [];
    }
    guard (crates.quic_client_config client_crypto) quic_client_failed
    ok (record {
      crypto = client_crypto;
      transport = record crates.default_transport {
        datagram_receive_buffer_size = some 65536;
        keep_alive_secs = some 10;
      };
    })

  unfoldable pub create_quic_endpoint : SocketAddr → EndpointResult Endpoint
  create_quic_endpoint bind_addr = do
    (cert_chain, key) ← generate_dummy_cert
    server ← server_config cert_chain key
    client ← client_config
    guard (crates.binds bind_addr) bind_failed
    ok (record {
      server_config = server;
      bind_addr = bind_addr;
      default_client_config = some client;
    })
