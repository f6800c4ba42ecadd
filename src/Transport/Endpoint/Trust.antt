-- ===== src/Transport/Endpoint/Trust.antt =====
-- The configuration that every endpoint has.
use decentis.Prelude.{ℕ, false, List, [], ◌∷◌, Option, some, none, ◌≡◌, refl, arith}
use decentis.Nat.Stun.{SocketAddr}
use decentis.Transport.Endpoint.{
  skip_server_verification, ServerCrypto, ClientCrypto, Crates, EndpointResult, ok, err, local_name,
  mesh_protocol, ClientConfig, Endpoint, generate_dummy_cert, server_config, client_config,
  create_quic_endpoint,
}

module _ (crates : Crates) where
  abbrev pub server_crypto :
      List (List ℕ) → crates.PrivateKeyDer → ServerCrypto crates.PrivateKeyDer
  server_crypto chain key = record {
    asks_client_auth = false;
    cert_chain = chain;
    key = key;
    alpn_protocols = mesh_protocol ∷ [];
  }

  abbrev pub client_crypto : ClientCrypto
  client_crypto = record {
    verifier = skip_server_verification;
    has_client_auth = false;
    alpn_protocols = mesh_protocol ∷ [];
  }

  abbrev pub client : ClientConfig crates
  client = record {
    crypto = client_crypto;
    transport = record crates.default_transport {
      datagram_receive_buffer_size = some 65536;
      keep_alive_secs = some 10;
    };
  }

  -- The configuration of an endpoint, up to its certificate and key: whoever is dialed, the verifier
  -- of the dialing end accepts it, and nobody is asked for a certificate.
  pub record Made (e : Endpoint crates) : Type 0 where
    pub cert_der : List ℕ
    pub key : crates.PrivateKeyDer
    pub server_made : e.server_config.crypto ≡ server_crypto (cert_der ∷ []) key
    pub client_made : e.default_client_config ≡ some client

  generate_dummy_cert-single :
      (chain : List (List ℕ)) (key : crates.PrivateKeyDer)
      → generate_dummy_cert crates ≡ ok (chain, key)
      → (cert_der : List ℕ) × (chain ≡ cert_der ∷ [])
  unfolding generate_dummy_cert
  generate_dummy_cert-single chain key e =
      by_cert (crates.generate_simple_self_signed local_name) refl
    where
      by_cert :
          (o : Option (List ℕ × List ℕ))
          → crates.generate_simple_self_signed local_name ≡ o
          → (cert_der : List ℕ) × (chain ≡ cert_der ∷ [])
      by_cert none lost = absurd (ground (arith, e, lost))
      by_cert (some (cert_der, key_bytes)) got = (cert_der, ground (arith, e, got))

  -- Every endpoint is made so; who is at the other end, only the Noise handshake tells.
  create_quic_endpoint-Made :
      (bind_addr : SocketAddr) {e : Endpoint crates}
      → create_quic_endpoint crates bind_addr ≡ ok e
      → Made e
  unfolding create_quic_endpoint server_config client_config
  create_quic_endpoint-Made bind_addr {e} made = by_cert (generate_dummy_cert crates) refl
    where
      by_cert :
          (g : EndpointResult (List (List ℕ) × crates.PrivateKeyDer))
          → generate_dummy_cert crates ≡ g
          → Made e
      by_cert (err x) lost = absurd (ground (arith, made, lost))
      by_cert (ok (chain, key)) got =
          let (cert_der, single) = generate_dummy_cert-single chain key got in
          record {
            cert_der = cert_der;
            key = key;
            server_made = ground (arith, made, got, single);
            client_made = ground (arith, made, got);
          }
