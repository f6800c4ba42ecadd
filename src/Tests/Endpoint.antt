-- ===== src/Tests/Endpoint.antt =====
-- An endpoint with toy crates.
use decentis.Prelude.{ℕ, true, List, [], ◌∷◌, some, none, ltb, ◌≡◌, refl}
use decentis.Nat.Stun.{SocketAddr}
use decentis.Transport.Endpoint.{
  Crates, ok, err, bind_failed, Endpoint, generate_dummy_cert, server_config, client_config,
  create_quic_endpoint,
}
use decentis.Transport.Endpoint.Trust.{server_crypto, client}

-- Ports below 1024 cannot be bound.
abbrev crates : ℕ → Crates
crates serial = record {
  PrivateKeyDer = List ℕ;
  generate_simple_self_signed = λ name. some (serial ∷ name, serial ∷ []);
  private_key_der = λ bytes. some bytes;
  has_default_versions = true;
  takes_single_cert = λ chain key. true;
  quic_server_config = λ server. true;
  quic_client_config = λ client. true;
  default_transport = record {
    datagram_receive_buffer_size = some 1_250_000;
    keep_alive_secs = none;
  };
  binds = λ addr. ltb 1023 addr.port;
}

abbrev low : SocketAddr
low = record { port = 80; ip = 0 }

abbrev high : SocketAddr
high = record { port = 51_820; ip = 0 }

refuses-low : create_quic_endpoint (crates 1) low ≡ err bind_failed
unfolding create_quic_endpoint generate_dummy_cert server_config client_config
refuses-low = refl

abbrev endpoint : (serial : ℕ) → Endpoint (crates serial)
endpoint serial = record {
  server_config = record {
    crypto =
        server_crypto (crates serial)
          ((serial ∷ b'd' ∷ b'e' ∷ b'c' ∷ b'e' ∷ b'n' ∷ b't' ∷ b'i' ∷ b's' ∷ b'.' ∷ b'l' ∷ b'o'
              ∷ b'c' ∷ b'a' ∷ b'l' ∷ [])
            ∷ [])
          (serial ∷ []);
    transport = record { datagram_receive_buffer_size = some 1_250_000; keep_alive_secs = none };
  };
  bind_addr = high;
  default_client_config = some (client (crates serial));
}

makes-endpoint : (serial : ℕ) → create_quic_endpoint (crates serial) high ≡ ok (endpoint serial)
unfolding create_quic_endpoint generate_dummy_cert server_config client_config
makes-endpoint serial = refl
