-- ===== src/Tests/Link.antt =====
-- Two nodes that meet, with a toy of the crate snow, whose messages carry the keys in the clear.
use decentis.Prelude.{
  ℕ, Bool, true, false, List, [], ◌∷◌, Option, some, none, replicate, ◌==◌, if◌then◌else◌, ◌≡◌, inr,
  refl, arith,
}
use decentis.Crypto.Identity.{Keypair, Ipv4Addr, derive_virtual_ip}
use decentis.Crypto.Identity.Text.{ip_to_string}
use decentis.Crypto.Session.{SessionTx, SessionRx}
use decentis.Crypto.Handshake.{Snow, Completes}
use decentis.Transport.Handshake.{ok}
use decentis.Transport.Datagram.{tx_task, rx_task}
use decentis.Transport.Datagram.Bridge.{from_tun, from_link, survivors}
use decentis.Daemon.{get, established, dial_failed, dial_ok, on_incoming, on_rendezvous, Answers}
use decentis.Nat.Signaling.{PeerFound}
use decentis.Daemon.Link.{proved_key, succeeded, initiated, responded, connect_nodes}
use decentis.Tests.Datagram.{toy, toy-Paired}
use decentis.Tests.Daemon.{plain}

-- A state is a stage and a key.
abbrev pub State : Type 0
State = ℕ × List ℕ

abbrev pub write : State → List ℕ → ℕ → Option (List ℕ × State)
write (stage, key) payload size =
    if stage == 0 then some (key, (1, key)) else some (7 ∷ [], (4, key))

abbrev pub read : State → List ℕ → ℕ → Option (List ℕ × State)
read (stage, key) message size = if stage == 2 then some ([], (3, message)) else some ([], (5, key))

abbrev pub toy_snow : Snow
toy_snow = record {
  Builder = List ℕ;
  HandshakeState = State;
  parse = λ pattern. some [];
  generate_keypair = λ builder. none;
  local_private_key = λ builder key. some key;
  remote_public_key = λ builder key. some builder;
  build_initiator = λ builder. some (0, builder);
  build_responder = λ builder. some (2, []);
  write_message = write;
  read_message = read;
  get_remote_static = λ s. some s.1;
  into_stateless_transport_mode = λ s. some toy;
}

abbrev dialer : Keypair
dialer = record { public = 5 ∷ 6 ∷ []; private = 5 ∷ 6 ∷ [] }

abbrev pub listener : Keypair
listener = record { public = 8 ∷ 9 ∷ []; private = 8 ∷ 9 ∷ [] }

abbrev toy-Completes : Completes toy_snow 1024 dialer listener
toy-Completes = record {
  builder = [];
  parsed = refl;
  initiator_keyed = 5 ∷ 6 ∷ [];
  initiator_key = refl;
  aimed = 5 ∷ 6 ∷ [];
  remote_key = refl;
  i0 = (0, 5 ∷ 6 ∷ []);
  initiator_built = refl;
  responder_keyed = 8 ∷ 9 ∷ [];
  responder_key = refl;
  r0 = (2, []);
  responder_built = refl;
  init = 5 ∷ 6 ∷ [];
  i1 = (1, 5 ∷ 6 ∷ []);
  init_written = refl;
  init_fits = omega arith;
  r1 = (3, 5 ∷ 6 ∷ []);
  init_read = refl;
  resp = 7 ∷ [];
  r2 = (4, 5 ∷ 6 ∷ []);
  resp_written = refl;
  resp_fits = omega arith;
  i2 = (5, 5 ∷ 6 ∷ []);
  resp_read = refl;
  key_known = refl;
  initiator_transport = toy;
  initiator_done = refl;
  responder_transport = toy;
  responder_done = refl;
  to_responder = toy-Paired;
  to_initiator = toy-Paired;
}

abbrev seen : PeerFound
seen = record { target_node_id = 8 ∷ 9 ∷ []; public_ip = []; public_port = 51_820; local_ip = [] }

abbrev calm : Answers
calm = record {
  via_lan = dial_failed;
  via_public = dial_ok 3;
  handshake = succeeded (initiated plain toy_snow dialer listener toy-Completes);
}

abbrev vip_dialer : Ipv4Addr
vip_dialer = record { a = 10; b = 99; c = 5; d = 6 }

abbrev vip_listener : Ipv4Addr
vip_listener = record { a = 10; b = 99; c = 8; d = 9 }

derives-dialer : derive_virtual_ip dialer.public ≡ some vip_dialer
unfolding derive_virtual_ip
derives-dialer = refl

derives-listener : derive_virtual_ip listener.public ≡ some vip_listener
unfolding derive_virtual_ip
derives-listener = refl

abbrev packets : List (List ℕ)
packets = (1 ∷ 2 ∷ []) ∷ (3 ∷ []) ∷ []

-- The third one is too large for the path.
abbrev sent : List (List ℕ × Bool)
sent = (1 ∷ 2 ∷ [], true) ∷ (3 ∷ [], true) ∷ (replicate 1500 7, false) ∷ []

abbrev lost : List Bool
lost = true ∷ []

connect_nodes_example :
    let at_i = on_rendezvous plain (some (8 ∷ 9 ∷ [])) seen calm [] in
    let reply = responded plain toy_snow dialer listener toy-Completes in
    let at_r = on_incoming plain (some (5 ∷ 6 ∷ [])) (some 4) (proved_key reply) [] in
    (at_i.1 ≡ established)
    × (at_r.0 ≡ established)
    × (get at_i.2 (ip_to_string vip_listener) ≡ some 3)
    × (get at_r.1 (ip_to_string vip_dialer) ≡ some 4)
    × (tx_i : SessionTx) × (rx_i : SessionRx) × (tx_r : SessionTx) × (rx_r : SessionRx) × (initiated
          plain toy_snow dialer listener toy-Completes
        ≡ ok (tx_i, rx_i))
    × (reply ≡ ok (tx_r, rx_r, 5 ∷ 6 ∷ []))
    × (rx_task rx_r (from_link (survivors lost (tx_task tx_i (from_tun sent))))
        ≡ survivors lost packets)
    × (rx_task rx_i (from_link (survivors lost (tx_task tx_r (from_tun sent))))
        ≡ survivors lost packets)
connect_nodes_example =
    connect_nodes plain toy_snow dialer listener toy-Completes (some (5 ∷ 6 ∷ [])) seen calm [] [] 3
      4 7 sent lost refl refl refl refl (inr (refl, refl)) refl derives-dialer derives-listener
      (omega arith) (omega arith, (omega arith, (omega arith, tt)))
