-- ===== src/Tests/Main.antt =====
-- The whole of daemon/src/main.rs from start to end: the router gives a mapping but not its own
-- address, STUN does, and the configured peer is dialed.
use decentis.Prelude.{
  ℕ, List, true, false, [], ◌∷◌, replicate, some, none, take, drop, ◌<◌, ◌≡◌, ◌≢◌, ◌↔◌, refl,
}
use decentis.Crypto.Identity.{
  no_fault, save, regenerate, derive_virtual_ip, load_or_generate_identity,
}
use decentis.Crypto.Identity.Text.{ip_to_string, decimal}
use decentis.Nat.Stun.{
  SocketAddr, datagram, discover_public_ip, await_response, parse_response, find_address,
  attribute_round, mapped_address, u16_at, u32_at, index, ipv4_address,
}
use decentis.Nat.Stun.Parse.{answer}
use decentis.Nat.Upnp.{v4, MapAnswers, map_external_port}
use decentis.Nat.Signaling.{
  register, dial, disconnect, octets, disconnect_node, ServerAnswers, start_registration, dial_peer,
}
use decentis.Tun.{start_tun_device}
use decentis.Daemon.Settings.{default_port_text, port_text, bind_addr, parse_u16, local_port}
use decentis.Daemon.Settings.Port.{AreDigits, bind_addr-local_port}
use decentis.Daemon.Startup.{NatAnswers, discovered, nat_task, local_ip}
use decentis.Daemon.Startup.Announce.{messages, reach, announcement, nat_task-messages}
use decentis.Daemon.Main.{
  teardown, World, Env, finished, main, start_to_end, load_identity, spawn_tasks, serve_control,
  bind_socket, apply_all,
}
use decentis.Daemon.Main.Router.{is_mapped}
use decentis.Daemon.Main.Mapping.{main-is_mapped}
use decentis.Daemon.Main.Cleanup.{Leaves, main-Leaves}
use decentis.Tests.Daemon.{plain, key, events}

abbrev reached : ServerAnswers
reached = record { connects = true; response = some true }

abbrev unknown_outside : MapAnswers
unknown_outside = record {
  gateway = true;
  bound = true;
  connected = true;
  local_ip = some (v4 7);
  adds = true;
  external_ip = none;
}

abbrev seen_at : SocketAddr
seen_at = record { port = 40_000; ip = 3_405_803_786 }

abbrev nat : NatAnswers
nat = record {
  upnp = unknown_outside;
  stun = record {
    bound = true;
    connected = true;
    sends = true;
    transaction_id = replicate 12 7;
    arrives = datagram (answer (replicate 18 0) [] seen_at []);
  };
  registers = true;
  opens = true;
  dialing = reached;
}

abbrev calm : Env
calm = record {
  peer_pub = some key;
  generated = some (record { public = key; private = key });
  fault = no_fault;
  tun_starts = true;
  port_var = some (b'5' ∷ b'1' ∷ b'8' ∷ b'2' ∷ b'0' ∷ []);
  endpoint_starts = true;
  nat = nat;
  effects = 3;
  events = events;
  removes_stale = true;
  binds = true;
  permits = true;
  traps = true;
  serves = true;
  disconnecting = reached;
  removes_socket = true;
  unmapping = record { gateway = true; removes = true };
}

abbrev fresh : World
fresh = record {
  disk = record { identity = none; temporary = none; own_temporary = false };
  tun = none;
  endpoint_open = false;
  upnp_mapped = false;
  router = [];
  signals = [];
  socket_file = false;
  peers = [];
}

abbrev bound : SocketAddr
bound = record { port = 51_820; ip = 0 }

binds-port : bind_addr (port_text calm.port_var) ≡ some bound
unfolding bind_addr
binds-port = refl

-- A number with a plus sign is a u16, but no port of an address.
refuses-plus : bind_addr (b'+' ∷ b'8' ∷ b'0' ∷ []) ≡ none
unfolding bind_addr
refuses-plus = refl

reads-plus : local_port (b'+' ∷ b'8' ∷ b'0' ∷ []) ≡ 80
unfolding local_port parse_u16
reads-plus = refl

bind_addr-local_port_example : (bind_addr default_port_text ≡ some bound) ↔ (
    (default_port_text ≢ [])
    × AreDigits default_port_text
    × (51_820 < 65536)
    × (bound.ip ≡ 0)
    × (bound.port ≡ 51_820)
    × (local_port default_port_text ≡ bound.port))
bind_addr-local_port_example = bind_addr-local_port default_port_text bound

finishes : (main plain calm fresh).0 ≡ finished
unfolding main start_to_end start_tun_device load_identity load_or_generate_identity
    derive_virtual_ip spawn_tasks serve_control bind_socket apply_all nat_task map_external_port
    start_registration dial_peer discover_public_ip await_response parse_response find_address
    attribute_round mapped_address u16_at u32_at bind_addr local_port
finishes = refl

-- 203.0.113.10
abbrev seen_text : List ℕ
seen_text = b'2' ∷ b'0' ∷ b'3' ∷ b'.' ∷ b'0' ∷ b'.' ∷ b'1' ∷ b'1' ∷ b'3' ∷ b'.' ∷ b'1' ∷ b'0' ∷ []

tells-signals :
    (main plain calm fresh).1.signals
    ≡ register
        (record { node_id = key; public_ip = seen_text; public_port = 51_820; local_ip = local_ip })
      ∷ dial key key
      ∷ disconnect key
      ∷ []
unfolding main start_to_end start_tun_device load_identity load_or_generate_identity
    derive_virtual_ip spawn_tasks serve_control bind_socket apply_all nat_task map_external_port
    start_registration dial_peer discover_public_ip await_response parse_response find_address
    attribute_round mapped_address u16_at u32_at index ipv4_address octets ip_to_string decimal save
    regenerate teardown disconnect_node bind_addr local_port
tells-signals = refl

-- The request for a rendezvous goes out only after the farewell.
abbrev early : Env
early = record calm { effects = 2 }

main-Leaves_example :
    Leaves early
      (main plain early fresh).0
      (apply_all (take 1 (drop 2 (nat_task nat key 51_820 (some key)))) (main plain early fresh).1)
main-Leaves_example = main-Leaves plain early fresh refl refl key 51_820 1 2

main-is_mapped_example : is_mapped 51_820 (main plain calm fresh).1.router ≡ true
main-is_mapped_example = main-is_mapped plain calm fresh bound binds-port refl refl finishes

nat_task-messages_example :
    messages (nat_task nat key 51_820 (some key))
    ≡ announcement nat key 51_820
        (some key)
        (reach nat.upnp (discovered (discover_public_ip nat.stun)))
nat_task-messages_example = nat_task-messages nat key 51_820 (some key)
