-- ===== src/Daemon/Main.antt =====
-- `main` of daemon/src/main.rs, from the start to the end of the teardown. The tasks that it spawns
-- run beside it; what they have done by the time that the teardown begins is told by `Env`. They are
-- not cancelled: what the task of the start may still do is added to the result in `Cleanup`. Their
-- effects before the teardown and the steps of `main` itself touch different parts of `World`, so
-- those of the spawned tasks stand where they are spawned.
pub mod Rules
pub mod Endings
pub mod Router
pub mod Lasting
pub mod Mapping
pub mod Cleanup
use decentis.Prelude.{
  ℕ, Bool, true, false, List, [], ◌∷◌, ◌++◌, Option, some, none, take, if◌then◌else◌,
}
use decentis.Crypto.Identity
use decentis.Crypto.Identity.{
  Keypair, Disk, Fault, LoadResult, Ipv4Addr, derive_virtual_ip, load_or_generate_identity,
}
use decentis.Crypto.Identity.Text.{ip_to_string}
use decentis.Nat.Upnp.{RouterCall, RemoveAnswers, remove_external_port}
use decentis.Nat.Signaling.{Payload, ServerAnswers, disconnect_node}
use decentis.Tun.{AsyncDevice, start_tun_device}
use decentis.Daemon.{Codecs, PeerRegistry, Event, run}
use decentis.Daemon.Settings.{port_text, bind_addr}
use decentis.Daemon.Settings
use decentis.Daemon.Startup.{NatAnswers, Effect, routed, flagged, signaled, nat_task}

-- `tun` is the device by the handle of `main`; the tasks for peers hold handles of their own until
-- the process ends. `router` and `signals` are what has gone out.
pub record World : Type 0 where
  pub disk : Disk
  pub tun : Option AsyncDevice
  pub endpoint_open : Bool
  pub upnp_mapped : Bool
  pub router : List RouterCall
  pub signals : List Payload
  pub socket_file : Bool
  pub peers : PeerRegistry

-- What the world around answers, in the order of the calls. `port_var` is the variable PORT;
-- `effects` is how much of the task for reachability comes about, and `events` is what the two
-- tasks for peers meet with.
pub record Env : Type 0 where
  pub peer_pub : Option (List ℕ)
  pub generated : Option Keypair
  pub fault : Fault
  pub tun_starts : Bool
  pub port_var : Option (List ℕ)
  pub endpoint_starts : Bool
  pub nat : NatAnswers
  pub effects : ℕ
  pub events : List Event
  pub removes_stale : Bool
  pub binds : Bool
  pub permits : Bool
  pub traps : Bool
  pub serves : Bool
  pub disconnecting : ServerAnswers
  pub removes_socket : Bool
  pub unmapping : RemoveAnswers

pub data Failure : Type 0 where
  panicked identity_failed tun_failed endpoint_failed stale_socket bind_failed serve_failed :
      Failure

pub data Exit : Type 0 where
  finished : Exit
  stopped : Failure → Exit

pub data Step (A : Type 0) : Type 0 where
  go : A → World → Step A
  exit : Failure → World → Step A

abbrev pub M : Type 0 → Type 0
M A = World → Step A

infixl 5 ◌>>=◌ ◌>>◌
abbrev pub ◌>>=◌ : {A B : Type 0} → M A → (A → M B) → M B
◌>>=◌ m k w = elim (m w) [ go a w' ↦ k a w' | exit e w' ↦ exit e w' ]

abbrev pub ◌>>◌ : {B : Type 0} → M (Unit {0}) → M B → M B
m >> k = m >>= λ _. k

abbrev pub guard : Bool → Failure → M (Unit {0})
guard true e w = go tt w
guard false e w = exit e w

abbrev pub or_exit : {A : Type 0} → Failure → Option A → M A
or_exit e none w = exit e w
or_exit e (some a) w = go a w

abbrev pub modify : (World → World) → M (Unit {0})
modify f w = go tt (f w)

abbrev pub loaded : LoadResult × Disk → M Keypair
loaded (Identity.ok key, disk) w = go key (record w { disk = disk })
loaded (Identity.err e, disk) w = exit identity_failed (record w { disk = disk })

unfoldable pub load_identity : Env → M Keypair
load_identity env w = loaded (load_or_generate_identity env.generated env.fault w.disk) w

abbrev pub apply : Effect → World → World
apply (routed call) w = record w { router = w.router ++ (call ∷ []) }
apply flagged w = record w { upnp_mapped = true }
apply (signaled payload) w = record w { signals = w.signals ++ (payload ∷ []) }

unfoldable pub apply_all : List Effect → World → World
apply_all [] w = w
apply_all (effect ∷ rest) w = apply_all rest (apply effect w)

-- The socket file of an earlier run is removed first.
unfoldable pub bind_socket : Env → M (Unit {0})
bind_socket env w =
    (if w.socket_file
        then (guard env.removes_stale stale_socket
            >> modify (λ w1. record w1 { socket_file = false }))
        else modify (λ w1. w1))
      w

-- The wait for the signal that ends the server; it panics if a handler cannot be installed.
abbrev pub shutdown_signal : Env → M (Unit {0})
shutdown_signal env = guard env.traps panicked

-- Every step is taken, whatever becomes of the ones before it.
unfoldable pub teardown : Env → List ℕ → ℕ → World → World
teardown env node_id local_port w = record w {
  signals = w.signals ++ (disconnect_node node_id env.disconnecting).1;
  endpoint_open = false;
  socket_file = if w.socket_file then (if env.removes_socket then false else true) else false;
  router =
      if w.upnp_mapped
      then (remove_external_port env.unmapping local_port w.router).1
      else w.router;
  tun = none;
}

module _ (codecs : Codecs) where
  unfoldable pub spawn_tasks : Env → List ℕ → ℕ → M (Unit {0})
  spawn_tasks env node_id local_port = do
    modify (apply_all (take env.effects (nat_task env.nat node_id local_port env.peer_pub)))
    modify (λ w. record w { peers = run codecs env.peer_pub env.events [] })

  -- The server on the socket, up to the signal that ends it.
  unfoldable pub serve_control : Env → M (Unit {0})
  serve_control env = do
    bind_socket env
    guard env.binds bind_failed
    modify (λ w. record w { socket_file = true })
    guard env.permits panicked
    shutdown_signal env
    guard env.serves serve_failed

  unfoldable pub start_to_end : Env → M (Unit {0})
  start_to_end env = do
    key ← load_identity env
    ip ← or_exit panicked (derive_virtual_ip key.public)
    dev ← or_exit tun_failed (start_tun_device env.tun_starts (ip_to_string ip))
    modify (λ w. record w { tun = some dev })
    let port = port_text env.port_var
    addr ← or_exit panicked (bind_addr port)
    guard env.endpoint_starts endpoint_failed
    modify (λ w. record w { endpoint_open = true })
    spawn_tasks env (codecs.encode64 key.public) (Settings.local_port port)
    serve_control env
    modify (teardown env (codecs.encode64 key.public) (Settings.local_port port))

  unfoldable pub main : Env → World → Exit × World
  main env w = elim (start_to_end env w) [ go _ w' ↦ (finished, w') | exit e w' ↦ (stopped e, w') ]
