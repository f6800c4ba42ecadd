-- ===== src/Daemon/Main/Endings.antt =====
-- The ways in which `main` ends, and the world that it then leaves.
use decentis.Prelude.{
  ℕ, Bool, true, false, List, [], some, take, ◌≡◌, ◌≢◌, refl, sym, if◌then◌else◌,
}
use decentis.Crypto.Identity
use decentis.Crypto.Identity.{
  Keypair, Disk, LoadResult, derive_virtual_ip, load_or_generate_identity,
}
use decentis.Daemon.{Codecs, run}
use decentis.Nat.Stun.{SocketAddr}
use decentis.Daemon.Settings
use decentis.Daemon.Settings.{port_text, bind_addr}
use decentis.Daemon.Settings.Port.{bind_addr-local_port}
use decentis.Daemon.Startup.{nat_task}
use decentis.Daemon.Main.{
  shutdown_signal, World, Env, Failure, panicked, identity_failed, tun_failed, endpoint_failed,
  stale_socket, bind_failed, serve_failed, Exit, finished, stopped, Step, go, exit, ◌>>◌, guard,
  or_exit, modify, loaded, load_identity, apply_all, bind_socket, teardown, spawn_tasks,
  serve_control, start_to_end, main,
}
use decentis.Tun.{AsyncDevice, start_tun_device}
use decentis.Crypto.Identity.Text.{ip_to_string}
use decentis.Daemon.Main.Rules.{Ends, bind-Ends, or_exit-Ends, guard-Ends}

-- The world while the server runs.
abbrev pub served : Codecs → Env → Disk → AsyncDevice → List ℕ → ℕ → World → World
served codecs env disk dev node_id local_port w =
    let w1 =
      apply_all (take env.effects (nat_task env.nat node_id local_port env.peer_pub))
        (record w { disk = disk; tun = some dev; endpoint_open = true }) in
    record w1 { peers = run codecs env.peer_pub env.events []; socket_file = true }

-- The endpoint is bound to the port.
abbrev pub IsBound : Env → ℕ → Type 0
IsBound env port =
    (addr : SocketAddr) × (bind_addr (port_text env.port_var) ≡ some addr) × (addr.port ≡ port)

-- `w'` is such a world, up to what is done to it at the end.
abbrev pub IsServed : Codecs → Env → World → (List ℕ → ℕ → World → World) → World → Type 0
IsServed codecs env w after w' =
    (disk : Disk) × (dev : AsyncDevice) × (node_id : List ℕ) × (local_port : ℕ) × IsBound env
      local_port
    × (w' ≡ after node_id local_port (served codecs env disk dev node_id local_port w))

abbrev pub Ending : Codecs → Env → World → Exit → World → Type 0
Ending codecs env w finished w' = IsServed codecs env w (teardown env) w'
Ending codecs env w (stopped e) w' =
    e ≡ serve_failed → IsServed codecs env w (λ node_id local_port up. up) w'

load_identity-Ends :
    (E : Failure → World → Type 0) (Q : Keypair → World → Type 0) (env : Env) (w : World)
    → ((key : Keypair) (disk : Disk) → Q key (record w { disk = disk }))
    → ((disk : Disk) → E identity_failed (record w { disk = disk }))
    → Ends Q E (load_identity env w)
unfolding load_identity
load_identity-Ends E Q env w goes fails =
    by_result (load_or_generate_identity env.generated env.fault w.disk)
  where
    by_result : (r : LoadResult × Disk) → Ends Q E (loaded r w)
    by_result (Identity.ok key, disk) = goes key disk
    by_result (Identity.err e, disk) = fails disk

bind_socket-Ends :
    (E : Failure → World → Type 0) (Q : Unit {0} → World → Type 0) (env : Env) (w : World)
    → ((present : Bool) → Q tt (record w { socket_file = present }))
    → E stale_socket w
    → Ends Q E (bind_socket env w)
unfolding bind_socket
bind_socket-Ends E Q env w goes fails = by_file w.socket_file env.removes_stale refl
  where
    by_file :
        (present removes : Bool)
        → w.socket_file ≡ present
        → Ends Q E (
            (if present
                then (guard removes stale_socket
                    >> modify (λ w1. record w1 { socket_file = false }))
                else modify (λ w1. w1))
              w)
    by_file true true e = goes false
    by_file true false e = fails
    by_file false removes e = goes w.socket_file

serve_control-Ends :
    (codecs : Codecs) (E : Failure → World → Type 0) (Q : Unit {0} → World → Type 0) (env : Env)
    (w : World)
    → Q tt (record w { socket_file = true })
    → E serve_failed (record w { socket_file = true })
    → ((e : Failure) (w' : World) → e ≢ serve_failed → E e w')
    → Ends Q E (serve_control codecs env w)
unfolding serve_control
serve_control-Ends codecs E Q env w goes fails other = bind-Ends E Q (bind_socket env) _ w (
    bind_socket-Ends E _ env w
      (λ present. bind-Ends E Q (guard env.binds bind_failed) _ _ (
        guard-Ends E _ env.binds bind_failed _
          (λ bound. bind-Ends E Q (guard env.permits panicked) _ _ (
            guard-Ends E _ env.permits panicked _ (λ allowed. waits)
              (λ _. other panicked _ (λ e. cc))))
          (λ _. other bind_failed _ (λ e. cc))))
      (other stale_socket w (λ e. cc)))
  where
    waits :
        Ends Q E (
          (do shutdown_signal env; guard env.serves serve_failed) (record w { socket_file = true }))
    waits = bind-Ends E Q (shutdown_signal env) _ _ (
        guard-Ends E _ env.traps panicked _
          (λ trapped. guard-Ends E Q env.serves serve_failed _ (λ _. goes) (λ _. fails))
          (λ _. other panicked _ (λ e. cc)))

module _ (codecs : Codecs) (env : Env) (w : World) where
  Q : Unit {0} → World → Type 0
  Q _ w' = Ending codecs env w finished w'

  E : Failure → World → Type 0
  E e w' = Ending codecs env w (stopped e) w'

  other : (e : Failure) (w' : World) → e ≢ serve_failed → E e w'
  unfolding E
  other e w' ne eq = absurd (ne eq)

  start_to_end-Ends : Ends Q E (start_to_end codecs env w)
  unfolding start_to_end spawn_tasks E Q
  start_to_end-Ends = bind-Ends E Q (load_identity env) _ w (
      load_identity-Ends E _ env w
        (λ key disk. bind-Ends E Q (or_exit panicked (derive_virtual_ip key.public)) _ _ (
          or_exit-Ends E _ panicked (derive_virtual_ip key.public) _
            (λ ip derived.
              bind-Ends E Q (or_exit tun_failed (start_tun_device env.tun_starts (ip_to_string ip)))
                _ _
                (or_exit-Ends E _ tun_failed (start_tun_device env.tun_starts (ip_to_string ip)) _
                  (λ dev up. bind-Ends E Q (or_exit panicked (bind_addr port)) _ _ (
                    or_exit-Ends E _ panicked (bind_addr port) _
                      (λ addr parsed.
                        after_port key disk dev (Settings.local_port port)
                          (addr, parsed, sym ((bind_addr-local_port port addr).0 parsed).5))
                      (other panicked _ (λ e. cc))))
                  (other tun_failed _ (λ e. cc))))
            (other panicked _ (λ e. cc))))
        (λ disk. other identity_failed _ (λ e. cc)))
    where
      port : List ℕ
      port = port_text env.port_var

      after_port :
          (key : Keypair) (disk : Disk) (dev : AsyncDevice) (local_port : ℕ)
          → IsBound env local_port
          → Ends Q E (
              (do
                guard env.endpoint_starts endpoint_failed
                modify (λ w1. record w1 { endpoint_open = true })
                spawn_tasks codecs env (codecs.encode64 key.public) local_port
                serve_control codecs env
                modify (teardown env (codecs.encode64 key.public) local_port))
                (record w { disk = disk; tun = some dev }))
      after_port key disk dev local_port parsed =
          bind-Ends E Q (guard env.endpoint_starts endpoint_failed) _ _ (
            guard-Ends E _ env.endpoint_starts endpoint_failed _
              (λ bound. bind-Ends E Q (serve_control codecs env) _ _ (
                serve_control-Ends codecs E _ env _
                  (disk, dev, codecs.encode64 key.public, local_port, parsed, refl)
                  (λ same. (disk, dev, codecs.encode64 key.public, local_port, parsed, refl))
                  other))
              (λ _. other endpoint_failed _ (λ e. cc)))

  -- `main` ends after the teardown of the world that it has served, or with the world that the
  -- server has failed in, or with an earlier failure.
  pub main-Ending : Ending codecs env w (main codecs env w).0 (main codecs env w).1
  unfolding main E Q
  main-Ending = by_step (start_to_end codecs env w) start_to_end-Ends
    where
      conclude : Step (Unit {0}) → Exit × World
      conclude (go _ w') = (finished, w')
      conclude (exit e w') = (stopped e, w')

      by_step :
          (s : Step (Unit {0})) → Ends Q E s → Ending codecs env w (conclude s).0 (conclude s).1
      by_step (go _ w') h = h
      by_step (exit e w') h = h
