-- ===== src/Daemon/Main/Cleanup.antt =====
-- What `main` leaves behind outside of its process, by the way that it ends.
use decentis.Prelude.{
  ℕ, Bool, true, false, not, List, [], ◌∷◌, ◌++◌, some, take, drop, ◌≡◌, ◌≢◌, ◌⊎◌, inl, inr, refl,
  arith, if◌then◌else◌, ◌∙◌,
}
use decentis.Nat.Signaling.{Payload, disconnect, ServerAnswers, disconnect_node}
use decentis.Daemon.{Codecs}
use decentis.Daemon.Startup.{nat_task}
use decentis.Daemon.Main.{
  World, Env, Failure, serve_failed, panicked, identity_failed, tun_failed, endpoint_failed,
  stale_socket, bind_failed, Exit, finished, stopped, teardown, apply_all, main,
}
use decentis.Daemon.Main.Endings.{served, IsServed, Ending, main-Ending}
use decentis.Daemon.Main.Lasting.{
  says_farewell, takes_back, says_farewell-disconnect, Kept, apply_all-Kept, take-IsLasting,
  drop-IsLasting, apply_all-IsLasting, nat_task-IsLasting,
}

disconnect_node-sent :
    (node_id : List ℕ) (a : ServerAnswers)
    → a.connects ≡ true
    → (disconnect_node node_id a).1 ≡ disconnect node_id ∷ []
unfolding disconnect_node
disconnect_node-sent node_id a e = ground (arith, e)

-- After a regular end, the endpoint is closed, the socket file is gone but for an error of its
-- removal, and the server has got the farewell if it can be reached. After an error
-- of the control server, the socket file is there, and neither a farewell nor a removal is out.
abbrev pub Leaves : Env → Exit → World → Type 0
Leaves env finished w =
    (w.endpoint_open ≡ false)
    × (w.socket_file ≡ not env.removes_socket)
    × ((env.disconnecting.connects ≡ false) ⊎ (says_farewell w.signals ≡ true))
Leaves env (stopped e) w =
    (e ≢ serve_failed)
    ⊎ ((w.socket_file ≡ true) × (says_farewell w.signals ≡ false) × (takes_back w.router ≡ false))

is_serve_failed : (e : Failure) → (e ≡ serve_failed) ⊎ (e ≢ serve_failed)
is_serve_failed serve_failed = inl refl
is_serve_failed panicked = inr (λ same. cc)
is_serve_failed identity_failed = inr (λ same. cc)
is_serve_failed tun_failed = inr (λ same. cc)
is_serve_failed endpoint_failed = inr (λ same. cc)
is_serve_failed stale_socket = inr (λ same. cc)
is_serve_failed bind_failed = inr (λ same. cc)

module _ (codecs : Codecs) (env : Env) (w : World) where
  teardown-Leaves : (w' : World) → IsServed codecs env w (teardown env) w' → Leaves env finished w'
  unfolding teardown
  teardown-Leaves w' (disk, dev, node_id, local_port, parsed, e) =
      rw e (refl, by_removal env.removes_socket, farewell env.disconnecting.connects refl)
    where
      by_removal : (b : Bool) → (if b then false else true) ≡ not b
      by_removal true = refl
      by_removal false = refl

      sent : List Payload
      sent = (disconnect_node node_id env.disconnecting).1

      farewell :
          (b : Bool)
          → env.disconnecting.connects ≡ b
          → (env.disconnecting.connects ≡ false)
            ⊎ (says_farewell ((served codecs env disk dev node_id local_port w).signals ++ sent)
                ≡ true)
      farewell false lost = inl lost
      farewell true reached = inr (
          rw (disconnect_node-sent node_id env.disconnecting reached) (
            says_farewell-disconnect (served codecs env disk dev node_id local_port w).signals
              node_id))

  served-Leaves :
      (w' : World)
      → w.signals ≡ []
      → w.router ≡ []
      → IsServed codecs env w (λ node_id local_port up. up) w'
      → (w'.socket_file ≡ true)
        × (says_farewell w'.signals ≡ false)
        × (takes_back w'.router ≡ false)
  served-Leaves w' silent unasked (disk, dev, node_id, local_port, parsed, e) =
      let started : World = record w { disk = disk; tun = some dev; endpoint_open = true } in
      let kept =
        apply_all-IsLasting (nat_task env.nat node_id local_port env.peer_pub) env.effects started
          (nat_task-IsLasting env.nat node_id local_port env.peer_pub) (rw silent refl)
          (rw unasked refl) in
      rw e (refl, kept.0, kept.1)

  by_exit :
      (e : Exit) (w' : World)
      → w.signals ≡ []
      → w.router ≡ []
      → Ending codecs env w e w'
      → Leaves env e w'
  by_exit finished w' silent unasked h = teardown-Leaves w' h
  by_exit (stopped e) w' silent unasked h = elim (is_serve_failed e) [
    | inl same ↦ inr (served-Leaves w' silent unasked (h same))
    | inr other ↦ inl other
  ]

Leaves-late : (env : Env) (e : Exit) (w w' : World) → Kept w w' → Leaves env e w → Leaves env e w'
Leaves-late env finished w w' k (closed, socket, inl lost) =
    (k.endpoint_same ∙ closed, k.socket_same ∙ socket, inl lost)
Leaves-late env finished w w' k (closed, socket, inr said) =
    (k.endpoint_same ∙ closed, k.socket_same ∙ socket, inr (k.farewell_same ∙ said))
Leaves-late env (stopped e) w w' k (inl other) = inl other
Leaves-late env (stopped e) w w' k (inr (socket, quiet, kept)) =
    inr (k.socket_same ∙ socket, k.farewell_same ∙ quiet, k.removal_same ∙ kept)

-- If `main` ends regularly, it has closed the endpoint, the socket file is gone unless its removal
-- failed, and the farewell has been sent to a signaling server that can be reached. If the control
-- server fails, `main` returns before the teardown: the socket file is still there, no farewell has
-- been sent, and the router has not been asked to remove a mapping. All of this stays so whatever
-- the task of the start, which is not cancelled, does from the teardown on. The messages and the
-- calls to the router are counted from the start.
pub main-Leaves :
    (codecs : Codecs) (env : Env) (w : World)
    → w.signals ≡ []
    → w.router ≡ []
    → (node_id : List ℕ) (local_port m n : ℕ)
    → let late = take m (drop n (nat_task env.nat node_id local_port env.peer_pub)) in
      Leaves env (main codecs env w).0 (apply_all late (main codecs env w).1)
main-Leaves codecs env w silent unasked node_id local_port m n =
    let effects = nat_task env.nat node_id local_port env.peer_pub in
    Leaves-late env (main codecs env w).0 (main codecs env w).1 _
      (apply_all-Kept (take m (drop n effects)) (main codecs env w).1 (
        take-IsLasting m (drop n effects)
          (drop-IsLasting n effects (nat_task-IsLasting env.nat node_id local_port env.peer_pub))))
      (by_exit codecs env w (main codecs env w).0 (main codecs env w).1 silent unasked
        (main-Ending codecs env w))
