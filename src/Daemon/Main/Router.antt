-- ===== src/Daemon/Main/Router.antt =====
-- What the task of the start and the teardown do to the router, and to the flag that tells the one
-- of the other.
use decentis.Prelude.{
  ℕ, zero, suc, Bool, true, false, not, ◌&&◌, List, [], ◌∷◌, ◌++◌, append_assoc, map, Option, some,
  none, take, ltb, ◌==◌, ◌≡◌, refl, sym, ap, ◌∙◌, arith, if◌then◌else◌,
}
use decentis.Nat.Stun.{discover_public_ip, SocketAddr}
use decentis.Nat.Upnp.{
  IpAddr, v4, v6, RouterCall, add_port, remove_port, lease, MapAnswers, RemoveAnswers, UpnpResult,
  map_external_port, remove_external_port,
}
use decentis.Nat.Signaling.{Payload}
use decentis.Daemon.Startup.{
  discovered, NatAnswers, Effect, routed, flagged, signaled, public_socket, announce, flag_if,
  nat_task,
}
use decentis.Daemon.Main.{World, apply, apply_all}

-- Whether the router has a mapping of the port after these calls, by the last of them.
abbrev pub mapped_by : ℕ → Bool → List RouterCall → Bool
mapped_by port before [] = before
mapped_by port before (add_port p local_addr time ∷ rest) =
    mapped_by port (if p == port then true else before) rest
mapped_by port before (remove_port p ∷ rest) =
    mapped_by port (if p == port then false else before) rest

abbrev pub is_mapped : ℕ → List RouterCall → Bool
is_mapped port calls = mapped_by port false calls

mapped_by-append :
    (port : ℕ) (before : Bool) (xs ys : List RouterCall)
    → mapped_by port before (xs ++ ys) ≡ mapped_by port (mapped_by port before xs) ys
mapped_by-append port before [] ys = refl
mapped_by-append port before (add_port p local_addr time ∷ xs) ys =
    mapped_by-append port (if p == port then true else before) xs ys
mapped_by-append port before (remove_port p ∷ xs) ys =
    mapped_by-append port (if p == port then false else before) xs ys

abbrev pub is_v4 : Option IpAddr → Bool
is_v4 (some (v4 ip)) = true
is_v4 _ = false

-- The router accepts the mapping: everything before it succeeds, and it agrees.
abbrev pub accepted : MapAnswers → Bool
accepted a = a.gateway && (a.bound && (a.connected && (is_v4 a.local_ip && a.adds)))

-- What the task does to the router and the flag, before it turns to the signaling server.
abbrev pub early : UpnpResult SocketAddr × List RouterCall → List Effect
early (mapped, calls) = map routed calls ++ flag_if mapped

-- The three forms of it.
pub data Early (port : ℕ) (a : MapAnswers) (effects : List Effect) : Type 0 where
  refused : accepted a ≡ false → effects ≡ [] → Early port a effects
  unflagged :
      (local_addr : SocketAddr)
      → accepted a ≡ true
      → is_v4 a.external_ip ≡ false
      → effects ≡ routed (add_port port local_addr lease) ∷ []
      → Early port a effects
  complete :
      (local_addr : SocketAddr)
      → accepted a ≡ true
      → is_v4 a.external_ip ≡ true
      → effects ≡ routed (add_port port local_addr lease) ∷ flagged ∷ []
      → Early port a effects

-- The messages change neither.
apply_all-signaled :
    (n : ℕ) (payloads : List Payload) (w : World)
    → ((apply_all (take n (map signaled payloads)) w).router ≡ w.router)
      × ((apply_all (take n (map signaled payloads)) w).upnp_mapped ≡ w.upnp_mapped)
unfolding apply_all
apply_all-signaled zero payloads w = (refl, refl)
apply_all-signaled (suc n) [] w = (refl, refl)
apply_all-signaled (suc n) (payload ∷ rest) w =
    apply_all-signaled n rest (apply (signaled payload) w)

pub map_external_port-Early :
    (a : MapAnswers) (port : ℕ) → Early port a (early (map_external_port a port []))
unfolding map_external_port
map_external_port-Early a port =
    by_answers a.gateway a.bound a.connected a.local_ip a.adds a.external_ip
  where
    by_answers :
        (gateway bound connected : Bool) (local_ip : Option IpAddr) (adds : Bool)
        (external_ip : Option IpAddr)
        → let a1 : MapAnswers = record {
          gateway = gateway;
          bound = bound;
          connected = connected;
          local_ip = local_ip;
          adds = adds;
          external_ip = external_ip;
        } in
          Early port a1 (early (map_external_port a1 port []))
    by_answers false bound connected local_ip adds external_ip = refused refl refl
    by_answers true false connected local_ip adds external_ip = refused refl refl
    by_answers true true false local_ip adds external_ip = refused refl refl
    by_answers true true true none adds external_ip = refused refl refl
    by_answers true true true (some (v6 ip)) adds external_ip = refused refl refl
    by_answers true true true (some (v4 ip)) false external_ip = refused refl refl
    by_answers true true true (some (v4 ip)) true none = unflagged _ refl refl refl
    by_answers true true true (some (v4 ip)) true (some (v6 ext)) = unflagged _ refl refl refl
    by_answers true true true (some (v4 ip)) true (some (v4 ext)) = complete _ refl refl refl

-- The router accepts the removal.
abbrev pub unmapped : RemoveAnswers → Bool
unmapped a = a.gateway && a.removes

module _ (port : ℕ) where
  add_port-is_mapped :
      (local_addr : SocketAddr) → is_mapped port (add_port port local_addr lease ∷ []) ≡ true
  add_port-is_mapped local_addr = ground arith

  -- The router and the flag after the first `n` effects of the task.
  pub apply_all-Early :
      (a : MapAnswers) (effects : List Effect) (payloads : List Payload) (n : ℕ) (w : World)
      → Early port a effects
      → w.router ≡ []
      → w.upnp_mapped ≡ false
      → let w' = apply_all (take n (effects ++ map signaled payloads)) w in
        (is_mapped port w'.router ≡ (accepted a && ltb 0 n))
        × (w'.upnp_mapped ≡ (accepted a && (is_v4 a.external_ip && ltb 1 n)))
  unfolding apply_all
  apply_all-Early a effects payloads n w (refused never e) fresh clear =
      rw (e, never)
        (
          ap (is_mapped port) ((apply_all-signaled n payloads w).0 ∙ fresh),
          (apply_all-signaled n payloads w).1 ∙ clear,
        )
  apply_all-Early a effects payloads zero w (unflagged local_addr got lost e) fresh clear =
      rw (got, lost) (ground (arith, fresh), clear)
  apply_all-Early a effects payloads (suc n) w (unflagged local_addr got lost e) fresh clear =
      let call = add_port port local_addr lease in
      let rest = apply_all-signaled n payloads (apply (routed call) w) in
      rw (e, got, lost)
        (
          ap (is_mapped port) (rest.0 ∙ ap (λ calls. calls ++ (call ∷ [])) fresh)
              ∙ ground (arith, add_port-is_mapped local_addr),
          rest.1 ∙ clear,
        )
  apply_all-Early a effects payloads zero w (complete local_addr got known e) fresh clear =
      rw (got, known) (ground (arith, fresh), ground (arith, clear))
  apply_all-Early a effects payloads (suc zero) w (complete local_addr got known e) fresh clear =
      rw (e, got, known)
        (
          ap (λ calls. is_mapped port (calls ++ (add_port port local_addr lease ∷ []))) fresh
              ∙ ground (arith, add_port-is_mapped local_addr),
          ground (arith, clear),
        )
  apply_all-Early a effects payloads (suc (suc n)) w (complete local_addr got known e) fresh clear =
      let call = add_port port local_addr lease in
      let rest = apply_all-signaled n payloads (apply flagged (apply (routed call) w)) in
      rw (e, got, known)
        (
          ap (is_mapped port) (rest.0 ∙ ap (λ calls. calls ++ (call ∷ [])) fresh)
              ∙ ground (arith, add_port-is_mapped local_addr),
          rest.1 ∙ ground arith,
        )

  -- A removal that the router accepts takes the mapping away.
  pub remove_external_port-is_mapped :
      (a : RemoveAnswers) (calls : List RouterCall)
      → is_mapped port (remove_external_port a port calls).1
        ≡ (is_mapped port calls && not (unmapped a))
  unfolding remove_external_port
  remove_external_port-is_mapped a calls = by_answers a.gateway a.removes
    where
      kept : (b : Bool) → b ≡ (b && true)
      kept true = refl
      kept false = refl

      by_answers :
          (gateway removes : Bool)
          → let a1 : RemoveAnswers = record { gateway = gateway; removes = removes } in
            is_mapped port (remove_external_port a1 port calls).1
            ≡ (is_mapped port calls && not (unmapped a1))
      by_answers false removes = kept (is_mapped port calls)
      by_answers true false = kept (is_mapped port calls)
      by_answers true true =
          mapped_by-append port false calls (remove_port port ∷ []) ∙ ground arith

pub nat_task-early :
    (a : NatAnswers) (node_id : List ℕ) (port : ℕ) (target : Option (List ℕ))
    → nat_task a node_id port target
      ≡ early (map_external_port a.upnp port [])
        ++ map signaled (
            announce a node_id target (
              public_socket
                (map_external_port a.upnp port []).0
                (discovered (discover_public_ip a.stun))
                port))
unfolding nat_task
nat_task-early a node_id port target =
    let (mapped, calls) = map_external_port a.upnp port [] in
    sym (
      append_assoc (map routed calls) (flag_if mapped) (
        map signaled (
          announce a node_id target
            (public_socket mapped (discovered (discover_public_ip a.stun)) port))))
