-- ===== src/Daemon/Main/Lasting.antt =====
-- The task of the start takes nothing back: it neither says farewell nor removes a mapping.
use decentis.Prelude.{
  ℕ, zero, suc, Bool, true, false, List, [], ◌∷◌, ◌++◌, map, Option, some, none, take, drop, ◌≡◌,
  refl, ◌∙◌, arith,
}
use decentis.Nat.Stun.{discover_public_ip, SocketAddr}
use decentis.Nat.Upnp.{RouterCall, add_port, remove_port, map_external_port}
use decentis.Nat.Signaling.{
  Payload, register, dial, peer_found, disconnect, start_registration, dial_peer,
}
use decentis.Daemon.Startup.{
  discovered, NatAnswers, Effect, routed, flagged, signaled, public_socket, announce, nat_task,
}
use decentis.Daemon.Main.{World, apply, apply_all}
use decentis.Daemon.Main.Router.{
  Early, refused, unflagged, complete, early, map_external_port-Early, nat_task-early,
}

-- A farewell is among the messages.
abbrev pub says_farewell : List Payload → Bool
says_farewell [] = false
says_farewell (disconnect node_id ∷ rest) = true
says_farewell (register m ∷ rest) = says_farewell rest
says_farewell (dial node_id target ∷ rest) = says_farewell rest
says_farewell (peer_found m ∷ rest) = says_farewell rest

-- A removal is among the calls.
abbrev pub takes_back : List RouterCall → Bool
takes_back [] = false
takes_back (remove_port p ∷ rest) = true
takes_back (add_port p local_addr time ∷ rest) = takes_back rest

-- Of effects: none is a farewell or a removal.
abbrev pub IsLasting : List Effect → Type 0
IsLasting [] = Unit {0}
IsLasting (routed call ∷ rest) = (takes_back (call ∷ []) ≡ false) × IsLasting rest
IsLasting (flagged ∷ rest) = IsLasting rest
IsLasting (signaled payload ∷ rest) = (says_farewell (payload ∷ []) ≡ false) × IsLasting rest

pub take-IsLasting :
    (n : ℕ) (effects : List Effect) → IsLasting effects → IsLasting (take n effects)
take-IsLasting zero effects lasting = tt
take-IsLasting (suc n) [] lasting = tt
take-IsLasting (suc n) (routed call ∷ rest) (here, lasting) = (here, take-IsLasting n rest lasting)
take-IsLasting (suc n) (flagged ∷ rest) lasting = take-IsLasting n rest lasting
take-IsLasting (suc n) (signaled payload ∷ rest) (here, lasting) =
    (here, take-IsLasting n rest lasting)

pub drop-IsLasting :
    (n : ℕ) (effects : List Effect) → IsLasting effects → IsLasting (drop n effects)
drop-IsLasting zero effects lasting = lasting
drop-IsLasting (suc n) [] lasting = tt
drop-IsLasting (suc n) (routed call ∷ rest) (here, lasting) = drop-IsLasting n rest lasting
drop-IsLasting (suc n) (flagged ∷ rest) lasting = drop-IsLasting n rest lasting
drop-IsLasting (suc n) (signaled payload ∷ rest) (here, lasting) = drop-IsLasting n rest lasting

says_farewell-append :
    (xs : List Payload) (y : Payload)
    → says_farewell (y ∷ []) ≡ false
    → says_farewell (xs ++ (y ∷ [])) ≡ says_farewell xs
says_farewell-append [] y k = k
says_farewell-append (disconnect node_id ∷ xs) y k = refl
says_farewell-append (register m ∷ xs) y k = says_farewell-append xs y k
says_farewell-append (dial node_id target ∷ xs) y k = says_farewell-append xs y k
says_farewell-append (peer_found m ∷ xs) y k = says_farewell-append xs y k

pub says_farewell-disconnect :
    (xs : List Payload) (node_id : List ℕ) → says_farewell (xs ++ (disconnect node_id ∷ [])) ≡ true
says_farewell-disconnect [] node_id = refl
says_farewell-disconnect (disconnect id ∷ xs) node_id = refl
says_farewell-disconnect (register m ∷ xs) node_id = says_farewell-disconnect xs node_id
says_farewell-disconnect (dial id target ∷ xs) node_id = says_farewell-disconnect xs node_id
says_farewell-disconnect (peer_found m ∷ xs) node_id = says_farewell-disconnect xs node_id

takes_back-append :
    (xs : List RouterCall) (y : RouterCall)
    → takes_back (y ∷ []) ≡ false
    → takes_back (xs ++ (y ∷ [])) ≡ takes_back xs
takes_back-append [] y k = k
takes_back-append (remove_port p ∷ xs) y k = refl
takes_back-append (add_port p local_addr time ∷ xs) y k = takes_back-append xs y k

-- What lasting effects leave as it is.
pub record Kept (w w' : World) : Type 0 where
  pub farewell_same : says_farewell w'.signals ≡ says_farewell w.signals
  pub removal_same : takes_back w'.router ≡ takes_back w.router
  pub endpoint_same : w'.endpoint_open ≡ w.endpoint_open
  pub socket_same : w'.socket_file ≡ w.socket_file

Kept-trans : {w w1 w2 : World} → Kept w w1 → Kept w1 w2 → Kept w w2
Kept-trans k l = record {
  farewell_same = l.farewell_same ∙ k.farewell_same;
  removal_same = l.removal_same ∙ k.removal_same;
  endpoint_same = l.endpoint_same ∙ k.endpoint_same;
  socket_same = l.socket_same ∙ k.socket_same;
}

pub apply_all-Kept :
    (effects : List Effect) (w : World) → IsLasting effects → Kept w (apply_all effects w)
unfolding apply_all
apply_all-Kept [] w lasting = record {
  farewell_same = refl;
  removal_same = refl;
  endpoint_same = refl;
  socket_same = refl;
}
apply_all-Kept (routed call ∷ rest) w (here, lasting) =
    Kept-trans
      (record {
        farewell_same = refl;
        removal_same = takes_back-append w.router call here;
        endpoint_same = refl;
        socket_same = refl;
      })
      (apply_all-Kept rest (apply (routed call) w) lasting)
apply_all-Kept (flagged ∷ rest) w lasting =
    Kept-trans
      (record {
        farewell_same = refl;
        removal_same = refl;
        endpoint_same = refl;
        socket_same = refl;
      })
      (apply_all-Kept rest (apply flagged w) lasting)
apply_all-Kept (signaled payload ∷ rest) w (here, lasting) =
    Kept-trans
      (record {
        farewell_same = says_farewell-append w.signals payload here;
        removal_same = refl;
        endpoint_same = refl;
        socket_same = refl;
      })
      (apply_all-Kept rest (apply (signaled payload) w) lasting)

-- Lasting effects take nothing back.
pub apply_all-IsLasting :
    (effects : List Effect) (n : ℕ) (w : World)
    → IsLasting effects
    → says_farewell w.signals ≡ false
    → takes_back w.router ≡ false
    → (says_farewell (apply_all (take n effects) w).signals ≡ false)
      × (takes_back (apply_all (take n effects) w).router ≡ false)
unfolding apply_all
apply_all-IsLasting effects zero w lasting quiet kept = (quiet, kept)
apply_all-IsLasting [] (suc n) w lasting quiet kept = (quiet, kept)
apply_all-IsLasting (routed call ∷ rest) (suc n) w (here, lasting) quiet kept =
    apply_all-IsLasting rest n (apply (routed call) w) lasting quiet
      (takes_back-append w.router call here ∙ kept)
apply_all-IsLasting (flagged ∷ rest) (suc n) w lasting quiet kept =
    apply_all-IsLasting rest n (apply flagged w) lasting quiet kept
apply_all-IsLasting (signaled payload ∷ rest) (suc n) w (here, lasting) quiet kept =
    apply_all-IsLasting rest n (apply (signaled payload) w) lasting
      (says_farewell-append w.signals payload here ∙ quiet) kept

announce-IsLasting :
    (a : NatAnswers) (node_id : List ℕ) (target : Option (List ℕ)) (socket : Option SocketAddr)
    → IsLasting (map signaled (announce a node_id target socket))
unfolding start_registration dial_peer
announce-IsLasting a node_id target none = tt
announce-IsLasting a node_id target (some socket) = ground arith

pub nat_task-IsLasting :
    (a : NatAnswers) (node_id : List ℕ) (port : ℕ) (target : Option (List ℕ))
    → IsLasting (nat_task a node_id port target)
nat_task-IsLasting a node_id port target =
    let mapped = map_external_port a.upnp port [] in
    rw (nat_task-early a node_id port target) (
      after (early mapped) _ (map_external_port-Early a.upnp port) (
        announce-IsLasting a node_id target
          (public_socket mapped.0 (discovered (discover_public_ip a.stun)) port)))
  where
    after :
        (effects rest : List Effect)
        → Early port a.upnp effects
        → IsLasting rest
        → IsLasting (effects ++ rest)
    after effects rest (refused never e) h = rw e h
    after effects rest (unflagged local_addr got lost e) h = rw e (refl, h)
    after effects rest (complete local_addr got known e) h = rw e (refl, h)
