-- ===== src/Daemon/Startup/Announce.antt =====
-- What the node tells the signaling server.
use decentis.Prelude.{
  ℕ, Bool, true, false, ◌&&◌, List, [], ◌∷◌, ◌++◌, map, Option, some, none, ◌≡◌, refl, ap, ◌∙◌,
  arith, if◌then◌else◌,
}
use decentis.Crypto.Identity.Text.{ip_to_string}
use decentis.Nat.Stun.{discover_public_ip, SocketAddr}
use decentis.Nat.Upnp
use decentis.Nat.Upnp.{IpAddr, v4, v6, RouterCall, MapAnswers, UpnpResult, map_external_port}
use decentis.Nat.Signaling.{Payload, register, dial, octets, start_registration, dial_peer}
use decentis.Daemon.Main.Router.{accepted}
use decentis.Daemon.Startup.{
  discovered, local_ip, NatAnswers, Effect, routed, flagged, signaled, stun_socket, public_socket,
  announce, flag_if, nat_task,
}

-- The messages among the effects, in order.
abbrev pub messages : List Effect → List Payload
messages [] = []
messages (signaled payload ∷ rest) = payload ∷ messages rest
messages (_ ∷ rest) = messages rest

messages-append : (xs ys : List Effect) → messages (xs ++ ys) ≡ messages xs ++ messages ys
messages-append [] ys = refl
messages-append (routed call ∷ xs) ys = messages-append xs ys
messages-append (flagged ∷ xs) ys = messages-append xs ys
messages-append (signaled payload ∷ xs) ys = ap (λ ps. payload ∷ ps) (messages-append xs ys)

messages-signaled : (payloads : List Payload) → messages (map signaled payloads) ≡ payloads
messages-signaled [] = refl
messages-signaled (payload ∷ rest) = ap (λ ps. payload ∷ ps) (messages-signaled rest)

messages-routed : (calls : List RouterCall) → messages (map routed calls) ≡ []
messages-routed [] = refl
messages-routed (call ∷ rest) = messages-routed rest

messages-flag_if : (r : UpnpResult SocketAddr) → messages (flag_if r) ≡ []
messages-flag_if (Upnp.ok addr) = refl
messages-flag_if (Upnp.err e) = refl

abbrev external_of : Option IpAddr → Option ℕ
external_of (some (v4 ip)) = some ip
external_of _ = none

abbrev or_else : Option ℕ → Option SocketAddr → Option ℕ
or_else (some ip) stun = some ip
or_else none (some public_addr) = some public_addr.ip
or_else none none = none

-- The public address of the node: what the router says, if it accepts the mapping and gives an
-- address of IPv4, or else what STUN says, if it says something.
abbrev pub reach : MapAnswers → Option SocketAddr → Option ℕ
reach a stun = or_else (if accepted a then external_of a.external_ip else none) stun

-- The messages of a node with that public address.
abbrev pub announcement : NatAnswers → List ℕ → ℕ → Option (List ℕ) → Option ℕ → List Payload
announcement a node_id port target none = []
announcement a node_id port target (some ip) =
    let registration = register (record {
      node_id = node_id;
      public_ip = ip_to_string (octets ip);
      public_port = port;
      local_ip = local_ip;
    }) in
    if a.registers
    then registration ∷ (elim target [
      | none ↦ []
      | some target_pub ↦ if a.opens && a.dialing.connects then dial node_id target_pub ∷ [] else []
    ])
    else []

abbrev at_port : ℕ → Option ℕ → Option SocketAddr
at_port port none = none
at_port port (some ip) = some (record { port = port; ip = ip })

public_socket-reach :
    (a : MapAnswers) (stun : Option SocketAddr) (port : ℕ)
    → public_socket (map_external_port a port []).0 stun port ≡ at_port port (reach a stun)
unfolding map_external_port
public_socket-reach a stun port =
    by_answers a.gateway a.bound a.connected a.local_ip a.adds a.external_ip stun
  where
    by_stun : (stun : Option SocketAddr) → stun_socket stun port ≡ at_port port (or_else none stun)
    by_stun none = refl
    by_stun (some public_addr) = refl

    by_answers :
        (gateway bound connected : Bool) (local : Option IpAddr) (adds : Bool)
        (external_ip : Option IpAddr) (stun : Option SocketAddr)
        → let a1 : MapAnswers = record {
          gateway = gateway;
          bound = bound;
          connected = connected;
          local_ip = local;
          adds = adds;
          external_ip = external_ip;
        } in
          public_socket (map_external_port a1 port []).0 stun port ≡ at_port port (reach a1 stun)
    by_answers false bound connected local adds external_ip stun = by_stun stun
    by_answers true false connected local adds external_ip stun = by_stun stun
    by_answers true true false local adds external_ip stun = by_stun stun
    by_answers true true true none adds external_ip stun = by_stun stun
    by_answers true true true (some (v6 ip)) adds external_ip stun = by_stun stun
    by_answers true true true (some (v4 ip)) false external_ip stun = by_stun stun
    by_answers true true true (some (v4 ip)) true none stun = by_stun stun
    by_answers true true true (some (v4 ip)) true (some (v6 ext)) stun = by_stun stun
    by_answers true true true (some (v4 ip)) true (some (v4 ext)) stun = refl

announce-announcement :
    (a : NatAnswers) (node_id : List ℕ) (port : ℕ) (target : Option (List ℕ)) (o : Option ℕ)
    → announce a node_id target (at_port port o) ≡ announcement a node_id port target o
unfolding start_registration dial_peer
announce-announcement a node_id port target none = refl
announce-announcement a node_id port target (some ip) = ground arith

-- Whatever the network answers, the messages of a whole run of the task are these: none if neither
-- the router nor STUN gives an address or the server cannot be reached; or else a registration of
-- the node under that address, with the port of the endpoint, also where STUN saw another, and with
-- 127.0.0.1 as the local address; and after it, if it succeeds and there is a peer to dial and the
-- server can be reached again, the request for that peer.
pub nat_task-messages :
    (a : NatAnswers) (node_id : List ℕ) (port : ℕ) (target : Option (List ℕ))
    → messages (nat_task a node_id port target)
      ≡ announcement a node_id port target (reach a.upnp (discovered (discover_public_ip a.stun)))
unfolding nat_task
nat_task-messages a node_id port target =
    let (mapped, calls) = map_external_port a.upnp port [] in
    let told =
      announce a node_id target
        (public_socket mapped (discovered (discover_public_ip a.stun)) port) in
    messages-append (map routed calls) (flag_if mapped ++ map signaled told)
    ∙ ap (λ ps. ps ++ messages (flag_if mapped ++ map signaled told)) (messages-routed calls)
    ∙ messages-append (flag_if mapped) (map signaled told)
    ∙ ap (λ ps. ps ++ messages (map signaled told)) (messages-flag_if mapped)
    ∙ messages-signaled told
    ∙ ap (announce a node_id target)
        (public_socket-reach a.upnp (discovered (discover_public_ip a.stun)) port)
    ∙ announce-announcement a node_id port target
        (reach a.upnp (discovered (discover_public_ip a.stun)))
