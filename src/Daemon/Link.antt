-- ===== src/Daemon/Link.antt =====
-- Two daemons meet: the inbound task of daemon/src/main.rs and its dialer, with the handshake and
-- the bridge that they start.
use decentis.Prelude.{
  ℕ, ◌<◌, ◌^◌, Bool, true, false, List, Option, some, none, length, ◌≡◌, ◌⊎◌, refl, ap, ◌∙◌, arith,
}
use decentis.Crypto.Identity.{Keypair, Ipv4Addr, derive_virtual_ip}
use decentis.Crypto.Identity.Text.{ip_to_string}
use decentis.Crypto.Session.{SessionTx, SessionRx, split_session}
use decentis.Crypto.Handshake.{Snow, Completes}
use decentis.Transport.Handshake.{
  piece, Result, ok, err, initiate_noise_handshake, respond_reply, respond_noise_handshake,
}
use decentis.Transport.Handshake.Complete.{
  sound, reply_of, respond_noise_handshake-ok, initiate_noise_handshake-ok,
}
use decentis.Transport.Datagram.{tx_task, rx_task}
use decentis.Transport.Datagram.Bridge.{
  from_tun, from_link, survivors, until_refused, AllFit, rx_task-tx_task,
}
use decentis.Nat.Signaling.{PeerFound}
use decentis.Daemon.{
  Codecs, Connection, PeerRegistry, get, insert, Outcome, established, dial_failed, dial_ok,
  Answers, connect_either, allows, is_target, register, on_incoming, on_dialed, on_rendezvous,
}
use decentis.Daemon.Registry.{same_refl, get-insert}

-- The outcome of a handshake, as the two tasks match on it.
abbrev pub proved_key : Result (SessionTx × SessionRx × List ℕ) → Option (List ℕ)
proved_key (ok (tx, rx, remote_pub)) = some remote_pub
proved_key (err e) = none

abbrev pub succeeded : Result (SessionTx × SessionRx) → Bool
succeeded (ok session) = true
succeeded (err e) = false

pub get-insert_self :
    (peers : PeerRegistry) (vip : List ℕ) (conn : Connection)
    → get (insert peers vip conn) vip ≡ some conn
get-insert_self peers vip conn = get-insert peers vip vip conn ∙ rw (same_refl vip) refl

on_incoming-allowed :
    (codecs : Codecs) (filter : Option (List ℕ)) (key : List ℕ) (conn : Connection)
    (peers : PeerRegistry) (vip : Ipv4Addr)
    → allows filter (codecs.encode64 key) ≡ true
    → derive_virtual_ip key ≡ some vip
    → on_incoming codecs filter (some conn) (some key) peers
      ≡ (established, insert peers (ip_to_string vip) conn)
unfolding on_incoming register
on_incoming-allowed codecs filter key conn peers vip allowed derived =
    ground (arith, allowed, derived)

on_rendezvous-registers :
    (codecs : Codecs) (target : Option (List ℕ)) (peer : PeerFound) (answers : Answers)
    (peers : PeerRegistry) (ip : ℕ) (key : List ℕ) (vip : Ipv4Addr) (conn : Connection)
    → codecs.parse_ip peer.public_ip ≡ some ip
    → is_target target peer.target_node_id ≡ true
    → codecs.decode64 peer.target_node_id ≡ some key
    → (answers.via_lan ≡ dial_ok conn)
      ⊎ ((answers.via_lan ≡ dial_failed) × (answers.via_public ≡ dial_ok conn))
    → answers.handshake ≡ true
    → derive_virtual_ip key ≡ some vip
    → ((on_rendezvous codecs target peer answers peers).1 ≡ established)
      × ((on_rendezvous codecs target peer answers peers).2 ≡ insert peers (ip_to_string vip) conn)
unfolding on_rendezvous on_dialed connect_either register
on_rendezvous-registers codecs target peer answers peers ip key vip conn p t k c h v =
    ground (arith, p, t, k, c, h, v)

module _ (codecs : Codecs) (snow : Snow) (ki kr : Keypair) (c : Completes snow 1024 ki kr) where
  -- What the two ends of the handshake return when their messages reach each other.
  abbrev pub initiated : Result (SessionTx × SessionRx)
  initiated =
      initiate_noise_handshake snow sound
        (λ init. reply_of snow ki kr c (respond_reply snow sound (piece init) kr)) ki kr.public

  abbrev pub responded : Result (SessionTx × SessionRx × List ℕ)
  responded = respond_noise_handshake snow sound (piece c.init) kr

  -- Node i was started with the key of node r and learns of it by a rendezvous; node r lets i's key
  -- in; one of i's two dials connects, and the messages of the handshake arrive whole. Then both
  -- register the other under the address of its key, and over the sessions that the handshake
  -- returns, of fewer than 2 ^ 32 packets of at most 1500 bytes in either direction those before the
  -- first whose datagram quinn refuses, as it does above the size that the path takes, come out of
  -- the other's device as they went in, in order, less those that the link loses; the devices take
  -- each packet. snow is assumed to complete the handshake, and base64 to decode what it encodes.
  pub connect_nodes :
      (filter : Option (List ℕ)) (peer : PeerFound) (answers : Answers)
      (peers_i peers_r : PeerRegistry) (conn_i conn_r : Connection) (ip : ℕ)
      (ps : List (List ℕ × Bool)) (lost : List Bool) {vip_i vip_r : Ipv4Addr}
      → codecs.decode64 (codecs.encode64 kr.public) ≡ some kr.public
      → allows filter (codecs.encode64 ki.public) ≡ true
      → peer.target_node_id ≡ codecs.encode64 kr.public
      → codecs.parse_ip peer.public_ip ≡ some ip
      → (answers.via_lan ≡ dial_ok conn_i)
        ⊎ ((answers.via_lan ≡ dial_failed) × (answers.via_public ≡ dial_ok conn_i))
      → answers.handshake ≡ succeeded initiated
      → derive_virtual_ip ki.public ≡ some vip_i
      → derive_virtual_ip kr.public ≡ some vip_r
      → length ps < 2 ^ 32
      → AllFit ps
      → let at_i = on_rendezvous codecs (some (codecs.encode64 kr.public)) peer answers peers_i in
        let at_r = on_incoming codecs filter (some conn_r) (proved_key responded) peers_r in
        (at_i.1 ≡ established)
        × (at_r.0 ≡ established)
        × (get at_i.2 (ip_to_string vip_r) ≡ some conn_i)
        × (get at_r.1 (ip_to_string vip_i) ≡ some conn_r)
        × (tx_i : SessionTx) × (rx_i : SessionRx) × (tx_r : SessionTx) × (rx_r : SessionRx)
        × (initiated ≡ ok (tx_i, rx_i))
        × (responded ≡ ok (tx_r, rx_r, ki.public))
        × (rx_task rx_r (from_link (survivors lost (tx_task tx_i (from_tun ps))))
            ≡ survivors lost (until_refused ps))
        × (rx_task rx_i (from_link (survivors lost (tx_task tx_r (from_tun ps))))
            ≡ survivors lost (until_refused ps))
  connect_nodes filter peer answers peers_i peers_r conn_i conn_r ip ps lost {vip_i} {vip_r} law
        allowed id parsed dialed shook derived_i derived_r few fit =
      let initiated_ok = initiate_noise_handshake-ok snow ki kr c in
      let responded_ok = respond_noise_handshake-ok snow ki kr c in
      let at_r =
        ap (λ o. on_incoming codecs filter (some conn_r) (proved_key o) peers_r) responded_ok
        ∙ on_incoming-allowed codecs filter ki.public conn_r peers_r vip_i allowed derived_i in
      let at_i =
        on_rendezvous-registers codecs (some (codecs.encode64 kr.public)) peer answers peers_i ip
          kr.public vip_r conn_i parsed (rw id (same_refl (codecs.encode64 kr.public))) (rw id law)
          dialed (shook ∙ ap succeeded initiated_ok) derived_r in
      (
        at_i.0,
        ap (λ (o : Outcome × PeerRegistry). o.0) at_r,
        rw at_i.1 (get-insert_self peers_i (ip_to_string vip_r) conn_i),
        rw at_r (get-insert_self peers_r (ip_to_string vip_i) conn_r),
        (split_session c.initiator_transport).0,
        (split_session c.initiator_transport).1,
        (split_session c.responder_transport).0,
        (split_session c.responder_transport).1,
        initiated_ok,
        responded_ok,
        rx_task-tx_task c.initiator_transport c.responder_transport ps lost c.to_responder few fit,
        rx_task-tx_task c.responder_transport c.initiator_transport ps lost c.to_initiator few fit,
      )
