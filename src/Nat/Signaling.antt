-- ===== src/Nat/Signaling.antt =====
-- daemon/src/nat/signaling.rs: the client of the signaling server. What the gRPC calls give is an
-- argument; the messages that go out are part of the results.
use decentis.Prelude.{
  ℕ, ◌/◌, ◌%◌, ◌^◌, Bool, true, false, List, [], ◌∷◌, Option, some, none, if◌then◌else◌,
}
use decentis.Crypto.Identity.{Ipv4Addr}
use decentis.Crypto.Identity.Text.{ip_to_string}
use decentis.Nat.Stun.{SocketAddr}

pub record PeerFound : Type 0 where
  pub target_node_id : List ℕ
  pub public_ip : List ℕ
  pub public_port : ℕ
  pub local_ip : List ℕ

pub record RegisterNode : Type 0 where
  pub node_id : List ℕ
  pub public_ip : List ℕ
  pub public_port : ℕ
  pub local_ip : List ℕ

pub data Payload : Type 0 where
  register : RegisterNode → Payload
  dial : List ℕ → List ℕ → Payload
  peer_found : PeerFound → Payload
  disconnect : List ℕ → Payload

pub data SignalingError : Type 0 where
  connect_failed call_failed refused : SignalingError

pub data SignalingResult : Type 0 where
  ok : SignalingResult
  err : SignalingError → SignalingResult

-- `Ipv4Addr::from` of the 32 bits of an address.
unfoldable pub octets : ℕ → Ipv4Addr
octets ip = record {
  a = ip / 2 ^ 24 % 256;
  b = ip / 2 ^ 16 % 256;
  c = ip / 2 ^ 8 % 256;
  d = ip % 256;
}

-- Whether the connection is made, and what the call answers: `none` is an error, and a message of
-- success or refusal otherwise. Opening the stream of a registration has no message.
pub record ServerAnswers : Type 0 where
  pub connects : Bool
  pub response : Option Bool

-- The message is out before the answer is known.
abbrev pub unary : ServerAnswers → Payload → SignalingResult × List Payload
unary a payload =
    if a.connects
    then (elim a.response [
      | none ↦ (err call_failed, payload ∷ [])
      | some false ↦ (err refused, payload ∷ [])
      | some true ↦ (ok, payload ∷ [])
    ])
    else (err connect_failed, [])

unfoldable pub start_registration :
    List ℕ → Bool → Bool → SocketAddr → List ℕ → SignalingResult × List Payload
start_registration node_id connects opens public_addr local_ip =
    let register_msg = register (record {
      node_id = node_id;
      public_ip = ip_to_string (octets public_addr.ip);
      public_port = public_addr.port;
      local_ip = local_ip;
    }) in
    if connects
    then (if opens then (ok, register_msg ∷ []) else (err call_failed, register_msg ∷ []))
    else (err connect_failed, [])

unfoldable pub dial_peer : List ℕ → ServerAnswers → List ℕ → SignalingResult × List Payload
dial_peer node_id a target_node_id = unary a (dial node_id target_node_id)

unfoldable pub disconnect_node : List ℕ → ServerAnswers → SignalingResult × List Payload
disconnect_node node_id a = unary a (disconnect node_id)

-- What the stream of a registration gives: a message, perhaps empty, or its end or an error.
pub data StreamRead : Type 0 where
  message : Option Payload → StreamRead
  ended : StreamRead

-- The task behind a registration: the peers found go on to the dialer.
unfoldable pub relay : List StreamRead → List PeerFound
relay [] = []
relay (ended ∷ rest) = []
relay (message (some (peer_found peer)) ∷ rest) = peer ∷ relay rest
relay (message payload ∷ rest) = relay rest
