-- ===== src/Transport/Datagram.antt =====
-- daemon/src/transport/datagram.rs: the two tasks of the secure bridge. Each takes the list of
-- what its reads give, each with whether the write that follows is taken; a list that ends stands
-- for a task that waits. The results are the datagrams sent and the packets injected, in order.
pub mod Bridge
pub mod Adversary
use decentis.Prelude.{
  ℕ, Bool, true, false, List, [], ◌∷◌, ◌++◌, Option, some, none, ◌==◌, if◌then◌else◌,
}
use decentis.Transport.Frame
use decentis.Transport.Frame.{FrameHeader, Read, encode, decode, type_l3_tun_datagram}
use decentis.Crypto.Session.{
  SessionTx, SessionRx, DecryptResult, replay_dropped, decryption_failed, opened, encrypt, decrypt,
}

-- `cipher_buf` and `plain_buf`.
abbrev pub buffer_size : ℕ
buffer_size = 2000

abbrev pub l3_header : ℕ → FrameHeader
l3_header seq = record {
  frame_type = type_l3_tun_datagram;
  flags = 0;
  stream_id = 0;
  seq_num = seq;
}

pub data TunRead : Type 0 where
  packet : List ℕ → TunRead
  tun_error : TunRead

-- TUN to QUIC. The flag is whether `send_datagram` accepts; a refusal ends the task, a failed
-- encryption does not.
unfoldable pub tx_task : SessionTx → List (TunRead × Bool) → List (List ℕ)
tx_task tx [] = []
tx_task tx ((tun_error, sends) ∷ rest) = []
tx_task tx ((packet plaintext, sends) ∷ rest) =
    let (result, tx') = encrypt tx plaintext buffer_size in
    let later = tx_task tx' rest in
    elim result [
      | none ↦ later
      | some (seq, ciphertext) ↦
          if sends then (encode (l3_header seq) [] ++ ciphertext) ∷ later else []
    ]

pub data QuicRead : Type 0 where
  datagram : List ℕ → QuicRead
  disconnected : QuicRead

-- QUIC to TUN. The flag is whether the device takes the packet; a refusal ends the task. A
-- datagram that is malformed or of another type does not reach the session.
unfoldable pub rx_task : SessionRx → List (QuicRead × Bool) → List (List ℕ)
rx_task rx [] = []
rx_task rx ((disconnected, injects) ∷ rest) = []
rx_task rx ((datagram bytes, injects) ∷ rest) =
    let ignored = rx_task rx rest in
    elim (decode bytes) [
      | Read.panicked ↦ []
      | Read.failed e left ↦ ignored
      | Read.done header ciphertext ↦
          let (result, rx') = decrypt rx header.seq_num ciphertext buffer_size in
          let later = rx_task rx' rest in
          let injected : List (List ℕ) = elim result [
            | opened plaintext ↦ if injects then plaintext ∷ later else []
            | _ ↦ later
          ] in
          if header.frame_type == type_l3_tun_datagram then injected else ignored
    ]
