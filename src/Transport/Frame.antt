-- ===== src/Transport/Frame.antt =====
-- daemon/src/transport/frame.rs: the header of ten bytes. A `Buf` is the list of the bytes that
-- remain, and a `BufMut` the list of the bytes written; reading from an empty `Buf` panics.
pub mod Codec
use decentis.Prelude.{
  ℕ, ◌%◌, ◌<◌, ◌^◌, Bool, true, false, List, [], ◌∷◌, ◌++◌, length, ltb, ◌==◌, not, if◌then◌else◌,
  u16_to_be_bytes, u32_to_be_bytes, u16_from_be_bytes, u32_from_be_bytes,
}

abbrev pub magic_byte : ℕ
magic_byte = 0x49

abbrev pub protocol_version : ℕ
protocol_version = 0x01

abbrev pub type_handshake_init : ℕ
type_handshake_init = 0x01

abbrev pub type_handshake_resp : ℕ
type_handshake_resp = 0x02

abbrev pub type_keepalive_ping : ℕ
type_keepalive_ping = 0x03

abbrev pub type_l3_tun_datagram : ℕ
type_l3_tun_datagram = 0x04

abbrev pub type_file_manifest : ℕ
type_file_manifest = 0x05

abbrev pub type_file_chunk_payload : ℕ
type_file_chunk_payload = 0x06

abbrev pub type_file_chunk_ack : ℕ
type_file_chunk_ack = 0x07

abbrev pub type_relay_wrapper : ℕ
type_relay_wrapper = 0x08

abbrev pub flag_priority_high : ℕ
flag_priority_high = 0b0000_0001

abbrev pub flag_compressed_zstd : ℕ
flag_compressed_zstd = 0b0000_0010

pub record FrameHeader : Type 0 where
  pub frame_type : ℕ
  pub flags : ℕ
  pub stream_id : ℕ
  pub seq_num : ℕ

-- The fields fit their machine types.
pub record InRange (h : FrameHeader) : Type 0 where
  pub frame_type_lt : h.frame_type < 256
  pub flags_lt : h.flags < 256
  pub stream_id_lt : h.stream_id < 2 ^ 16
  pub seq_num_lt : h.seq_num < 2 ^ 32

abbrev put_u8 : List ℕ → ℕ → List ℕ
put_u8 buf n = buf ++ (n % 256 ∷ [])

abbrev put_u16 : List ℕ → ℕ → List ℕ
put_u16 buf n = buf ++ u16_to_be_bytes n

abbrev put_u32 : List ℕ → ℕ → List ℕ
put_u32 buf n = buf ++ u32_to_be_bytes n

unfoldable pub encode : FrameHeader → List ℕ → List ℕ
encode h buf =
    let buf1 = put_u8 buf magic_byte in
    let buf2 = put_u8 buf1 protocol_version in
    let buf3 = put_u8 buf2 h.frame_type in
    let buf4 = put_u8 buf3 h.flags in let buf5 = put_u16 buf4 h.stream_id in put_u32 buf5 h.seq_num

pub data DecodeError : Type 0 where
  too_small invalid_magic protocol_mismatch : DecodeError

-- What a reader of a `Buf` does, with the bytes that remain after it.
pub data Read {ℓ} (A : Type ℓ) : Type ℓ where
  done : A → List ℕ → Read A
  failed : DecodeError → List ℕ → Read A
  panicked : Read A

abbrev pub Reader : Type 0 → Type 0
Reader A = List ℕ → Read A

infixl 5 ◌>>=◌ ◌>>◌
abbrev pub ◌>>=◌ : {A B : Type 0} → Reader A → (A → Reader B) → Reader B
◌>>=◌ m k buf = elim (m buf) [
  | done a rest ↦ k a rest
  | failed e rest ↦ failed e rest
  | panicked ↦ panicked
]

abbrev pub ◌>>◌ : {B : Type 0} → Reader (Unit {0}) → Reader B → Reader B
m >> k = m >>= λ _. k

abbrev give : {A : Type 0} → A → Reader A
give a buf = done a buf

abbrev bail_if : Bool → DecodeError → Reader (Unit {0})
bail_if true e buf = failed e buf
bail_if false e buf = done tt buf

abbrev remaining : Reader ℕ
remaining buf = done (length buf) buf

abbrev get_u8 : Reader ℕ
get_u8 [] = panicked
get_u8 (a ∷ rest) = done a rest

abbrev get_u16 : Reader ℕ
get_u16 (a ∷ b ∷ rest) = done (u16_from_be_bytes a b) rest
get_u16 _ = panicked

abbrev get_u32 : Reader ℕ
get_u32 (a ∷ b ∷ c ∷ d ∷ rest) = done (u32_from_be_bytes a b c d) rest
get_u32 _ = panicked

unfoldable pub decode : Reader FrameHeader
decode = do
  left ← remaining
  bail_if (ltb left 10) too_small
  magic ← get_u8
  bail_if (not (magic == magic_byte)) invalid_magic
  version ← get_u8
  bail_if (not (version == protocol_version)) protocol_mismatch
  frame_type ← get_u8
  flags ← get_u8
  stream_id ← get_u16
  seq_num ← get_u32
  give (record { frame_type = frame_type; flags = flags; stream_id = stream_id; seq_num = seq_num })
