-- ===== src/Transport/Stream/Wire.antt =====
-- The bytes of a whole transfer, described without either side's code.
use decentis.Prelude.{
  ℕ, zero, suc, ◌+◌, ◌≤◌, ◌<◌, ◌^◌, List, [], ◌++◌, some, length, u32_to_be_bytes, ◌≡◌, arith,
  length-append,
}
use decentis.Transport.Frame.{encode, type_file_manifest, type_file_chunk_payload}
use decentis.Transport.Frame.Codec.{length-encode}
use decentis.Transport.Stream.Send.{frame_header}
use decentis.FileRelay.Manifest.{ChunkPayload, Postcard, chunk_size}
use decentis.FileRelay.Slice.{slice}

-- What postcard promises of one value: it is encoded, and decoded again; and the encoding is short
-- enough for the length field of a frame.
pub record Encodes {A : Type 0} (p : Postcard A) (a : A) (bytes : List ℕ) : Type 0 where
  pub encoded : p.to_bytes a ≡ some bytes
  pub decoded : p.from_bytes bytes ≡ some a
  pub short : length bytes < 2 ^ 32

-- The same of every chunk header that a transfer can need.
abbrev pub EncodesHeaders : Postcard ChunkPayload → (ChunkPayload → List ℕ) → Type 0
EncodesHeaders p bytes =
    (h : ChunkPayload)
    → h.chunk_index < 2 ^ 32
    → h.payload_length ≤ chunk_size
    → Encodes p h (bytes h)

-- Header, length field and body.
unfoldable pub frame : ℕ → ℕ → List ℕ → List ℕ
frame frame_type seq_num body =
    encode (frame_header frame_type seq_num) [] ++ (u32_to_be_bytes (length body) ++ body)

pub length-frame :
    (frame_type seq_num : ℕ) (body : List ℕ)
    → length (frame frame_type seq_num body) ≡ 14 + length body
unfolding frame
length-frame frame_type seq_num body = omega (
  arith,
  length-append (encode (frame_header frame_type seq_num) [])
      (u32_to_be_bytes (length body) ++ body),
  length-append (u32_to_be_bytes (length body)) body,
  length-encode (frame_header frame_type seq_num),
)

module _ (header_bytes : ChunkPayload → List ℕ) (content : List ℕ) where
  abbrev pub header_of : ℕ → ChunkPayload
  header_of i = record { chunk_index = i; payload_length = length (slice chunk_size content i) }

  -- A chunk: a frame with its header, and behind the frame its bytes.
  unfoldable pub chunk_wire : ℕ → List ℕ
  chunk_wire i =
      frame type_file_chunk_payload i (header_bytes (header_of i)) ++ slice chunk_size content i

  pub length-chunk_wire_pos : (i : ℕ) → 0 < length (chunk_wire i)
  unfolding chunk_wire
  length-chunk_wire_pos i = omega (
    arith,
    length-append (frame type_file_chunk_payload i (header_bytes (header_of i)))
        (slice chunk_size content i),
    length-frame type_file_chunk_payload i (header_bytes (header_of i)),
  )

  unfoldable pub chunks_wire : ℕ → ℕ → List ℕ
  chunks_wire i zero = []
  chunks_wire i (suc n) = chunk_wire i ++ chunks_wire (i + 1) n

  unfoldable pub transfer_wire : List ℕ → ℕ → List ℕ
  transfer_wire manifest_bytes total_chunks =
      frame type_file_manifest 0 manifest_bytes ++ chunks_wire 0 total_chunks
