-- ===== src/Tests/Stream.antt =====
-- A transfer of daemon/src/transport/stream.rs, of a file of three bytes, with a concrete encoder.
use decentis.Prelude.{
  ℕ, ◌≤◌, Bool, true, false, List, [], ◌∷◌, ◌++◌, Option, some, none, length, u32_to_be_bytes,
  u32_from_be_bytes, ◌≡◌, refl, arith,
}
use decentis.Transport.Frame.{encode}
use decentis.Transport.Stream.Send.{Sender, done, send_file}
use decentis.Transport.Stream.Receive.{waiting, Receiver, serve}
use decentis.Transport.Stream.Wire.{
  Encodes, EncodesHeaders, frame, chunk_wire, chunks_wire, transfer_wire,
}
use decentis.Transport.Stream.Termination.{serve_total}
use decentis.Transport.Stream.Transfer.{send_file-serve}
use decentis.FileRelay.Manifest.{FileManifest, ChunkPayload, Postcard, chunk_size}
use decentis.FileRelay.Writer.{DiskWriter, is_complete}
use decentis.FileRelay.Slice.{slice}
use decentis.Tests.FileRelay.{source, announced, chunker, chunker-Describes}

-- A chunk header is written as its two numbers.
abbrev pub header_bytes : ChunkPayload → List ℕ
header_bytes h = u32_to_be_bytes h.chunk_index ++ u32_to_be_bytes h.payload_length

abbrev header_from_bytes : List ℕ → Option ChunkPayload
header_from_bytes (a ∷ b ∷ c ∷ d ∷ e ∷ f ∷ g ∷ i ∷ []) =
    some (record {
      chunk_index = u32_from_be_bytes a b c d;
      payload_length = u32_from_be_bytes e f g i;
    })
header_from_bytes _ = none

abbrev pub payloads : Postcard ChunkPayload
payloads = record { to_bytes = λ h. some (header_bytes h); from_bytes = header_from_bytes }

pub payloads-EncodesHeaders : EncodesHeaders payloads header_bytes
payloads-EncodesHeaders h index_lt length_le = record {
  encoded = refl;
  decoded = ground arith;
  short = omega arith;
}

-- A manifest with identifier, name and hash of one byte, and a size and a count below 256.
abbrev manifest_to_bytes : FileManifest → Option (List ℕ)
manifest_to_bytes m =
    some (m.transfer_id ++ (m.file_name ++ (m.file_size ∷ m.total_chunks ∷ m.blake3_root_hash)))

abbrev manifest_from_bytes : List ℕ → Option FileManifest
manifest_from_bytes (tid ∷ name ∷ size ∷ total ∷ hash ∷ []) = some (record {
  transfer_id = tid ∷ [];
  file_name = name ∷ [];
  file_size = size;
  manifest_chunk_size = chunk_size;
  total_chunks = total;
  blake3_root_hash = hash ∷ [];
})
manifest_from_bytes _ = none

abbrev pub manifests : Postcard FileManifest
manifests = record { to_bytes = manifest_to_bytes; from_bytes = manifest_from_bytes }

abbrev pub manifest_bytes : List ℕ
manifest_bytes = 1 ∷ b'a' ∷ 3 ∷ 1 ∷ 5 ∷ []

pub manifests-Encodes : Encodes manifests announced manifest_bytes
manifests-Encodes = record { encoded = refl; decoded = refl; short = omega arith }

abbrev pub speed : ℕ → ℕ → ℕ
speed i sent = 0

abbrev pub attends : ℕ → Bool
attends i = true

abbrev sender : Sender
sender = record {
  opens = true;
  sent = [];
  room = 100;
  finished = false;
  chunker = chunker;
  bytes_sent = 0;
  progress = [];
}

wire-fits : length (transfer_wire header_bytes source manifest_bytes 1) ≤ 100
unfolding transfer_wire chunks_wire chunk_wire frame encode slice
wire-fits = omega arith

send_file-serve_example :
    (s' : Sender) × (r' : Receiver) × (w : DiskWriter) × (send_file manifests payloads speed attends
        announced sender
      ≡ done tt s')
    × (serve manifests payloads 101 (waiting s'.sent) ≡ some r')
    × (r'.writer ≡ some w)
    × (is_complete w ≡ true)
    × (w.file.content ≡ source)
send_file-serve_example =
    send_file-serve manifests payloads header_bytes payloads-EncodesHeaders source speed attends
      manifest_bytes sender 101 manifests-Encodes chunker-Describes refl refl (λ i. refl) wire-fits
      (omega arith)

-- A stream that breaks off inside a header.
serve_total_example :
    (r' : Receiver) × (serve manifests payloads 4 (waiting (0x49 ∷ 1 ∷ 5 ∷ [])) ≡ some r')
serve_total_example = serve_total manifests payloads 4 (waiting (0x49 ∷ 1 ∷ 5 ∷ [])) (omega arith)
