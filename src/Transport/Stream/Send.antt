-- ===== src/Transport/Stream/Send.antt =====
-- `send_file` of daemon/src/transport/stream.rs. The stream takes `room` more bytes before the
-- connection is lost. The progress channel accepts an update or has no reader any more, and the
-- speed in an update, the bits of an `f64`, is computed from the clock: both are parameters.
use decentis.Prelude.{
  ℕ, zero, suc, ◌+◌, ◌-◌, ◌%◌, Bool, true, false, ◌||◌, List, [], ◌∷◌, ◌++◌, Option, some, none,
  length, take, leb, ◌==◌, if◌then◌else◌, u32_to_be_bytes,
}
use decentis.Transport.Frame.{FrameHeader, encode, type_file_manifest, type_file_chunk_payload}
use decentis.FileRelay.Manifest.{FileManifest, ChunkPayload, Postcard}
use decentis.FileRelay.Chunker.{
  FileChunker, read_chunk, ChunkResult, chunk, out_of_bounds, unexpected_eof,
}

pub data TransferStatus : Type 0 where
  completed streaming : TransferStatus

pub record TransferProgress : Type 0 where
  pub transfer_id : List ℕ
  pub bytes_transferred : ℕ
  pub total_bytes : ℕ
  pub speed_mbps : ℕ
  pub status : TransferStatus

-- The sender's side: whether the connection opens a stream, the bytes on the stream, what it still
-- takes, and the updates sent.
pub record Sender : Type 0 where
  pub opens : Bool
  pub sent : List ℕ
  pub room : ℕ
  pub finished : Bool
  pub chunker : FileChunker
  pub bytes_sent : ℕ
  pub progress : List TransferProgress

pub data SendError : Type 0 where
  open_failed encode_failed write_failed read_failed : SendError

pub data SendResult (A : Type 0) : Type 0 where
  done : A → Sender → SendResult A
  failed : SendError → Sender → SendResult A

-- The header of a frame; `send_file` sets neither flags nor a stream number.
abbrev pub frame_header : ℕ → ℕ → FrameHeader
frame_header frame_type seq_num = record {
  frame_type = frame_type;
  flags = 0;
  stream_id = 0;
  seq_num = seq_num;
}

abbrev pub M : Type 0 → Type 0
M A = Sender → SendResult A

infixl 5 ◌>>=◌ ◌>>◌
abbrev pub ◌>>=◌ : {A B : Type 0} → M A → (A → M B) → M B
◌>>=◌ m k s = elim (m s) [ done a s' ↦ k a s' | failed e s' ↦ failed e s' ]

abbrev pub ◌>>◌ : {B : Type 0} → M (Unit {0}) → M B → M B
m >> k = m >>= λ _. k

unfoldable pub write_all : List ℕ → M (Unit {0})
write_all bytes s =
    if leb (length bytes) s.room
    then done tt (record s { sent = s.sent ++ bytes; room = s.room - length bytes })
    else failed write_failed (record s { sent = s.sent ++ take s.room bytes; room = 0 })

abbrev pub open_uni : M (Unit {0})
open_uni s = if s.opens then done tt s else failed open_failed s

-- A result of postcard under `?`.
abbrev pub encoded : Option (List ℕ) → M (List ℕ)
encoded none s = failed encode_failed s
encoded (some bytes) s = done bytes s

abbrev read_result : FileChunker → ChunkResult → M (ChunkPayload × List ℕ)
read_result c (chunk header bytes) s = done (header, bytes) (record s { chunker = c })
read_result c out_of_bounds s = failed read_failed (record s { chunker = c })
read_result c unexpected_eof s = failed read_failed (record s { chunker = c })

unfoldable pub next_chunk : ℕ → M (ChunkPayload × List ℕ)
next_chunk i s = let (result, c) = read_chunk s.chunker i in read_result c result s

-- Header, length and body of a frame, each written by its own call.
unfoldable pub write_frame : ℕ → ℕ → List ℕ → M (Unit {0})
write_frame frame_type seq_num body = do
  write_all (encode (frame_header frame_type seq_num) [])
  write_all (u32_to_be_bytes (length body))
  write_all body

abbrev count_bytes : ℕ → M (Unit {0})
count_bytes n s = done tt (record s { bytes_sent = s.bytes_sent + n })

abbrev pub finish : M (Unit {0})
finish s = done tt (record s { finished = true })

module _ (manifests : Postcard FileManifest) (payloads : Postcard ChunkPayload) (speed : ℕ → ℕ → ℕ)
    (accepts : ℕ → Bool) where
  unfoldable pub progress_update : ℕ → ℕ → Sender → TransferProgress
  progress_update total_chunks i s = record {
    transfer_id = s.chunker.manifest.transfer_id;
    bytes_transferred = s.bytes_sent;
    total_bytes = s.chunker.manifest.file_size;
    speed_mbps = speed i s.bytes_sent;
    status = if i == total_chunks - 1 then completed else streaming;
  }

  -- An update after every fiftieth chunk and after the last; the answer is whether to go on.
  unfoldable pub report : ℕ → ℕ → M Bool
  unfolding progress_update
  report total_chunks i s =
      if i % 50 == 0 || i == total_chunks - 1
      then (if accepts i
          then done true
              (record s { progress = s.progress ++ (progress_update total_chunks i s ∷ []) })
          else done false s)
      else done true s

  -- One round of the loop.
  unfoldable pub send_chunk : ℕ → ℕ → M Bool
  send_chunk total_chunks i = do
    (header, bytes) ← next_chunk i
    meta ← encoded (payloads.to_bytes header)
    write_frame type_file_chunk_payload i meta
    write_all bytes
    count_bytes (length bytes)
    report total_chunks i

  -- The rounds from `i` on, as many as are left; a lost reader of the updates ends them.
  unfoldable pub send_chunks : ℕ → ℕ → ℕ → M (Unit {0})
  send_chunks total_chunks zero i s = done tt s
  send_chunks total_chunks (suc left) i s = elim (send_chunk total_chunks i s) [
    | done true s' ↦ send_chunks total_chunks left (i + 1) s'
    | done false s' ↦ done tt s'
    | failed e s' ↦ failed e s'
  ]

  unfoldable pub send_file : FileManifest → M (Unit {0})
  send_file manifest = do
    open_uni
    manifest_bytes ← encoded (manifests.to_bytes manifest)
    write_frame type_file_manifest 0 manifest_bytes
    send_chunks manifest.total_chunks manifest.total_chunks 0
    finish
