-- ===== src/Transport/Stream/Receive.antt =====
-- The task of `spawn_incoming_stream_listener` in daemon/src/transport/stream.rs that serves one
-- stream. `input` holds the bytes that are still to come before the stream ends; a read that asks
-- for more takes them all and fails. `faults` says how each use of the disk ends, in order.
use decentis.Prelude.{
  ℕ, zero, suc, ◌+◌, List, [], ◌∷◌, Option, some, none, length, take, drop, ltb, ◌==◌,
  if◌then◌else◌, u32_from_be_bytes,
}
use decentis.Transport.Frame.{
  FrameHeader, Read, decode, type_file_manifest, type_file_chunk_payload,
}
use decentis.FileRelay.Manifest.{FileManifest, ChunkPayload, Postcard}
use decentis.FileRelay.Writer
use decentis.FileRelay.Writer.{DiskWriter, Fault, no_fault, write_chunk, is_complete}

pub record Receiver : Type 0 where
  pub input : List ℕ
  pub writer : Option DiskWriter
  pub faults : List Fault
  -- how often the task has logged that a file is complete
  pub reports : ℕ

-- One turn of the loop: what is read, or the `break` out of it.
pub data Turn (A : Type 0) : Type 0 where
  go : A → Receiver → Turn A
  break : Receiver → Turn A

abbrev pub M : Type 0 → Type 0
M A = Receiver → Turn A

infixl 5 ◌>>=◌ ◌>>◌
abbrev pub ◌>>=◌ : {A B : Type 0} → M A → (A → M B) → M B
◌>>=◌ m k r = elim (m r) [ go a r' ↦ k a r' | break r' ↦ break r' ]

abbrev pub ◌>>◌ : {B : Type 0} → M (Unit {0}) → M B → M B
m >> k = m >>= λ _. k

-- `read_exact`: `none` is its error.
unfoldable pub try_read : ℕ → M (Option (List ℕ))
try_read n r =
    if ltb (length r.input) n
    then go none (record r { input = [] })
    else go (some (take n r.input)) (record r { input = drop n r.input })

abbrev pub or_break : Option (List ℕ) → M (List ℕ)
or_break none r = break r
or_break (some bytes) r = go bytes r

-- A read whose failure ends the task.
unfoldable pub read_or_break : ℕ → M (List ℕ)
unfolding try_read
read_or_break n = try_read n >>= or_break

unfoldable pub decode_or_break : List ℕ → M FrameHeader
decode_or_break bytes r = elim (decode bytes) [
  | Read.done h rest ↦ go h r
  | Read.failed e rest ↦ break r
  | Read.panicked ↦ break r
]

abbrev pub size_of : List ℕ → ℕ
size_of (a ∷ b ∷ c ∷ d ∷ []) = u32_from_be_bytes a b c d
size_of _ = 0

abbrev pub next_fault : M Fault
next_fault r = elim r.faults [ [] ↦ go no_fault r | f ∷ fs ↦ go f (record r { faults = fs }) ]

abbrev pub continue_ : M (Unit {0})
continue_ r = go tt r

-- The reads of a turn: a whole frame is handed on.
abbrev pub with_frame : {A : Type 0} → (ℕ → List ℕ → M A) → M A
with_frame k = do
  header_buf ← read_or_break 10
  header ← decode_or_break header_buf
  size_buf ← read_or_break 4
  payload_buf ← read_or_break (size_of size_buf)
  k header.frame_type payload_buf

module _ (manifests : Postcard FileManifest) (payloads : Postcard ChunkPayload) where
  -- A writer that cannot be made leaves the one that was there.
  abbrev pub install : Option DiskWriter → M (Unit {0})
  install none r = go tt r
  install (some w) r = go tt (record r { writer = some w })

  unfoldable pub on_manifest : List ℕ → M (Unit {0})
  on_manifest payload_buf r = elim (manifests.from_bytes payload_buf) [
    | none ↦ continue_ r
    | some manifest ↦ (next_fault >>= λ fault. install (Writer.new fault manifest)) r
  ]

  abbrev pub keep_writer : DiskWriter → M (Unit {0})
  keep_writer w r =
      go tt
        (record r { writer = some w; reports = if is_complete w then r.reports + 1 else r.reports })

  -- An error of the write is logged; the check for completion follows in any case.
  abbrev pub store_chunk : DiskWriter → ChunkPayload → Option (List ℕ) → M (Unit {0})
  store_chunk w meta none = continue_
  store_chunk w meta (some raw_chunk) =
      next_fault >>= λ fault. keep_writer (write_chunk fault w meta.chunk_index raw_chunk).1

  abbrev pub on_payload : DiskWriter → Option ChunkPayload → M (Unit {0})
  on_payload w none = continue_
  on_payload w (some meta) = try_read meta.payload_length >>= store_chunk w meta

  abbrev pub with_writer : List ℕ → Option DiskWriter → M (Unit {0})
  with_writer payload_buf none = continue_
  with_writer payload_buf (some w) = on_payload w (payloads.from_bytes payload_buf)

  unfoldable pub on_chunk : List ℕ → M (Unit {0})
  unfolding try_read
  on_chunk payload_buf r = with_writer payload_buf r.writer r

  unfoldable pub dispatch : ℕ → List ℕ → M (Unit {0})
  dispatch frame_type payload_buf r =
      if frame_type == type_file_manifest
      then on_manifest payload_buf r
      else (if frame_type == type_file_chunk_payload then on_chunk payload_buf r else continue_ r)

  -- One turn of the loop.
  unfoldable pub turn : M (Unit {0})
  turn = do
    header_buf ← read_or_break 10
    header ← decode_or_break header_buf
    size_buf ← read_or_break 4
    payload_buf ← read_or_break (size_of size_buf)
    dispatch header.frame_type payload_buf

  -- The loop; `none` means that the fuel ran out.
  unfoldable pub serve : ℕ → Receiver → Option Receiver
  serve zero r = none
  serve (suc fuel) r = elim (turn r) [ go _ r' ↦ serve fuel r' | break r' ↦ some r' ]

-- The task of a stream on which these bytes come in, on a disk without faults.
abbrev pub waiting : List ℕ → Receiver
waiting input = record { input = input; writer = none; faults = []; reports = 0 }

-- The loop that accepts streams, by what each call gives: the bytes that come in on a stream, or
-- the end of the connection. Each stream gets a task of its own.
unfoldable pub spawn_incoming_stream_listener : List (Option (List ℕ)) → List Receiver
spawn_incoming_stream_listener [] = []
spawn_incoming_stream_listener (none ∷ rest) = []
spawn_incoming_stream_listener (some input ∷ rest) =
    waiting input ∷ spawn_incoming_stream_listener rest
