-- ===== src/Transport/Stream/DiskOps.antt =====
-- The operations on the disk that the task of daemon/src/transport/stream.rs makes for one stream,
-- one by one: other streams of the connection have their own tasks, whose operations come in
-- between. `file_of` is the file that a name leads to in the directory.
pub mod Frames
pub mod Dispatching
pub mod Follow
pub mod Own
use decentis.Prelude.{
  ℕ, zero, suc, ◌-◌, ◌*◌, Bool, true, false, List, [], ◌∷◌, ◌++◌, Option, some, none, length, take,
  ltb, leb, get_elem?, ◌==◌, if◌then◌else◌,
}
use decentis.Transport.Frame.{type_file_manifest, type_file_chunk_payload}
use decentis.FileRelay.Manifest.{FileManifest, ChunkPayload, Postcard, chunk_size}
use decentis.FileRelay.Disk.{DiskOp, truncate, write}
use decentis.FileRelay.Writer.{DiskWriter, Fault, no_fault, at_open, at_seek, at_write, lost_write}
use decentis.Transport.Stream.Receive.{Receiver, Turn, go, break, with_frame, turn}

-- The fault of the next use of the disk.
abbrev pub fault_of : List Fault → Fault
fault_of [] = no_fault
fault_of (fault ∷ faults) = fault

-- `DiskWriter::new`: the open, and the byte at the end.
abbrev pub stretch_ops : ℕ → FileManifest → List ℕ → List DiskOp
stretch_ops f m bytes =
    truncate f ∷ (if ltb 0 m.file_size then write f (m.file_size - 1) bytes ∷ [] else [])

-- Only a chunk that is in range and not yet marked is written.
abbrev pub unless_marked : Option Bool → List DiskOp → List DiskOp
unless_marked (some false) ops = ops
unless_marked _ ops = []

abbrev pub ops_of : Turn (List DiskOp) → List DiskOp
ops_of (go ops r) = ops
ops_of (break r) = []

module _ (file_of : List ℕ → ℕ) where
  abbrev pub open_ops : Fault → FileManifest → List DiskOp
  open_ops at_open m = []
  open_ops at_seek m = truncate (file_of m.file_name) ∷ []
  open_ops (at_write n) m = stretch_ops (file_of m.file_name) m (take n (0 ∷ []))
  open_ops (lost_write n) m = truncate (file_of m.file_name) ∷ []
  open_ops no_fault m = stretch_ops (file_of m.file_name) m (0 ∷ [])

  abbrev pub store_ops : Fault → DiskWriter → ℕ → List ℕ → List DiskOp
  store_ops at_seek w i payload = []
  store_ops (at_write n) w i payload =
      write (file_of w.manifest.file_name) (i * chunk_size) (take n payload) ∷ []
  store_ops (lost_write n) w i payload =
      write (file_of w.manifest.file_name) (i * chunk_size) (take n payload) ∷ []
  store_ops _ w i payload = write (file_of w.manifest.file_name) (i * chunk_size) payload ∷ []

  abbrev pub write_ops : Fault → DiskWriter → ℕ → List ℕ → List DiskOp
  write_ops fault w i payload =
      if leb w.manifest.total_chunks i
      then []
      else unless_marked (get_elem? w.received_chunks i) (store_ops fault w i payload)

module _ (file_of : List ℕ → ℕ) (manifests : Postcard FileManifest)
    (payloads : Postcard ChunkPayload) where
  abbrev pub manifest_ops : Fault → Option FileManifest → List DiskOp
  manifest_ops fault none = []
  manifest_ops fault (some m) = open_ops file_of fault m

  abbrev pub payload_ops : Receiver → DiskWriter → Option ChunkPayload → List DiskOp
  payload_ops r w none = []
  payload_ops r w (some meta) =
      if ltb (length r.input) meta.payload_length
      then []
      else write_ops file_of (fault_of r.faults) w meta.chunk_index
          (take meta.payload_length r.input)

  abbrev pub chunk_ops : Receiver → List ℕ → Option DiskWriter → List DiskOp
  chunk_ops r payload_buf none = []
  chunk_ops r payload_buf (some w) = payload_ops r w (payloads.from_bytes payload_buf)

  unfoldable pub dispatch_ops : ℕ → List ℕ → Receiver → List DiskOp
  dispatch_ops frame_type payload_buf r =
      if frame_type == type_file_manifest
      then manifest_ops (fault_of r.faults) (manifests.from_bytes payload_buf)
      else (if frame_type == type_file_chunk_payload then chunk_ops r payload_buf r.writer else [])

  unfoldable pub turn_ops : Receiver → List DiskOp
  turn_ops r =
      ops_of
        (with_frame (λ frame_type payload_buf r1. go (dispatch_ops frame_type payload_buf r1) r1) r)

  -- The operations of the whole task, with the fuel of `serve`.
  unfoldable pub serve_ops : ℕ → Receiver → List DiskOp
  serve_ops zero r = []
  serve_ops (suc fuel) r =
      turn_ops r
      ++ (elim (turn manifests payloads r) [ go _ r' ↦ serve_ops fuel r' | break r' ↦ [] ])
