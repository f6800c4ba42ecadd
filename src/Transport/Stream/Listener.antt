-- ===== src/Transport/Stream/Listener.antt =====
-- The streams of a connection: whole transfers that are received at the same time.
use decentis.Prelude.{
  suc, [], ◌∷◌, none, ℕ, ◌<◌, ◌^◌, ◌≢◌, arith, true, List, Option, some, length, ◌≡◌, refl, sym,
  ◌∙◌,
}
use decentis.FileRelay.Manifest.{FileManifest, ChunkPayload, Postcard}
use decentis.FileRelay.Manifest.Count.{count_chunks_exact}
use decentis.FileRelay.Disk.{
  DiskOp, Disk, apply_ops, Interleaving, Spares, apply_ops-Interleaving, Interleaving-sym,
  AllOn-Spares, AllOn, Mixed, no_tasks, add_task, Spares-Interleaving,
}
use decentis.FileRelay.Writer.{DiskWriter, is_complete}
use decentis.FileRelay.Writer.Assemble.{Announces}
use decentis.Transport.Stream.Receive.{waiting, spawn_incoming_stream_listener, Receiver, serve}
use decentis.Transport.Stream.Wire.{Encodes, EncodesHeaders, transfer_wire}
use decentis.Transport.Stream.DiskOps.{serve_ops}
use decentis.Transport.Stream.DiskOps.Own.{transfer-AllOn}
use decentis.Transport.Stream.Parallel.{serve-Interleaving}

-- A file that is sent, with its manifest and what postcard makes of that.
pub record Transfer : Type 0 where
  pub content : List ℕ
  pub manifest : FileManifest
  pub manifest_bytes : List ℕ

module _ (file_of : List ℕ → ℕ) where
  -- The file that a transfer is written to.
  abbrev pub target : Transfer → ℕ
  target t = file_of t.manifest.file_name

  abbrev pub IsApart : Transfer → List Transfer → Type 0
  IsApart t [] = Unit {0}
  IsApart t (u ∷ us) = (target t ≢ target u) × IsApart t us

  -- No two names lead to the same file.
  abbrev pub AreApart : List Transfer → Type 0
  AreApart [] = Unit {0}
  AreApart (t ∷ ts) = IsApart t ts × AreApart ts

module _ (header_bytes : ChunkPayload → List ℕ) where
  abbrev pub wire_of : Transfer → List ℕ
  wire_of t = transfer_wire header_bytes t.content t.manifest_bytes t.manifest.total_chunks

  -- Each transfer comes whole on a stream of its own, and then the connection ends.
  abbrev pub arrivals : List Transfer → List (Option (List ℕ))
  arrivals [] = none ∷ []
  arrivals (t ∷ ts) = some (wire_of t) ∷ arrivals ts

module _ (manifests : Postcard FileManifest) where
  -- The manifest announces the content, and postcard reads it back.
  abbrev pub IsWhole : Transfer → Type 0
  IsWhole t = Encodes manifests t.manifest t.manifest_bytes × Announces t.content t.manifest

  abbrev pub AreWhole : List Transfer → Type 0
  AreWhole [] = Unit {0}
  AreWhole (t ∷ ts) = IsWhole t × AreWhole ts

module _ (file_of : List ℕ → ℕ) (manifests : Postcard FileManifest)
    (payloads : Postcard ChunkPayload) where
  -- What the task of a stream does to the disk: it has a round for each byte, and one more.
  abbrev pub task_ops : Receiver → List DiskOp
  task_ops r = serve_ops file_of manifests payloads (suc (length r.input)) r

  abbrev pub all_task_ops : List Receiver → List (List DiskOp)
  all_task_ops [] = []
  all_task_ops (r ∷ rs) = task_ops r ∷ all_task_ops rs

module _ (file_of : List ℕ → ℕ) (manifests : Postcard FileManifest)
    (payloads : Postcard ChunkPayload) (header_bytes : ChunkPayload → List ℕ) where
  -- The task ends with a complete writer, and the disk has the file.
  abbrev pub IsStored : Disk → Transfer → Type 0
  IsStored d t =
      (r' : Receiver) × (w : DiskWriter) × (serve manifests payloads
          (suc (length (wire_of header_bytes t))) (waiting (wire_of header_bytes t))
        ≡ some r')
      × (r'.writer ≡ some w)
      × (is_complete w ≡ true)
      × (d (target file_of t) ≡ t.content)

  abbrev pub AreStored : Disk → List Transfer → Type 0
  AreStored d [] = Unit {0}
  AreStored d (t ∷ ts) = IsStored d t × AreStored d ts

module _ (file_of : List ℕ → ℕ) (manifests : Postcard FileManifest)
    (payloads : Postcard ChunkPayload) (header_bytes : ChunkPayload → List ℕ)
    (encodes : EncodesHeaders payloads header_bytes) where
  few : (t : Transfer) → IsWhole manifests t → t.manifest.total_chunks < 2 ^ 32
  few t whole =
      let a = whole.1 in
      omega (arith, a.total_chunks_eq, a.size_le, count_chunks_exact (length t.content) a.size_le)

  task_ops-AllOn :
      (t : Transfer)
      → IsWhole manifests t
      → AllOn
          (target file_of t)
          (task_ops file_of manifests payloads (waiting (wire_of header_bytes t)))
  task_ops-AllOn t whole =
      transfer-AllOn manifests payloads header_bytes encodes t.content file_of t.manifest
        t.manifest_bytes (suc (length (wire_of header_bytes t))) whole.0 (few t whole)

  others-Spares :
      (t : Transfer) (ts : List Transfer) (others : List DiskOp)
      → IsApart file_of t ts
      → AreWhole manifests ts
      → Mixed
          (all_task_ops file_of manifests payloads
            (spawn_incoming_stream_listener (arrivals header_bytes ts)))
          others
      → Spares (target file_of t) others
  unfolding spawn_incoming_stream_listener
  others-Spares t [] others apart whole no_tasks = tt
  others-Spares t (u ∷ us) others apart whole (add_task {ys = rest} mixed later) =
      Spares-Interleaving (target file_of t) mixed
        (AllOn-Spares (target file_of u) (target file_of t) _ apart.0 (task_ops-AllOn u whole.0))
        (others-Spares t us rest apart.1 whole.1 later)

  -- A task on another file changes nothing about the transfers that are stored.
  AreStored-mixed :
      (t : Transfer) (ts : List Transfer) (others all : List DiskOp) (d : Disk)
      → IsWhole manifests t
      → IsApart file_of t ts
      → Interleaving
          (task_ops file_of manifests payloads (waiting (wire_of header_bytes t)))
          others
          all
      → AreStored file_of manifests payloads header_bytes (apply_ops others d) ts
      → AreStored file_of manifests payloads header_bytes (apply_ops all d) ts
  AreStored-mixed t [] others all d whole apart mixed stored = tt
  AreStored-mixed t (u ∷ us) others all d whole apart mixed
        ((r', w, served, holds, complete, same), stored) =
      let spared =
        AllOn-Spares (target file_of t) (target file_of u) _ (λ e. apart.0 (sym e))
          (task_ops-AllOn t whole) in
      (
        (
          r',
          w,
          served,
          holds,
          complete,
          apply_ops-Interleaving (target file_of u) d d (Interleaving-sym mixed) spared refl ∙ same,
        ),
        AreStored-mixed t us others all d whole apart.1 mixed stored,
      )

  -- Any number of whole transfers, each over a stream of its own, of files of at most 2 ^ 48 -
  -- 65536 bytes whose names lead to different files, on a disk without faults: however the
  -- operations of their tasks on the disk are mixed, every task ends with a complete writer, and
  -- every file on the disk is the file sent. postcard is assumed to decode what it encodes, in less
  -- than 2 ^ 32 bytes.
  pub spawn_incoming_stream_listener-Mixed :
      (ts : List Transfer) (all : List DiskOp) (d : Disk)
      → AreWhole manifests ts
      → AreApart file_of ts
      → Mixed
          (all_task_ops file_of manifests payloads
            (spawn_incoming_stream_listener (arrivals header_bytes ts)))
          all
      → AreStored file_of manifests payloads header_bytes (apply_ops all d) ts
  unfolding spawn_incoming_stream_listener
  spawn_incoming_stream_listener-Mixed [] all d whole apart no_tasks = tt
  spawn_incoming_stream_listener-Mixed (t ∷ ts) all d whole apart
        (add_task {ys = others} mixed later) =
      (
        serve-Interleaving manifests payloads header_bytes encodes t.content file_of t.manifest
            t.manifest_bytes (suc (length (wire_of header_bytes t))) others all d whole.0.0
            whole.0.1 (omega arith) mixed (others-Spares t ts others apart.0 whole.1 later),
        AreStored-mixed t ts others all d whole.0 apart.0 mixed
            (spawn_incoming_stream_listener-Mixed ts others d whole.1 apart.1 later),
      )
