-- ===== src/Transport/Stream/DiskOps/Dispatching.antt =====
-- What one frame of a stream does to the disk, against what it makes of the stream's writer.
use decentis.Prelude.{
  ℕ, ◌*◌, Bool, true, false, List, [], ◌∷◌, ◌++◌, Option, some, none, length, take, drop, ltb, leb,
  get_elem?, ◌==◌, if◌then◌else◌, ◌≡◌, inl, inr, refl, sym, ap, arith, Bool-cases,
}
use decentis.Transport.Frame.{type_file_manifest, type_file_chunk_payload}
use decentis.FileRelay.File.{write_all}
use decentis.FileRelay.Manifest.{FileManifest, ChunkPayload, Postcard}
use decentis.FileRelay.Disk.{DiskOp, write, Disk, apply_op, apply_ops}
use decentis.FileRelay.Writer
use decentis.FileRelay.Writer.{DiskWriter, WriteResult, Fault, no_fault, write_chunk, store}
use decentis.Transport.Stream.Receive.{
  Receiver, install, store_chunk, on_payload, Turn, go, break, on_manifest, on_chunk, dispatch,
}
use decentis.Transport.Stream.Transfer.{new-no_fault}
use decentis.Transport.Stream.DiskOps.{
  open_ops, write_ops, unless_marked, manifest_ops, payload_ops, chunk_ops, dispatch_ops,
}

==_self : (n : ℕ) → (n == n) ≡ true
==_self n = ground arith

pub apply_ops-append :
    (xs ys : List DiskOp) (d : Disk) → apply_ops (xs ++ ys) d ≡ apply_ops ys (apply_ops xs d)
unfolding apply_ops
apply_ops-append [] ys d = refl
apply_ops-append (op ∷ xs) ys d = apply_ops-append xs ys (apply_op op d)

module _ (file_of : List ℕ → ℕ) where
  -- The disk has the file of the writer as the writer takes it to be.
  abbrev pub Agrees : Disk → Option DiskWriter → Type 0
  Agrees d none = Unit {0}
  Agrees d (some w) = d (file_of w.manifest.file_name) ≡ w.file.content

  new-Agrees :
      (m : FileManifest) (d : Disk)
      → Agrees (apply_ops (open_ops file_of no_fault m) d) (Writer.new no_fault m)
  unfolding Writer.new write_all apply_ops
  new-Agrees m d = elim (Bool-cases (ltb 0 m.file_size)) [
    | inl sized ↦ rw (sized, ==_self (file_of m.file_name)) refl
    | inr empty_file ↦ rw (empty_file, ==_self (file_of m.file_name)) refl
  ]

  write_chunk-Agrees :
      (w : DiskWriter) (i : ℕ) (payload : List ℕ) (d : Disk)
      → Agrees d (some w)
      → Agrees
          (apply_ops (write_ops file_of no_fault w i payload) d)
          (some (write_chunk no_fault w i payload).1)
  unfolding write_chunk store write_all apply_ops
  write_chunk-Agrees w i payload d a =
      by_range (leb w.manifest.total_chunks i) (get_elem? w.received_chunks i)
    where
      by_range :
          (out : Bool) (mark : Option Bool)
          → let r : WriteResult × DiskWriter =
              if out then (Writer.out_of_bounds, w) else elim mark [
                | none ↦ (Writer.panicked, w)
                | some true ↦ (Writer.ok, w)
                | some false ↦ store no_fault w i payload
              ] in
            let ops =
              if out
              then []
              else unless_marked mark
                  (write (file_of w.manifest.file_name) (i * 65536) payload ∷ []) in
            Agrees (apply_ops ops d) (some r.1)
      by_range true mark = a
      by_range false none = a
      by_range false (some true) = a
      by_range false (some false) = rw (==_self (file_of w.manifest.file_name), a) refl

module _ (file_of : List ℕ → ℕ) (manifests : Postcard FileManifest)
    (payloads : Postcard ChunkPayload) where
  -- What a frame leads to, on a disk without faults.
  abbrev pub Follows : Disk → List DiskOp → Turn (Unit {0}) → Type 0
  Follows d ops (break r) = ⊥
  Follows d ops (go _ r) = (r.faults ≡ []) × Agrees file_of (apply_ops ops d) r.writer

  on_manifest-Follows :
      (payload_buf input : List ℕ) (writer : Option DiskWriter) (reports : ℕ) (d : Disk)
      → Agrees file_of d writer
      → let r : Receiver = record {
        input = input;
        writer = writer;
        faults = [];
        reports = reports;
      } in
        Follows d
          (manifest_ops file_of manifests payloads no_fault (manifests.from_bytes payload_buf))
          (on_manifest manifests payloads payload_buf r)
  unfolding on_manifest apply_ops
  on_manifest-Follows payload_buf input writer reports d a =
      by_decoded (manifests.from_bytes payload_buf)
    where
      r : Receiver
      r = record { input = input; writer = writer; faults = []; reports = reports }

      by_new :
          (m : FileManifest) (made : Option DiskWriter)
          → (w : DiskWriter) × (made ≡ some w)
          → Agrees file_of (apply_ops (open_ops file_of no_fault m) d) made
          → Follows d (open_ops file_of no_fault m) (install manifests payloads made r)
      by_new m none (w, e) agrees = cc
      by_new m (some w) e agrees = (refl, agrees)

      by_decoded :
          (decoded : Option FileManifest)
          → Follows d (manifest_ops file_of manifests payloads no_fault decoded) (elim decoded [
            | none ↦ go tt r
            | some m ↦ install manifests payloads (Writer.new no_fault m) r
          ])
      by_decoded none = (refl, a)
      by_decoded (some m) =
          by_new m (Writer.new no_fault m) (new-no_fault m) (new-Agrees file_of m d)

  on_chunk-Follows :
      (payload_buf input : List ℕ) (writer : Option DiskWriter) (reports : ℕ) (d : Disk)
      → Agrees file_of d writer
      → let r : Receiver = record {
        input = input;
        writer = writer;
        faults = [];
        reports = reports;
      } in
        Follows d
          (chunk_ops file_of manifests payloads r payload_buf writer)
          (on_chunk manifests payloads payload_buf r)
  unfolding on_chunk apply_ops
  on_chunk-Follows payload_buf input none reports d a = (refl, tt)
  on_chunk-Follows payload_buf input (some w) reports d a =
      by_decoded (payloads.from_bytes payload_buf)
    where
      r : Receiver
      r = record { input = input; writer = some w; faults = []; reports = reports }

      by_length :
          (meta : ChunkPayload) (short : Bool)
          → let read : Turn (Option (List ℕ)) =
              if short
              then go none (record r { input = [] })
              else go
                  (some (take meta.payload_length input))
                  (record r { input = drop meta.payload_length input }) in
            Follows d
              (if short
                then []
                else write_ops file_of no_fault w meta.chunk_index (take meta.payload_length input))
              (elim read [
                | go a r' ↦ store_chunk manifests payloads w meta a r'
                | break r' ↦ break r'
              ])
      by_length meta true = (refl, a)
      by_length meta false =
          (refl, write_chunk-Agrees file_of w meta.chunk_index (take meta.payload_length input) d a)

      by_decoded :
          (decoded : Option ChunkPayload)
          → Follows d
              (payload_ops file_of manifests payloads r w decoded)
              (on_payload manifests payloads w decoded r)
      by_decoded none = (refl, a)
      by_decoded (some meta) = by_length meta (ltb (length input) meta.payload_length)

  pub dispatch-Follows :
      (frame_type : ℕ) (payload_buf : List ℕ) (r : Receiver) (d : Disk)
      → r.faults ≡ []
      → Agrees file_of d r.writer
      → Follows d
          (dispatch_ops file_of manifests payloads frame_type payload_buf r)
          (dispatch manifests payloads frame_type payload_buf r)
  unfolding dispatch_ops dispatch apply_ops
  dispatch-Follows frame_type payload_buf r d calm a =
      rw (← same)
        (by_type (frame_type == type_file_manifest) (frame_type == type_file_chunk_payload))
    where
      r' : Receiver
      r' = record r { faults = [] }

      same : r' ≡ r
      same = ap (λ faults. record r { faults = faults }) (sym calm)

      by_type :
          (manifest chunk : Bool)
          → Follows d
              (if manifest
                then manifest_ops file_of manifests payloads no_fault
                    (manifests.from_bytes payload_buf)
                else (if chunk
                    then chunk_ops file_of manifests payloads r' payload_buf r'.writer
                    else []))
              (if◌then◌else◌ {A = Turn (Unit {0})} manifest
                (on_manifest manifests payloads payload_buf r')
                (if◌then◌else◌ {A = Turn (Unit {0})} chunk
                  (on_chunk manifests payloads payload_buf r')
                  (go tt r')))
      by_type true chunk = on_manifest-Follows payload_buf r.input r.writer r.reports d a
      by_type false true = on_chunk-Follows payload_buf r.input r.writer r.reports d a
      by_type false false = (refl, a)
