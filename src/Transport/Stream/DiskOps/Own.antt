-- ===== src/Transport/Stream/DiskOps/Own.antt =====
-- All operations of a stream with a whole transfer are on the file that its manifest names.
use decentis.Prelude.{
  ℕ, zero, suc, ◌+◌, ◌<◌, ◌^◌, Bool, true, false, List, [], ◌++◌, Option, some, none, length, take,
  ltb, leb, get_elem?, if◌then◌else◌, ◌≡◌, refl, ap, ◌∙◌, arith, append_assoc,
}
use decentis.Transport.Frame.{type_file_manifest, type_file_chunk_payload}
use decentis.FileRelay.Manifest.{FileManifest, ChunkPayload, Postcard, chunk_size}
use decentis.FileRelay.Slice.{slice, length-slice}
use decentis.FileRelay.Disk.{AllOn, AllOn-append}
use decentis.FileRelay.Writer.{DiskWriter, Fault, no_fault, write_chunk}
use decentis.Transport.Stream.Receive.{waiting, Receiver, go, break, read_or_break, try_read, turn}
use decentis.Transport.Stream.Wire.{
  Encodes, EncodesHeaders, frame, header_of, chunk_wire, chunks_wire, transfer_wire,
}
use decentis.Transport.Stream.Receiving.{with_frame-frame, turn-manifest, turn-chunk, after_chunk}
use decentis.Transport.Stream.Transfer.{new-no_fault, new-manifest, write_chunk-manifest}
use decentis.Transport.Stream.DiskOps.{
  fault_of, unless_marked, open_ops, store_ops, write_ops, payload_ops, dispatch_ops, ops_of,
  turn_ops, serve_ops,
}

module _ (file_of : List ℕ → ℕ) where
  open_ops-AllOn :
      (fault : Fault) (m : FileManifest) → AllOn (file_of m.file_name) (open_ops file_of fault m)
  open_ops-AllOn fault m = ground arith

  store_ops-AllOn :
      (fault : Fault) (w : DiskWriter) (i : ℕ) (payload : List ℕ)
      → AllOn (file_of w.manifest.file_name) (store_ops file_of fault w i payload)
  store_ops-AllOn fault w i payload = ground arith

  write_ops-AllOn :
      (fault : Fault) (w : DiskWriter) (i : ℕ) (payload : List ℕ)
      → AllOn (file_of w.manifest.file_name) (write_ops file_of fault w i payload)
  write_ops-AllOn fault w i payload =
      by_range (leb w.manifest.total_chunks i) (get_elem? w.received_chunks i)
    where
      by_range :
          (out : Bool) (mark : Option Bool)
          → AllOn
              (file_of w.manifest.file_name)
              (if out then [] else unless_marked mark (store_ops file_of fault w i payload))
      by_range true mark = tt
      by_range false none = tt
      by_range false (some true) = tt
      by_range false (some false) = store_ops-AllOn fault w i payload

module _ (manifests : Postcard FileManifest) (payloads : Postcard ChunkPayload)
    (header_bytes : ChunkPayload → List ℕ) (encodes : EncodesHeaders payloads header_bytes)
    (content : List ℕ) (file_of : List ℕ → ℕ) where
  turn_ops-frame :
      (frame_type seq_num : ℕ) (body rest : List ℕ) (r : Receiver)
      → frame_type < 256
      → seq_num < 2 ^ 32
      → length body < 2 ^ 32
      → r.input ≡ frame frame_type seq_num body ++ rest
      → turn_ops file_of manifests payloads r
        ≡ dispatch_ops file_of manifests payloads frame_type body (record r { input = rest })
  unfolding turn_ops
  turn_ops-frame frame_type seq_num body rest r type_lt seq_lt body_lt at = ap ops_of (
      with_frame-frame (λ t b r1. go (dispatch_ops file_of manifests payloads t b r1) r1) frame_type
        seq_num body rest r type_lt seq_lt body_lt at)

  turn_ops-end : (r : Receiver) → r.input ≡ [] → turn_ops file_of manifests payloads r ≡ []
  unfolding turn_ops read_or_break try_read
  turn_ops-end r e = rw e refl

  turn-end :
      (r : Receiver) → r.input ≡ [] → turn manifests payloads r ≡ break (record r { input = [] })
  unfolding turn read_or_break try_read
  turn-end r e = rw e refl

  payload_ops-AllOn :
      (r : Receiver) (w : DiskWriter) (meta : Option ChunkPayload)
      → AllOn (file_of w.manifest.file_name) (payload_ops file_of manifests payloads r w meta)
  payload_ops-AllOn r w none = tt
  payload_ops-AllOn r w (some meta) = by_length (ltb (length r.input) meta.payload_length)
    where
      by_length :
          (short : Bool)
          → AllOn (file_of w.manifest.file_name) (
              if short
              then []
              else write_ops file_of
                  (fault_of r.faults)
                  w
                  meta.chunk_index
                  (take meta.payload_length r.input))
      by_length true = tt
      by_length false =
          write_ops-AllOn file_of (fault_of r.faults) w meta.chunk_index
            (take meta.payload_length r.input)

  chunk-AllOn :
      (w : DiskWriter) (payload_buf : List ℕ) (r : Receiver)
      → r.writer ≡ some w
      → AllOn
          (file_of w.manifest.file_name)
          (dispatch_ops file_of manifests payloads type_file_chunk_payload payload_buf r)
  unfolding dispatch_ops
  chunk-AllOn w payload_buf r has = rw has (payload_ops-AllOn r w (payloads.from_bytes payload_buf))

  serve_ops-go :
      (fuel : ℕ) (r : Receiver) {r' : Receiver}
      → turn manifests payloads r ≡ go tt r'
      → serve_ops file_of manifests payloads (suc fuel) r
        ≡ turn_ops file_of manifests payloads r ++ serve_ops file_of manifests payloads fuel r'
  unfolding serve_ops
  serve_ops-go fuel r e = rw (e, serve_ops) refl

  serve_ops-end :
      (fuel : ℕ) (r : Receiver) → r.input ≡ [] → serve_ops file_of manifests payloads fuel r ≡ []
  unfolding serve_ops
  serve_ops-end zero r e = refl
  serve_ops-end (suc fuel) r e = rw (turn-end r e, turn_ops-end r e, serve_ops) refl

  chunks-AllOn :
      (n i fuel : ℕ) (w : DiskWriter) (r : Receiver)
      → i + n < 2 ^ 32
      → r.writer ≡ some w
      → r.faults ≡ []
      → r.input ≡ chunks_wire header_bytes content i n
      → AllOn (file_of w.manifest.file_name) (serve_ops file_of manifests payloads fuel r)
  unfolding chunks_wire
  chunks-AllOn n i zero w r small has calm at = unfold serve_ops in tt
  chunks-AllOn zero i (suc fuel) w r small has calm at = rw (serve_ops-end (suc fuel) r at) tt
  chunks-AllOn (suc n) i (suc fuel) w r small has calm at =
      let rest = chunks_wire header_bytes content (i + 1) n in
      let header = header_of header_bytes content i in
      let turned =
        turn-chunk manifests payloads header_bytes encodes content w i rest r (omega arith) has calm
          at in
      let w' = (write_chunk no_fault w i (slice chunk_size content i)).1 in
      let later =
        chunks-AllOn n (i + 1) fuel w'
          (after_chunk manifests payloads header_bytes encodes content w i rest r) (omega arith)
          refl calm refl in
      let named = write_chunk-manifest no_fault w i (slice chunk_size content i) in
      let short =
        (encodes header (omega arith) (omega (arith, length-slice chunk_size i content))).short in
      let framed =
        turn_ops-frame type_file_chunk_payload i (header_bytes header)
          (slice chunk_size content i ++ rest) r (omega arith) (omega arith) short
          (at ∙ split_chunk i rest) in
      rw (serve_ops-go fuel r turned, framed)
        (AllOn-append (file_of w.manifest.file_name) _ _
          (chunk-AllOn w (header_bytes header)
            (record r { input = slice chunk_size content i ++ rest }) has)
          (rw named at later))
    where
      split_chunk :
          (i : ℕ) (rest : List ℕ)
          → chunk_wire header_bytes content i ++ rest
            ≡ frame type_file_chunk_payload i (header_bytes (header_of header_bytes content i))
              ++ (slice chunk_size content i ++ rest)
      split_chunk i rest =
          unfold chunk_wire in
          append_assoc
            (frame type_file_chunk_payload i (header_bytes (header_of header_bytes content i)))
            (slice chunk_size content i) rest

  pub transfer-AllOn :
      (m : FileManifest) (manifest_bytes : List ℕ) (fuel : ℕ)
      → Encodes manifests m manifest_bytes
      → m.total_chunks < 2 ^ 32
      → AllOn (file_of m.file_name) (
          serve_ops file_of manifests payloads fuel
            (waiting (transfer_wire header_bytes content manifest_bytes m.total_chunks)))
  unfolding transfer_wire
  transfer-AllOn m manifest_bytes zero coded small = unfold serve_ops in tt
  transfer-AllOn m manifest_bytes (suc fuel) coded small =
      let (w, made) = new-no_fault m in
      let rest = chunks_wire header_bytes content 0 m.total_chunks in
      let start = waiting (frame type_file_manifest 0 manifest_bytes ++ rest) in
      let turned =
        turn-manifest manifests payloads header_bytes encodes content m manifest_bytes rest start
          coded refl made refl in
      let framed =
        turn_ops-frame type_file_manifest 0 manifest_bytes rest start (omega arith) (omega arith)
          coded.short refl in
      let later =
        chunks-AllOn m.total_chunks 0 fuel w (record start { input = rest; writer = some w })
          (omega arith) refl refl refl in
      rw (serve_ops-go fuel start turned, framed)
        (AllOn-append (file_of m.file_name) _ _ (manifest-AllOn (record start { input = rest }))
          (rw (new-manifest no_fault m made) at later))
    where
      manifest-AllOn :
          (r : Receiver)
          → AllOn
              (file_of m.file_name)
              (dispatch_ops file_of manifests payloads type_file_manifest manifest_bytes r)
      manifest-AllOn r =
          unfold dispatch_ops in rw coded.decoded (open_ops-AllOn file_of (fault_of r.faults) m)
