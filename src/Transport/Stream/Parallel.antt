-- ===== src/Transport/Stream/Parallel.antt =====
-- Several streams at once: each has a task of its own, and they share the disk.
use decentis.Prelude.{ℕ, ◌<◌, true, List, Option, some, length, ◌≡◌, refl, sym, ap, ◌∙◌}
use mathlib.Core.Path.{subst}
use decentis.FileRelay.Manifest.{FileManifest, ChunkPayload, Postcard}
use decentis.FileRelay.Disk.{DiskOp, Disk, apply_ops, Interleaving, Spares, apply_ops-Interleaving}
use decentis.FileRelay.Writer.{DiskWriter, is_complete}
use decentis.FileRelay.Writer.Assemble.{Announces}
use decentis.Transport.Stream.Receive.{waiting, Receiver, serve}
use decentis.Transport.Stream.Wire.{Encodes, EncodesHeaders, transfer_wire}
use decentis.Transport.Stream.Transfer.{serve-transfer}
use decentis.Transport.Stream.DiskOps.{serve_ops}
use decentis.Transport.Stream.DiskOps.Dispatching.{Agrees}
use decentis.Transport.Stream.DiskOps.Follow.{serve-Agrees}

Agrees-some :
    (file_of : List ℕ → ℕ) (d : Disk) {writer : Option DiskWriter} {w : DiskWriter}
    → writer ≡ some w
    → Agrees file_of d writer
    → d (file_of w.manifest.file_name) ≡ w.file.content
Agrees-some file_of d {writer} {w} e a = subst (Agrees file_of d) e a

-- The task of a stream that a whole transfer has arrived on.
abbrev pub arrived : (ChunkPayload → List ℕ) → List ℕ → FileManifest → List ℕ → Receiver
arrived header_bytes content m manifest_bytes =
    waiting (transfer_wire header_bytes content manifest_bytes m.total_chunks)

module _ (manifests : Postcard FileManifest) (payloads : Postcard ChunkPayload)
    (header_bytes : ChunkPayload → List ℕ) (encodes : EncodesHeaders payloads header_bytes)
    (content : List ℕ) where
  -- A stream with a whole transfer of a file of at most 2 ^ 48 - 65536 bytes, on a disk without
  -- faults: however the operations of other tasks come in between, as long as none of them is on
  -- the same file, the stream's writer is complete in the end, and the file on the disk is the file
  -- sent. postcard is assumed to decode what it encodes, in less than 2 ^ 32 bytes.
  pub serve-Interleaving :
      (file_of : List ℕ → ℕ) (m : FileManifest) (manifest_bytes : List ℕ) (fuel : ℕ)
      (others all : List DiskOp) (d : Disk)
      → Encodes manifests m manifest_bytes
      → Announces content m
      → length (transfer_wire header_bytes content manifest_bytes m.total_chunks) < fuel
      → Interleaving
          (serve_ops file_of manifests payloads fuel
            (arrived header_bytes content m manifest_bytes))
          others
          all
      → Spares (file_of m.file_name) others
      → (r' : Receiver) × (w : DiskWriter) × (serve manifests payloads fuel
            (arrived header_bytes content m manifest_bytes)
          ≡ some r')
        × (r'.writer ≡ some w)
        × (is_complete w ≡ true)
        × (apply_ops all d (file_of m.file_name) ≡ content)
  serve-Interleaving file_of m manifest_bytes fuel others all d coded a enough mixed spared =
      let (r', w, served, holds, complete, same, named) =
        serve-transfer manifests payloads header_bytes encodes content m manifest_bytes fuel coded a
          enough in
      let task = arrived header_bytes content m manifest_bytes in
      let alone = apply_ops (serve_ops file_of manifests payloads fuel task) d in
      let followed : alone (file_of w.manifest.file_name) ≡ w.file.content =
        Agrees-some file_of alone holds
          (serve-Agrees file_of manifests payloads fuel task d served refl tt) in
      (
        r',
        w,
        served,
        holds,
        complete,
        apply_ops-Interleaving (file_of m.file_name) d d mixed spared refl
            ∙ ap (λ (n : FileManifest). alone (file_of n.file_name)) (sym named)
            ∙ followed
            ∙ same,
      )
