-- ===== src/Transport/Stream/Sending.antt =====
-- What `send_file` puts on a stream that takes it all, with a reader of the updates to the end.
use decentis.Prelude.{
  ℕ, ◌+◌, ◌≤◌, ◌<◌, inl, Bool, true, List, [], length, ◌≡◌, refl, ap, ◌∙◌, arith, length-append,
}
use decentis.Transport.Frame.{type_file_manifest}
use decentis.Transport.Stream.Send.{
  open_uni, Sender, done, encoded, write_frame, send_chunks, send_file,
}
use decentis.Transport.Stream.Wire.{Encodes, EncodesHeaders, frame, chunks_wire, transfer_wire}
use decentis.FileRelay.Manifest.{FileManifest, ChunkPayload, Postcard, chunk_size}
use decentis.FileRelay.Manifest.Count.{count_chunks_exact}
use decentis.FileRelay.Slice.{slices_cover}
use decentis.FileRelay.Chunker.Cover.{Describes}
use decentis.Transport.Stream.Steps.{bind-done, push, write_frame-push}
use decentis.Transport.Stream.Rounds.{EndsCompleted, send_chunks-Sent}

module _ (manifests : Postcard FileManifest) (payloads : Postcard ChunkPayload) (speed : ℕ → ℕ → ℕ)
    (accepts : ℕ → Bool) (header_bytes : ChunkPayload → List ℕ)
    (encodes : EncodesHeaders payloads header_bytes) (content : List ℕ)
    (attended : (i : ℕ) → accepts i ≡ true) where
  -- What `send_file` leaves behind when all goes well.
  pub send_file-Sent :
      (manifest_bytes : List ℕ) (s : Sender)
      → Encodes manifests s.chunker.manifest manifest_bytes
      → Describes s.chunker content
      → s.sent ≡ []
      → s.opens ≡ true
      → length (transfer_wire header_bytes content manifest_bytes s.chunker.manifest.total_chunks)
        ≤ s.room
      → (s' : Sender) × (send_file manifests payloads speed accepts s.chunker.manifest s
          ≡ done tt s')
        × (s'.finished ≡ true)
        × (s'.sent
            ≡ transfer_wire header_bytes content manifest_bytes s.chunker.manifest.total_chunks)
        × (s'.chunker.manifest ≡ s.chunker.manifest)
        × (s'.bytes_sent ≡ s.bytes_sent + length content)
        × (0 < s.chunker.manifest.total_chunks → EndsCompleted s')
  unfolding send_file transfer_wire
  send_file-Sent manifest_bytes s coded d none_sent opened h =
      let total_chunks = s.chunker.manifest.total_chunks in
      let head = frame type_file_manifest 0 manifest_bytes in
      let rest = chunks_wire header_bytes content 0 total_chunks in
      let total = length-append head rest in
      let s1 : Sender = push head s in
      let framed : write_frame type_file_manifest 0 manifest_bytes s ≡ done tt s1 =
        write_frame-push type_file_manifest 0 manifest_bytes s (omega (arith, total)) in
      let (s2, looped, all) =
        send_chunks-Sent manifests payloads speed accepts header_bytes encodes content attended
          total_chunks total_chunks 0 s1
          (record {
            unchanged = d.unchanged;
            sized = d.sized;
            counted = d.counted;
            small = d.small;
          })
          refl (omega arith)
          (omega (arith, d.counted, d.small, count_chunks_exact (length content) d.small))
          (omega (arith, total)) in
      (
        record s2 { finished = true },
        bind-done open_uni _ s (rw opened refl)
            ∙ bind-done (encoded (manifests.to_bytes s.chunker.manifest)) _ s
                (rw coded.encoded refl)
            ∙ bind-done (write_frame type_file_manifest 0 manifest_bytes) _ s framed
            ∙ bind-done (send_chunks manifests payloads speed accepts total_chunks total_chunks 0) _
                s1 looped,
        refl,
        all.sent_eq ∙ rw none_sent refl,
        all.manifest_eq,
        all.bytes_eq
            ∙ ap (λ bytes. s.bytes_sent + length bytes)
                (slices_cover chunk_size content 0 total_chunks
                  (omega (arith, d.counted, count_chunks_exact (length content) d.small))),
        λ some_chunk. all.final (inl some_chunk),
      )

  -- For an unchanged file, a stream that opens and takes the whole transfer and a reader of the
  -- updates that stays, `send_file` succeeds, finishes the stream, and the stream carries the
  -- transfer's wire form.
  pub send_file-wire :
      (manifest_bytes : List ℕ) (s : Sender)
      → Encodes manifests s.chunker.manifest manifest_bytes
      → Describes s.chunker content
      → s.sent ≡ []
      → s.opens ≡ true
      → length (transfer_wire header_bytes content manifest_bytes s.chunker.manifest.total_chunks)
        ≤ s.room
      → (s' : Sender) × (send_file manifests payloads speed accepts s.chunker.manifest s
          ≡ done tt s')
        × (s'.finished ≡ true)
        × (s'.sent
            ≡ transfer_wire header_bytes content manifest_bytes s.chunker.manifest.total_chunks)
  send_file-wire manifest_bytes s coded d none_sent opened h =
      let (s', sent, finished, wire, same, counted, final) =
        send_file-Sent manifest_bytes s coded d none_sent opened h in
      (s', sent, finished, wire)
