-- ===== src/Transport/Stream/Rounds.antt =====
-- What the rounds of `send_file`, one for each chunk, put on a stream that takes it all.
use decentis.Prelude.{
  ℕ, zero, suc, ◌+◌, ◌-◌, ◌%◌, ◌≤◌, ◌<◌, ◌^◌, ◌||◌, inl, inr, Bool-cases, Bool, true, List, [], ◌∷◌,
  ◌++◌, length, ◌==◌, ◌≡◌, ◌⊎◌, refl, sym, ◌∙◌, arith, length-append, append_assoc, append-nil,
}
use native.Mathlib.Numerals.{add-one}
use decentis.Transport.Frame.{type_file_chunk_payload}
use decentis.Transport.Stream.Send.{
  TransferProgress, completed, Sender, done, write_all, encoded, next_chunk, write_frame,
  progress_update, report, send_chunk, send_chunks,
}
use decentis.Transport.Stream.Wire.{
  Encodes, EncodesHeaders, frame, header_of, chunk_wire, chunks_wire,
}
use decentis.FileRelay.Manifest.{FileManifest, ChunkPayload, Postcard, chunk_size}
use decentis.FileRelay.Slice.{slices, slice, length-slice}
use decentis.FileRelay.Chunker.Cover.{Describes, read_chunk-slice}
use decentis.Transport.Stream.Steps.{bind-done, push, write_all-push, write_frame-push}

-- The last update says that the transfer is complete, with the bytes sent and those announced.
abbrev pub EndsCompleted : Sender → Type 0
EndsCompleted s =
    (before : List TransferProgress) × (update : TransferProgress) × (s.progress
      ≡ before ++ (update ∷ []))
    × (update.status ≡ completed)
    × (update.bytes_transferred ≡ s.bytes_sent)
    × (update.total_bytes ≡ s.chunker.manifest.file_size)

-- What rounds leave alone, and what they add: the bytes on the wire, the file's among them, and a
-- last update, if `Ends` says so.
pub record Sent (content : List ℕ) (total_chunks : ℕ) (bytes payload : List ℕ) (Ends : Type 0)
    (s s' : Sender) : Type 0 where
  pub sent_eq : s'.sent ≡ s.sent ++ bytes
  pub room_eq : s'.room ≡ s.room - length bytes
  pub describes : Describes s'.chunker content
  pub chunks_eq : s'.chunker.manifest.total_chunks ≡ total_chunks
  pub manifest_eq : s'.chunker.manifest ≡ s.chunker.manifest
  pub bytes_eq : s'.bytes_sent ≡ s.bytes_sent + length payload
  pub final : Ends → EndsCompleted s'

module _ (manifests : Postcard FileManifest) (payloads : Postcard ChunkPayload) (speed : ℕ → ℕ → ℕ)
    (accepts : ℕ → Bool) (header_bytes : ChunkPayload → List ℕ)
    (encodes : EncodesHeaders payloads header_bytes) (content : List ℕ)
    (attended : (i : ℕ) → accepts i ≡ true) where
  report-true :
      (total_chunks i : ℕ) (s : Sender)
      → (s' : Sender) × (report manifests payloads speed accepts total_chunks i s ≡ done true s')
        × (s'.sent ≡ s.sent)
        × (s'.room ≡ s.room)
        × (s'.chunker ≡ s.chunker)
        × (s'.bytes_sent ≡ s.bytes_sent)
        × (i ≡ total_chunks - 1 → EndsCompleted s')
  unfolding report progress_update
  report-true total_chunks i s = elim (Bool-cases (i % 50 == 0 || i == total_chunks - 1)) [
    | inl due ↦ (
      record s {
        progress =
            s.progress ++ (progress_update manifests payloads speed accepts total_chunks i s ∷ []);
      },
      rw (due, attended i) refl,
      refl,
      refl,
      refl,
      refl,
      λ last. (
        s.progress,
        progress_update manifests payloads speed accepts total_chunks i s,
        refl,
        ground arith,
        refl,
        refl,
      ),
    )
    | inr quiet ↦ (s, rw quiet refl, refl, refl, refl, refl, λ last. absurd (ground arith))
  ]

  -- A round puts the chunk's bytes on the wire.
  send_chunk-Sent :
      (total_chunks i : ℕ) (s : Sender)
      → Describes s.chunker content
      → s.chunker.manifest.total_chunks ≡ total_chunks
      → i < total_chunks
      → total_chunks < 2 ^ 32
      → length (chunk_wire header_bytes content i) ≤ s.room
      → (s' : Sender) × (send_chunk manifests payloads speed accepts total_chunks i s
          ≡ done true s')
        × Sent content total_chunks
            (chunk_wire header_bytes content i)
            (slice chunk_size content i)
            (i ≡ total_chunks - 1)
            s
            s'
  unfolding send_chunk chunk_wire next_chunk
  send_chunk-Sent total_chunks i s d same lt small h =
      let (c', reads, d', same') = read_chunk-slice s.chunker content i d (rw same lt) in
      let s1 : Sender = record s { chunker = c' } in
      let s2 : Sender = push head s1 in
      let s3 : Sender = push body s2 in
      let s4 : Sender = record s3 { bytes_sent = s3.bytes_sent + length body } in
      let (s5, reported, sent_same, room_same, chunker_same, bytes_same, final) =
        report-true total_chunks i s4 in
      let next : next_chunk i s ≡ done (header_of header_bytes content i, body) s1 =
        rw reads refl in
      let framed : write_frame type_file_chunk_payload i meta s1 ≡ done tt s2 =
        write_frame-push type_file_chunk_payload i meta s1 (omega (arith, total)) in
      let written : write_all body s2 ≡ done tt s3 =
        write_all-push body s2 (omega (arith, total)) in
      (
        s5,
        bind-done (next_chunk i) _ s next
            ∙ bind-done (encoded (payloads.to_bytes (header_of header_bytes content i))) _ s1
                (rw coded.encoded refl)
            ∙ bind-done (write_frame type_file_chunk_payload i meta) _ s1 framed
            ∙ bind-done (write_all body) _ s2 written
            ∙ reported,
        record {
          sent_eq = sent_same ∙ append_assoc s.sent head body;
          room_eq = room_same ∙ omega (arith, total);
          describes = rw chunker_same d';
          chunks_eq = rw (chunker_same, same') same;
          manifest_eq = rw chunker_same same';
          bytes_eq = bytes_same;
          final = final;
        },
      )
    where
      body : List ℕ
      body = slice chunk_size content i

      meta : List ℕ
      meta = header_bytes (header_of header_bytes content i)

      head : List ℕ
      head = frame type_file_chunk_payload i meta

      total : length (head ++ body) ≡ length head + length body
      total = length-append head body

      coded : Encodes payloads (header_of header_bytes content i) meta
      coded =
          encodes (header_of header_bytes content i) (omega arith)
            (omega (arith, length-slice chunk_size i content))

  send_chunks-next :
      (total_chunks left i : ℕ) (s : Sender) {s' : Sender}
      → send_chunk manifests payloads speed accepts total_chunks i s ≡ done true s'
      → send_chunks manifests payloads speed accepts total_chunks (suc left) i s
        ≡ send_chunks manifests payloads speed accepts total_chunks left (i + 1) s'
  unfolding send_chunks
  send_chunks-next total_chunks left i s e = rw (e, send_chunks) refl

  pub send_chunks-Sent :
      (total_chunks left i : ℕ) (s : Sender)
      → Describes s.chunker content
      → s.chunker.manifest.total_chunks ≡ total_chunks
      → i + left ≡ total_chunks
      → total_chunks < 2 ^ 32
      → length (chunks_wire header_bytes content i left) ≤ s.room
      → (s' : Sender) × (send_chunks manifests payloads speed accepts total_chunks left i s
          ≡ done tt s')
        × Sent content total_chunks
            (chunks_wire header_bytes content i left)
            (slices chunk_size content i left)
            ((0 < left) ⊎ EndsCompleted s)
            s
            s'
  unfolding send_chunks chunks_wire slices
  send_chunks-Sent total_chunks zero i s d same at small h = (
    s,
    refl,
    record {
      sent_eq = sym (append-nil s.sent);
      room_eq = omega arith;
      describes = d;
      chunks_eq = same;
      manifest_eq = refl;
      bytes_eq = omega arith;
      final = λ ends. elim ends [ inl pos ↦ absurd (omega arith) | inr here ↦ here ];
    },
  )
  send_chunks-Sent total_chunks (suc left) i s d same at small h =
      let here = chunk_wire header_bytes content i in
      let rest = chunks_wire header_bytes content (i + 1) left in
      let total = length-append here rest in
      let (s1, ran, one) =
        send_chunk-Sent total_chunks i s d same (omega arith) small (omega (arith, total)) in
      let (s2, looped, more) =
        send_chunks-Sent total_chunks left (i + 1) s1 one.describes one.chunks_eq (omega arith)
          small (rw one.room_eq (omega (arith, total))) in
      (
        s2,
        send_chunks-next total_chunks left i s ran ∙ looped,
        record {
          sent_eq = more.sent_eq ∙ rw one.sent_eq (append_assoc s.sent here rest);
          room_eq = more.room_eq ∙ rw one.room_eq (omega (arith, total));
          describes = more.describes;
          chunks_eq = more.chunks_eq;
          manifest_eq = more.manifest_eq ∙ one.manifest_eq;
          bytes_eq =
              more.bytes_eq
              ∙ rw (one.bytes_eq, add-one)
                  (omega (
                    arith,
                    length-append (slice chunk_size content i)
                        (slices chunk_size content (suc i) left),
                  ));
          final = λ ends. more.final (ends_later s1 left at one.final);
        },
      )
    where
      ends_later :
          (s1 : Sender) (left : ℕ)
          → i + suc left ≡ total_chunks
          → (i ≡ total_chunks - 1 → EndsCompleted s1)
          → (0 < left) ⊎ EndsCompleted s1
      ends_later s1 zero at final = inr (final (omega arith))
      ends_later s1 (suc n) at final = inl (omega arith)
