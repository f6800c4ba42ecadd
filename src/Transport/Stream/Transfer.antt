-- ===== src/Transport/Stream/Transfer.antt =====
-- A file that `send_file` sends is the file that the receiving task writes.
use decentis.Prelude.{
  inl, inr, ℕ, zero, suc, ◌+◌, ◌≤◌, ◌<◌, ◌^◌, Bool, true, false, List, [], ◌∷◌, ◌++◌, some, length,
  ltb, ◌==◌, if◌then◌else◌, ◌≡◌, inl, inr, Bool-cases, refl, ap, ◌∙◌, arith, length-append,
}
use decentis.Transport.Frame.{type_file_manifest}
use decentis.Transport.Stream.Send.{Sender, done, send_file}
use decentis.Transport.Stream.Receive.{waiting, Receiver, go, try_read, read_or_break, turn, serve}
use decentis.Transport.Stream.Wire.{
  Encodes, EncodesHeaders, frame, length-frame, chunk_wire, length-chunk_wire_pos, chunks_wire,
  transfer_wire,
}
use decentis.Transport.Stream.Sending.{send_file-wire}
use decentis.Transport.Stream.Receiving.{turn-manifest, turn-chunk, after_chunk}
use decentis.FileRelay.Manifest.{FileManifest, ChunkPayload, Postcard, chunk_size}
use decentis.FileRelay.Manifest.Count.{count_chunks_exact}
use decentis.FileRelay.Slice.{slice}
use decentis.FileRelay.Chunker.Cover.{Describes}
use decentis.FileRelay.Writer
use decentis.FileRelay.Writer.{DiskWriter, Fault, no_fault, write_chunk, store, is_complete}
use decentis.FileRelay.Writer.Assemble.{Announces, new-Holds, Deliveries, Loses, receive}
use decentis.FileRelay.Writer.Progress.{Delivers, receive-Delivers_all}

-- The chunks from `i` on, `n` of them, in order, each written without a fault.
abbrev in_order : ℕ → ℕ → Deliveries
in_order i zero = []
in_order i (suc n) = (no_fault, i) ∷ in_order (i + 1) n

Delivers-in_order : (i n j : ℕ) → i ≤ j → j < i + n → Delivers (in_order i n) j
Delivers-in_order i zero j from upto = absurd (omega arith)
Delivers-in_order i (suc n) j from upto = elim (Bool-cases (i == j)) [
  | inl same ↦ inl (ground arith)
  | inr other ↦ inr (Delivers-in_order (i + 1) n j (ground arith) (omega arith))
]

module _ (manifests : Postcard FileManifest) (payloads : Postcard ChunkPayload) where
  serve-go :
      (fuel : ℕ) (r : Receiver) {r' : Receiver}
      → turn manifests payloads r ≡ go tt r'
      → serve manifests payloads (suc fuel) r ≡ serve manifests payloads fuel r'
  unfolding serve
  serve-go fuel r e = rw (e, serve) refl

  -- At the end of the stream the task breaks out of its loop.
  serve-end :
      (fuel : ℕ) (r : Receiver)
      → r.input ≡ []
      → serve manifests payloads (suc fuel) r ≡ some (record r { input = [] })
  unfolding serve turn read_or_break try_read
  serve-end fuel r e = rw (e, serve) refl

module _ (manifests : Postcard FileManifest) (payloads : Postcard ChunkPayload)
    (header_bytes : ChunkPayload → List ℕ) (encodes : EncodesHeaders payloads header_bytes)
    (content : List ℕ) where
  serve-chunks :
      (n i fuel : ℕ) (w : DiskWriter) (r : Receiver)
      → length r.input < fuel
      → i + n < 2 ^ 32
      → r.writer ≡ some w
      → r.faults ≡ []
      → r.input ≡ chunks_wire header_bytes content i n
      → (r' : Receiver) × (serve manifests payloads fuel r ≡ some r')
        × (r'.writer ≡ some (receive content w (in_order i n)))
  unfolding chunks_wire receive
  serve-chunks n i zero w r enough small has calm at = absurd (omega arith)
  serve-chunks zero i (suc fuel) w r enough small has calm at =
      (record r { input = [] }, serve-end manifests payloads fuel r at, has)
  serve-chunks (suc n) i (suc fuel) w r enough small has calm at =
      let rest = chunks_wire header_bytes content (i + 1) n in
      let turned =
        turn-chunk manifests payloads header_bytes encodes content w i rest r (omega arith) has calm
          at in
      let w' = (write_chunk no_fault w i (slice chunk_size content i)).1 in
      let (r', ran, holds) =
        serve-chunks n (i + 1) fuel w'
          (after_chunk manifests payloads header_bytes encodes content w i rest r) (shorter rest at)
          (omega arith) refl calm refl in
      (r', serve-go manifests payloads fuel r turned ∙ ran, holds)
    where
      shorter :
          (rest : List ℕ) → r.input ≡ chunk_wire header_bytes content i ++ rest → length rest < fuel
      shorter rest at = omega (
        arith,
        ap length at,
        length-append (chunk_wire header_bytes content i) rest,
        length-chunk_wire_pos header_bytes content i,
      )

some_of_either :
    {A : Type 0} (b : Bool) (x y : A) → (z : A) × ((if b then some x else some y) ≡ some z)
some_of_either true x y = (x, refl)
some_of_either false x y = (y, refl)

pub new-no_fault : (m : FileManifest) → (w : DiskWriter) × (Writer.new no_fault m ≡ some w)
unfolding Writer.new
new-no_fault m = some_of_either (ltb 0 m.file_size) _ _

pub new-manifest :
    (fault : Fault) (m : FileManifest) {w : DiskWriter}
    → Writer.new fault m ≡ some w
    → w.manifest ≡ m
unfolding Writer.new
new-manifest fault m e = ground arith

in_order-Loses : (from n i : ℕ) → Loses (in_order from n) i → ⊥
in_order-Loses from zero i lost = lost
in_order-Loses from (suc n) i (inl lost) = lost.0
in_order-Loses from (suc n) i (inr lost) = in_order-Loses (from + 1) n i lost

pub write_chunk-manifest :
    (fault : Fault) (w : DiskWriter) (i : ℕ) (payload : List ℕ)
    → (write_chunk fault w i payload).1.manifest ≡ w.manifest
unfolding write_chunk store
write_chunk-manifest fault w i payload = ground arith

receive-manifest :
    (source : List ℕ) (w : DiskWriter) (deliveries : Deliveries)
    → (receive source w deliveries).manifest ≡ w.manifest
unfolding receive
receive-manifest source w [] = refl
receive-manifest source w ((fault, i) ∷ rest) =
    receive-manifest source (write_chunk fault w i (slice chunk_size source i)).1 rest
    ∙ write_chunk-manifest fault w i (slice chunk_size source i)

module _ (manifests : Postcard FileManifest) (payloads : Postcard ChunkPayload)
    (header_bytes : ChunkPayload → List ℕ) (encodes : EncodesHeaders payloads header_bytes)
    (content : List ℕ) where
  -- The task that gets a whole transfer ends with the file.
  pub serve-transfer :
      (m : FileManifest) (manifest_bytes : List ℕ) (fuel : ℕ)
      → Encodes manifests m manifest_bytes
      → Announces content m
      → length (transfer_wire header_bytes content manifest_bytes m.total_chunks) < fuel
      → (r' : Receiver) × (w : DiskWriter) × (serve manifests payloads fuel
            (waiting (transfer_wire header_bytes content manifest_bytes m.total_chunks))
          ≡ some r')
        × (r'.writer ≡ some w)
        × (is_complete w ≡ true)
        × (w.file.content ≡ content)
        × (w.manifest ≡ m)
  unfolding transfer_wire
  serve-transfer m manifest_bytes zero coded a enough = absurd (omega arith)
  serve-transfer m manifest_bytes (suc fuel) coded a enough =
      let (w, made) = new-no_fault m in
      let head = frame type_file_manifest 0 manifest_bytes in
      let rest = chunks_wire header_bytes content 0 m.total_chunks in
      let start = waiting (head ++ rest) in
      let turned =
        turn-manifest manifests payloads header_bytes encodes content m manifest_bytes rest start
          coded refl made refl in
      let (r', ran, holds) =
        serve-chunks manifests payloads header_bytes encodes content m.total_chunks 0 fuel w
          (record start { input = rest; writer = some w })
          (omega (arith, length-append head rest, length-frame type_file_manifest 0 manifest_bytes))
          (omega
            (arith, a.total_chunks_eq, a.size_le, count_chunks_exact (length content) a.size_le))
          refl refl refl in
      let finished =
        receive-Delivers_all no_fault m content (in_order 0 m.total_chunks) (λ lost. lost) a made
          (λ i lt. Delivers-in_order 0 m.total_chunks i (omega arith) (
            omega (
              arith,
              (new-Holds no_fault m content (Loses []) (λ lost. lost) a made).counted,
              a.total_chunks_eq,
            ))) in
      (
        r',
        receive content w (in_order 0 m.total_chunks),
        serve-go manifests payloads fuel start turned ∙ ran,
        holds,
        finished.0,
        finished.1 (in_order-Loses 0 m.total_chunks),
        receive-manifest content w (in_order 0 m.total_chunks) ∙ new-manifest no_fault m made,
      )

  -- For an unchanged file of at most 2 ^ 48 - 65536 bytes, a stream that opens and takes all bytes,
  -- a client that reads the updates to the end, and a receiving disk without faults: the send
  -- succeeds, and the task that gets the bytes ends with a writer that is complete and whose file
  -- is the file that was sent. postcard is assumed to decode what it encodes, in less than 2 ^ 32
  -- bytes.
  pub send_file-serve :
      (speed : ℕ → ℕ → ℕ) (accepts : ℕ → Bool) (manifest_bytes : List ℕ) (s : Sender) (fuel : ℕ)
      → Encodes manifests s.chunker.manifest manifest_bytes
      → Describes s.chunker content
      → s.sent ≡ []
      → s.opens ≡ true
      → ((i : ℕ) → accepts i ≡ true)
      → length (transfer_wire header_bytes content manifest_bytes s.chunker.manifest.total_chunks)
        ≤ s.room
      → s.room < fuel
      → (s' : Sender) × (r' : Receiver) × (w : DiskWriter) × (send_file manifests payloads speed
            accepts s.chunker.manifest s
          ≡ done tt s')
        × (serve manifests payloads fuel (waiting s'.sent) ≡ some r')
        × (r'.writer ≡ some w)
        × (is_complete w ≡ true)
        × (w.file.content ≡ content)
  send_file-serve speed accepts manifest_bytes s fuel coded d none_sent opened attended fits
        enough =
      let (s', sent, finished, wire) =
        send_file-wire manifests payloads speed accepts header_bytes encodes content attended
          manifest_bytes s coded d none_sent opened fits in
      let (r', w, served, holds, complete, same, named) =
        serve-transfer s.chunker.manifest manifest_bytes fuel coded
          (record { file_size_eq = d.sized; total_chunks_eq = d.counted; size_le = d.small })
          (omega arith) in
      (s', r', w, sent, rw wire served, holds, complete, same)
