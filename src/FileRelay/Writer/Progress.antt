-- ===== src/FileRelay/Writer/Progress.antt =====
-- Marks of the writer: what sets them, and that enough deliveries complete a transfer.
use decentis.Prelude.{
  ◌/◌, get_or_ext, ℕ, suc, ◌<◌, Bool, true, false, List, [], ◌∷◌, some, length, get_or, ◌≡◌, ◌↔◌,
  refl, sym, ◌∙◌, arith, ◌⊎◌, inl, inr, length-set, get_or-set_self, get_or-set_ne,
}
use mathlib.Core.Path.{subst, ap}
use decentis.FileRelay.Slice.{slice}
use decentis.FileRelay.Manifest.{FileManifest, chunk_size}
use decentis.FileRelay.Writer.{
  DiskWriter, Fault, no_fault, new, ok, store, write_chunk, all, is_complete,
}
use decentis.FileRelay.Writer.Store.{Holds, IsLost}
use decentis.FileRelay.Writer.Assemble.{
  Announces, write_chunk-eq, new-Holds, Deliveries, Loses, receive, receive_complete,
}

abbrev pub is_marked : DiskWriter → ℕ → Bool
is_marked w i = get_or w.received_chunks i false

-- Every chunk of the manifest has its mark.
abbrev pub IsTracked : DiskWriter → Type 0
IsTracked w = length w.received_chunks ≡ w.manifest.total_chunks

-- Writing a chunk keeps the marks in step with the manifest, whatever the payload.
write_chunk-IsTracked :
    (fault : Fault) (w : DiskWriter) (i : ℕ) (payload : List ℕ)
    → IsTracked w
    → IsTracked (write_chunk fault w i payload).1
      × ((write_chunk fault w i payload).1.manifest ≡ w.manifest)
unfolding store
write_chunk-IsTracked fault w i payload t =
    rw (write_chunk-eq fault w i payload t) (ground (arith, length-set w.received_chunks i true))

-- On a writer with a mark for each chunk, a call returns `Ok` exactly if its chunk is in range and
-- marked when it returns.
pub write_chunk-ok_iff :
    (fault : Fault) (w : DiskWriter) (i : ℕ) (payload : List ℕ)
    → IsTracked w
    → ((write_chunk fault w i payload).0 ≡ ok)
      ↔ ((i < w.manifest.total_chunks) × (is_marked (write_chunk fault w i payload).1 i ≡ true))
unfolding store
write_chunk-ok_iff fault w i payload t =
    rw (write_chunk-eq fault w i payload t)
      (ground (arith, get_or-set_self w.received_chunks i true false))

-- No call takes a mark away.
write_chunk-is_marked :
    (fault : Fault) (w : DiskWriter) (i : ℕ) (payload : List ℕ) (j : ℕ)
    → IsTracked w
    → is_marked w j ≡ true
    → is_marked (write_chunk fault w i payload).1 j ≡ true
unfolding store
write_chunk-is_marked fault w i payload j t m =
    rw (write_chunk-eq fault w i payload t)
      (ground (arith, get_or-set_ne w.received_chunks i j true false))

-- Chunk `i` is among the deliveries, with a write that succeeds.
abbrev pub Delivers : Deliveries → ℕ → Type 0
Delivers [] i = ⊥
Delivers (d ∷ rest) i = (d ≡ (no_fault, i)) ⊎ Delivers rest i

-- A write without fault of a chunk in range marks it.
write_chunk-marks :
    (w : DiskWriter) (i : ℕ) (payload : List ℕ)
    → IsTracked w
    → i < w.manifest.total_chunks
    → is_marked (write_chunk no_fault w i payload).1 i ≡ true
unfolding store
write_chunk-marks w i payload t lt =
    rw (write_chunk-eq no_fault w i payload t)
      (ground (arith, get_or-set_self w.received_chunks i true false))

module _ (source : List ℕ) where
  receive-is_marked :
      (w : DiskWriter) (ds : Deliveries) (i : ℕ)
      → IsTracked w
      → is_marked w i ≡ true
      → is_marked (receive source w ds) i ≡ true
  unfolding receive
  receive-is_marked w [] i t m = m
  receive-is_marked w ((fault, j) ∷ rest) i t m =
      let payload = slice chunk_size source j in
      receive-is_marked (write_chunk fault w j payload).1 rest i
        (write_chunk-IsTracked fault w j payload t).0
        (write_chunk-is_marked fault w j payload i t m)

  receive-Delivers :
      (w : DiskWriter) (ds : Deliveries) (i : ℕ)
      → IsTracked w
      → i < w.manifest.total_chunks
      → Delivers ds i
      → is_marked (receive source w ds) i ≡ true
  unfolding receive
  receive-Delivers w [] i t lt d = absurd d
  receive-Delivers w ((fault, j) ∷ rest) i t lt (inl e) =
      let payload = slice chunk_size source j in
      receive-is_marked (write_chunk fault w j payload).1 rest i
        (write_chunk-IsTracked fault w j payload t).0
        (subst
          (λ (d : Fault × ℕ).
            is_marked (write_chunk d.0 w d.1 (slice chunk_size source d.1)).1 i ≡ true)
          (sym e) (write_chunk-marks w i (slice chunk_size source i) t lt))
  receive-Delivers w ((fault, j) ∷ rest) i t lt (inr later) =
      let payload = slice chunk_size source j in
      let kept = write_chunk-IsTracked fault w j payload t in
      receive-Delivers (write_chunk fault w j payload).1 rest i kept.0 (rw kept.1 lt) later

  receive-IsTracked :
      (w : DiskWriter) (ds : Deliveries)
      → IsTracked w
      → IsTracked (receive source w ds) × ((receive source w ds).manifest ≡ w.manifest)
  unfolding receive
  receive-IsTracked w [] t = (t, refl)
  receive-IsTracked w ((fault, j) ∷ rest) t =
      let kept = write_chunk-IsTracked fault w j (slice chunk_size source j) t in
      let later =
        receive-IsTracked (write_chunk fault w j (slice chunk_size source j)).1 rest kept.0 in
      (later.0, later.1 ∙ kept.1)

all-of_marked :
    (marks : List Bool)
    → ((i : ℕ) → i < length marks → get_or marks i false ≡ true)
    → all marks ≡ true
all-of_marked [] h = refl
all-of_marked (true ∷ bs) h = all-of_marked bs (λ i lt. h (suc i) (omega arith))
all-of_marked (false ∷ bs) h = h 0 (omega arith)

-- When every chunk of an announced file has arrived at least once with a write that succeeds,
-- whatever else came before, between or after, the writer is complete; and if no write has failed
-- behind an `Ok`, also not that of the byte at the end that makes the file, its file is the source.
pub receive-Delivers_all :
    (fault : Fault) (m : FileManifest) (source : List ℕ) (ds : Deliveries) {w : DiskWriter}
    → (IsLost fault → ⊥)
    → Announces source m
    → new fault m ≡ some w
    → ((i : ℕ) → i < w.manifest.total_chunks → Delivers ds i)
    → (is_complete (receive source w ds) ≡ true)
      × (((i : ℕ) → Loses ds i → ⊥) → (receive source w ds).file.content ≡ source)
unfolding is_complete
receive-Delivers_all fault m source ds {w} made a e every = (complete, same)
  where
    start : Holds source (Loses ds) w
    start = new-Holds fault m source (Loses ds) made a e

    end : IsTracked (receive source w ds) × ((receive source w ds).manifest ≡ w.manifest)
    end = receive-IsTracked source w ds start.tracked

    complete : all (receive source w ds).received_chunks ≡ true
    complete = all-of_marked (receive source w ds).received_chunks λ i lt.
        let in_range : i < w.manifest.total_chunks =
          subst (λ (k : ℕ). i < k) (end.0 ∙ ap (λ (x : FileManifest). x.total_chunks) end.1) lt in
        receive-Delivers source w ds i start.tracked in_range (every i in_range)

    same : ((i : ℕ) → Loses ds i → ⊥) → (receive source w ds).file.content ≡ source
    same none_lost =
        let (sized, right) = receive_complete fault m source ds made a e complete in
        get_or_ext 0 (receive source w ds).file.content source sized
          (λ k lt. right k (omega (arith, sized)) (none_lost (k / chunk_size)))
