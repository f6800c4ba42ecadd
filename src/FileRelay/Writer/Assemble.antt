-- ===== src/FileRelay/Writer/Assemble.antt =====
-- The writer puts a file together from its chunks in any order, with repeats and failed writes.
use decentis.Prelude.{
  ◌⊎◌, inl, inr, ℕ, zero, suc, ◌-◌, ◌/◌, ◌≤◌, ◌<◌, Bool, true, false, List, [], ◌∷◌, some, length,
  get_or, get_elem?, replicate, leb, if◌then◌else◌, ◌≡◌, refl, arith, length-replicate,
}
use decentis.FileRelay.File.{write_all, length-write_at_end}
use decentis.FileRelay.Manifest.{FileManifest, chunk_size, count_chunks}
use decentis.FileRelay.Manifest.Count.{max_file_size, count_chunks_exact}
use decentis.FileRelay.Slice.{slice}
use decentis.FileRelay.Writer.{
  DiskWriter, Fault, lost_write, new, ok, out_of_bounds, store, write_chunk, all, is_complete,
}
use decentis.FileRelay.Writer.Store.{Holds, IsLost, store-Holds}

-- A manifest that describes `source`.
pub record Announces (source : List ℕ) (m : FileManifest) : Type 0 where
  pub file_size_eq : m.file_size ≡ length source
  pub total_chunks_eq : m.total_chunks ≡ count_chunks (length source)
  pub size_le : length source ≤ max_file_size

get_or-replicate : (n i : ℕ) → get_or (replicate n false) i false ≡ false
get_or-replicate zero i = refl
get_or-replicate (suc n) zero = refl
get_or-replicate (suc n) (suc i) = get_or-replicate n i

get_elem?-eq-get_or :
    (xs : List Bool) (i : ℕ) → i < length xs → get_elem? xs i ≡ some (get_or xs i false)
get_elem?-eq-get_or [] i h = absurd (omega arith)
get_elem?-eq-get_or (x ∷ xs) zero h = refl
get_elem?-eq-get_or (x ∷ xs) (suc i) h = get_elem?-eq-get_or xs i (omega arith)

-- What `write_chunk` does, by whether the chunk is in range and marked. Where every chunk has its
-- mark, the index into the marks never panics.
pub write_chunk-eq :
    (fault : Fault) (w : DiskWriter) (i : ℕ) (payload : List ℕ)
    → length w.received_chunks ≡ w.manifest.total_chunks
    → write_chunk fault w i payload ≡ (
        if leb w.manifest.total_chunks i
        then (out_of_bounds, w)
        else (if get_or w.received_chunks i false then (ok, w) else store fault w i payload))
unfolding write_chunk
write_chunk-eq fault w i payload tracked = ground (arith, get_elem?-eq-get_or w.received_chunks i)

-- Writing the right bytes of any chunk, in range or not, marked or not, with or without a fault,
-- keeps every marked chunk right, unless its own write is lost.
write_chunk-Holds :
    (fault : Fault) (w : DiskWriter) (i : ℕ) (source : List ℕ) (Lost : ℕ → Type 0)
    → (IsLost fault → Lost i)
    → Holds source Lost w
    → Holds source Lost (write_chunk fault w i (slice chunk_size source i)).1
write_chunk-Holds fault w i source Lost lost h =
    rw (write_chunk-eq fault w i (slice chunk_size source i) h.tracked)
      (by_range (leb w.manifest.total_chunks i) refl)
  where
    by_mark :
        (b : Bool)
        → get_or w.received_chunks i false ≡ b
        → i < w.manifest.total_chunks
        → Holds source Lost (if b then (ok, w) else store fault w i (slice chunk_size source i)).1
    by_mark true e lt = h
    by_mark false e lt = store-Holds w i source Lost h lt e fault lost

    by_range :
        (b : Bool)
        → leb w.manifest.total_chunks i ≡ b
        → Holds source Lost
            (if b
              then (out_of_bounds, w)
              else (if get_or w.received_chunks i false
                  then (ok, w)
                  else store fault w i (slice chunk_size source i))).1
    by_range true e = h
    by_range false e = by_mark (get_or w.received_chunks i false) refl (ground arith)

-- A new writer for an announced file holds it: no chunk is marked.
pub new-Holds :
    (fault : Fault) (m : FileManifest) (source : List ℕ) (Lost : ℕ → Type 0) {w : DiskWriter}
    → (IsLost fault → ⊥)
    → Announces source m
    → new fault m ≡ some w
    → Holds source Lost w
unfolding new write_all
new-Holds (lost_write n) m source Lost kept a e = absurd (kept tt)
new-Holds fault m source Lost {w} kept a e = record {
  sized = ground (arith, length-write_at_end (m.file_size - 1) 0);
  counted = ground arith;
  tracked = ground (arith, length-replicate m.total_chunks false);
  small = a.size_le;
  kept =
      λ k lt marked safe. absurd (ground (arith, get_or-replicate m.total_chunks (k / chunk_size)));
}

all_marked :
    (marks : List Bool) (i : ℕ) → all marks ≡ true → i < length marks → get_or marks i false ≡ true
all_marked [] i e h = absurd (omega arith)
all_marked (b ∷ bs) zero e h = ground arith
all_marked (b ∷ bs) (suc i) e h = ground (arith, all_marked bs i)

-- When the writer is complete, its file has the length of the source, and every byte of a chunk that
-- is not lost.
complete-content :
    (w : DiskWriter) (source : List ℕ) (Lost : ℕ → Type 0)
    → Holds source Lost w
    → is_complete w ≡ true
    → (length w.file.content ≡ length source)
      × ((k : ℕ)
          → k < length source
          → (Lost (k / chunk_size) → ⊥)
          → get_or w.file.content k 0 ≡ get_or source k 0)
unfolding is_complete
complete-content w source Lost h done = (
  h.sized,
  λ k lt. h.kept k lt (
      all_marked w.received_chunks (k / chunk_size) done
        (omega (arith, h.sized, h.tracked, h.counted, count_chunks_exact (length source) h.small))),
)

-- The chunks that arrive, each with what happens to its write.
abbrev pub Deliveries : Type 0
Deliveries = List (Fault × ℕ)

-- A write of chunk `i` is lost.
abbrev pub Loses : Deliveries → ℕ → Type 0
Loses [] i = ⊥
Loses ((fault, j) ∷ rest) i = (IsLost fault × (j ≡ i)) ⊎ Loses rest i

unfoldable pub receive : List ℕ → DiskWriter → Deliveries → DiskWriter
receive source w [] = w
receive source w ((fault, i) ∷ rest) =
    receive source (write_chunk fault w i (slice chunk_size source i)).1 rest

receive-Holds :
    (source : List ℕ) (Lost : ℕ → Type 0) (w : DiskWriter) (ds : Deliveries)
    → ((i : ℕ) → Loses ds i → Lost i)
    → Holds source Lost w
    → Holds source Lost (receive source w ds)
unfolding receive
receive-Holds source Lost w [] lost h = h
receive-Holds source Lost w ((fault, i) ∷ rest) lost h =
    receive-Holds source Lost (write_chunk fault w i (slice chunk_size source i)).1 rest
      (λ j later. lost j (inr later))
      (write_chunk-Holds fault w i source Lost (λ own. lost i (inl (own, refl))) h)

-- Chunks of an announced file may come in any order, more than once, out of range, and with seeks
-- and writes that fail, with an error or behind an `Ok`; only the byte at the end that makes the file
-- is not lost so. As soon as the writer says that it is complete, its file has the length of the
-- source, and is the source byte for byte in every chunk of which no write has failed behind an
-- `Ok`.
pub receive_complete :
    (fault : Fault) (m : FileManifest) (source : List ℕ) (ds : Deliveries) {w : DiskWriter}
    → (IsLost fault → ⊥)
    → Announces source m
    → new fault m ≡ some w
    → is_complete (receive source w ds) ≡ true
    → let content = (receive source w ds).file.content in
      (length content ≡ length source)
      × ((k : ℕ)
          → k < length source
          → (Loses ds (k / chunk_size) → ⊥)
          → get_or content k 0 ≡ get_or source k 0)
receive_complete fault m source ds {w} made a e =
    complete-content (receive source w ds) source (Loses ds) (
      receive-Holds source (Loses ds) w ds (λ i lost. lost)
        (new-Holds fault m source (Loses ds) made a e))
