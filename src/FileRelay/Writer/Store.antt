-- ===== src/FileRelay/Writer/Store.antt =====
-- One write of right bytes, whole or broken off, spoils no marked chunk.
use decentis.Prelude.{
  ℕ, ◌+◌, ◌-◌, ◌*◌, ◌/◌, ◌≤◌, ◌<◌, true, false, List, length, take, set, get_or, ◌==◌, ◌≡◌, sym,
  ◌∙◌, arith, ◌⊎◌, inl, inr, Bool-cases, length-take, length-set, get_or-set_ne, get_or-take,
  take-ge, ==_iff,
}
use decentis.FileRelay.File
use decentis.FileRelay.File.{
  File, write_at, write_all, length-write_at, get_or-write_at_inside, get_or-write_at_outside,
  length-write_at_end,
}
use decentis.FileRelay.Manifest.{chunk_size, count_chunks}
use decentis.FileRelay.Manifest.Count.{max_file_size, count_chunks_exact}
use decentis.FileRelay.Slice.{slice, length-slice, get_or-slice}
use decentis.FileRelay.Writer.{
  DiskWriter, Fault, no_fault, at_open, at_seek, at_write, lost_write, store,
}

-- The write fails behind an `Ok`.
abbrev pub IsLost : Fault → Type 0
IsLost (lost_write n) = Unit {0}
IsLost _ = ⊥

-- The writer has room for `source`, and every byte of a chunk that is marked is right, unless the
-- chunk may be lost.
pub record Holds (source : List ℕ) (Lost : ℕ → Type 0) (w : DiskWriter) : Type 0 where
  pub sized : length w.file.content ≡ length source
  pub counted : w.manifest.total_chunks ≡ count_chunks (length source)
  pub tracked : length w.received_chunks ≡ w.manifest.total_chunks
  pub small : length source ≤ max_file_size
  pub kept :
      (k : ℕ)
      → k < length source
      → get_or w.received_chunks (k / chunk_size) false ≡ true
      → (Lost (k / chunk_size) → ⊥)
      → get_or w.file.content k 0 ≡ get_or source k 0

-- Part of a slice, written at its place, agrees with the source where it was written, and changes
-- nothing elsewhere.
write_slice :
    (c i n k : ℕ) (source content : List ℕ)
    → length content ≡ length source
    → i * c ≤ length source
    → let part = take n (slice c source i) in
      (length (write_at content (i * c) part) ≡ length source)
      × ((k < i * c) ⊎ (i * c + length part ≤ k)
          → get_or (write_at content (i * c) part) k 0 ≡ get_or content k 0)
      × (i * c ≤ k
          → k < i * c + length part
          → get_or (write_at content (i * c) part) k 0 ≡ get_or source k 0)
write_slice c i n k source content same below = (
  length-write_at content (i * c) part fits ∙ same,
  get_or-write_at_outside content (i * c) part k fits,
  λ from upto.
      let j = k - i * c in
      let at : i * c + j ≡ k = omega arith in
      let short : j < length part = omega arith in
      let inside : get_or (write_at content (i * c) part) (i * c + j) 0 ≡ get_or part j 0 =
        get_or-write_at_inside content (i * c) part j fits short in
      let taken : get_or part j 0 ≡ get_or (slice c source i) j 0 =
        get_or-take n j 0 (slice c source i) (omega (arith, length-take n (slice c source i))) in
      let sliced : get_or (slice c source i) j 0 ≡ get_or source (i * c + j) 0 =
        get_or-slice c i j source
          (omega (arith, length-take n (slice c source i), length-slice c i source)) in
      rw at at (inside ∙ taken ∙ sliced),
)
  where
    part : List ℕ
    part = take n (slice c source i)

    fits : i * c + length part ≤ length content
    fits = omega (arith, length-take n (slice c source i), length-slice c i source)

module _ (w : DiskWriter) (i : ℕ) (source : List ℕ) (Lost : ℕ → Type 0) (h : Holds source Lost w)
    (lt : i < w.manifest.total_chunks) (unmarked : get_or w.received_chunks i false ≡ false) where
  abbrev pub chunk_i : List ℕ
  chunk_i = slice chunk_size source i

  below_end : i * chunk_size ≤ length source
  below_end = omega (arith, h.counted, count_chunks_exact (length source) h.small)

  -- A write that fails after `n` bytes spoils no marked chunk.
  partial-Holds :
      (n : ℕ)
      → Holds source Lost
          (record w { file = write_all (File.seek w.file (i * chunk_size)) (take n chunk_i) })
  unfolding write_all
  partial-Holds n = record {
    sized = (write_slice chunk_size i n 0 source w.file.content h.sized below_end).0;
    counted = h.counted;
    tracked = h.tracked;
    small = h.small;
    kept = λ k lt_k marked safe. elim (Bool-cases (k / chunk_size == i)) [
      | inl same ↦ absurd (ground (arith, rw ((==_iff (k / chunk_size) i).0 same) at marked))
      | inr other ↦
          (write_slice chunk_size i n k source w.file.content h.sized below_end).1
            (ground (arith, length-take n chunk_i, length-slice chunk_size i source))
          ∙ h.kept k lt_k marked safe
    ];
  }

  -- Nor does one that fails so behind an `Ok`, but its own chunk is marked.
  lost-Holds :
      (n : ℕ)
      → Lost i
      → Holds source Lost (record w {
        file = write_all (File.seek w.file (i * chunk_size)) (take n chunk_i);
        received_chunks = set w.received_chunks i true;
      })
  unfolding write_all
  lost-Holds n lost = record {
    sized = (write_slice chunk_size i n 0 source w.file.content h.sized below_end).0;
    counted = h.counted;
    tracked = length-set w.received_chunks i true ∙ h.tracked;
    small = h.small;
    kept = λ k lt_k marked safe. elim (Bool-cases (k / chunk_size == i)) [
      | inl same ↦ absurd (safe (rw ((==_iff (k / chunk_size) i).0 same) lost))
      | inr other ↦
          (write_slice chunk_size i n k source w.file.content h.sized below_end).1
            (ground (arith, length-take n chunk_i, length-slice chunk_size i source))
          ∙ h.kept k lt_k
              (sym (get_or-set_ne w.received_chunks i (k / chunk_size) true false (ground arith))
                ∙ marked)
              safe
    ];
  }

  full-Holds : Holds source Lost (record w {
    file = write_all (File.seek w.file (i * chunk_size)) chunk_i;
    received_chunks = set w.received_chunks i true;
  })
  unfolding write_all
  full-Holds = record {
    sized = rw whole at (written 0).0;
    counted = h.counted;
    tracked = length-set w.received_chunks i true ∙ h.tracked;
    small = h.small;
    kept = λ k lt_k marked safe. elim (Bool-cases (k / chunk_size == i)) [
      | inl same ↦
          (rw whole at (written k)).2 (ground arith)
            (ground (arith, length-slice chunk_size i source))
      | inr other ↦
          (rw whole at (written k)).1 (ground (arith, length-slice chunk_size i source))
          ∙ h.kept k lt_k
              (sym (get_or-set_ne w.received_chunks i (k / chunk_size) true false (ground arith))
                ∙ marked)
              safe
    ];
  }
    where
      whole : take chunk_size chunk_i ≡ chunk_i
      whole = take-ge chunk_size chunk_i (omega (arith, length-slice chunk_size i source))

      written :
          (k : ℕ)
          → let part = take chunk_size chunk_i in
            (length (write_at w.file.content (i * chunk_size) part) ≡ length source)
            × ((k < i * chunk_size) ⊎ (i * chunk_size + length part ≤ k)
                → get_or (write_at w.file.content (i * chunk_size) part) k 0
                  ≡ get_or w.file.content k 0)
            × (i * chunk_size ≤ k
                → k < i * chunk_size + length part
                → get_or (write_at w.file.content (i * chunk_size) part) k 0 ≡ get_or source k 0)
      written k = write_slice chunk_size i chunk_size k source w.file.content h.sized below_end

  pub store-Holds :
      (fault : Fault) → (IsLost fault → Lost i) → Holds source Lost (store fault w i chunk_i).1
  unfolding store
  store-Holds no_fault lost = full-Holds
  store-Holds at_open lost = full-Holds
  store-Holds at_seek lost = h
  store-Holds (at_write n) lost = partial-Holds n
  store-Holds (lost_write n) lost = lost-Holds n (lost tt)
