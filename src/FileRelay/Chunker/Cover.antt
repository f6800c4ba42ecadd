-- ===== src/FileRelay/Chunker/Cover.antt =====
-- The chunks of an unchanged file are its slices, and together they are the file.
use decentis.Prelude.{
  ℕ, zero, suc, ◌+◌, ◌*◌, ◌≤◌, ◌<◌, List, [], ◌++◌, Option, some, none, length, take, drop, ◌≡◌,
  refl, ap, ◌∙◌, arith, length-drop,
}
use decentis.FileRelay.File.{File, read_exact}
use native.Mathlib.Numerals.{add-one}
use decentis.FileRelay.Slice.{slice, slices, length-slice, slices_cover, take_upto_length}
use decentis.FileRelay.Manifest
use decentis.FileRelay.Manifest.{FileManifest, ChunkPayload, chunk_size, count_chunks}
use decentis.FileRelay.Manifest.Count.{max_file_size, count_chunks_exact}
use decentis.FileRelay.Chunker.{FileChunker, new, ChunkResult, chunk, expected_size, read_chunk}

-- The manifest counts this very file, and the file is not too large for that.
pub record Describes (c : FileChunker) (content : List ℕ) : Type 0 where
  pub unchanged : c.file.content ≡ content
  pub sized : c.manifest.file_size ≡ length content
  pub counted : c.manifest.total_chunks ≡ count_chunks (length content)
  pub small : length content ≤ max_file_size

-- What `expected_size` computes is the length of the slice.
expected_size-eq-slice :
    (c : FileChunker) (content : List ℕ) (i : ℕ)
    → Describes c content
    → i < c.manifest.total_chunks
    → (expected_size c.manifest i ≡ length (slice chunk_size content i))
      × (i * chunk_size + expected_size c.manifest i ≤ length content)
unfolding expected_size
expected_size-eq-slice c content i d lt =
    ground (arith, length-slice chunk_size i content, count_chunks_exact (length content) d.small)

read_exact-slice :
    (f : File) (n : ℕ)
    → f.pos + n ≤ length f.content
    → read_exact f n ≡ some (take n (drop f.pos f.content), record f { pos = f.pos + n })
unfolding read_exact
read_exact-slice f n h = ground (arith, length-drop f.pos f.content)

-- A chunk in range is read as the slice of the file with that number, under a header that names
-- it and its length, and the chunker goes on describing the file.
pub read_chunk-slice :
    (c : FileChunker) (content : List ℕ) (i : ℕ)
    → Describes c content
    → i < c.manifest.total_chunks
    → (c' : FileChunker) × (read_chunk c i ≡ (
      chunk
          (record { chunk_index = i; payload_length = length (slice chunk_size content i) })
          (slice chunk_size content i),
      c',
    ))
      × Describes c' content
      × (c'.manifest ≡ c.manifest)
unfolding read_chunk
read_chunk-slice c content i d lt = (
  record c { file = record (c.file) { pos = i * chunk_size + expected_size c.manifest i } },
  ground (
    arith,
    expected_size-eq-slice c content i d lt,
    read_exact-slice (record (c.file) { pos = i * chunk_size }) (expected_size c.manifest i),
    same_bytes,
  ),
  record { unchanged = d.unchanged; sized = d.sized; counted = d.counted; small = d.small },
  refl,
)
  where
    same_bytes :
        take (expected_size c.manifest i) (drop (i * chunk_size) content)
        ≡ slice chunk_size content i
    same_bytes =
        unfold slice in
        take_upto_length (expected_size c.manifest i) chunk_size (drop (i * chunk_size) content) (
          omega (
            arith,
            expected_size-eq-slice c content i d lt,
            length-slice chunk_size i content,
            length-drop (i * chunk_size) content,
          ))

-- The bytes of `n` chunks from number `i` on, read one after the other.
pub read_from : FileChunker → ℕ → ℕ → Option (List ℕ)
read_from c i zero = some []
read_from c i (suc n) = let (result, c') = read_chunk c i in collect result (read_from c' (i + 1) n)
  where
    collect : ChunkResult → Option (List ℕ) → Option (List ℕ)
    collect (chunk header bytes) (some rest) = some (bytes ++ rest)
    collect _ _ = none

read_from-slices :
    (c : FileChunker) (content : List ℕ) (i n : ℕ)
    → Describes c content
    → i + n ≤ c.manifest.total_chunks
    → read_from c i n ≡ some (slices chunk_size content i n)
unfolding read_from slices
read_from-slices c content i zero d h = refl
read_from-slices c content i (suc n) d h =
    let (c', reads, d', same) = read_chunk-slice c content i d (omega arith) in
    rw (reads, add-one, read_from-slices c' content (suc i) n d' (rw same (omega arith)))

-- Reading all chunks in order gives back an unchanged file, byte for byte.
pub read_from-cover :
    (c : FileChunker) (content : List ℕ)
    → Describes c content
    → read_from c 0 c.manifest.total_chunks ≡ some content
read_from-cover c content d =
    read_from-slices c content 0 c.manifest.total_chunks d (omega arith)
    ∙ ap some (
        slices_cover chunk_size content 0 c.manifest.total_chunks
          (omega (arith, count_chunks_exact (length content) d.small, d.counted)))

-- A new chunker over an openable file that is not too large describes it.
new-Describes :
    (blake3 : List ℕ → List ℕ) (transfer_id : List ℕ) (file_path : List ℕ) (content : List ℕ)
    {c : FileChunker}
    → length content ≤ max_file_size
    → new blake3 transfer_id file_path (some content) (some content) ≡ some c
    → Describes c content
unfolding new Manifest.new
new-Describes blake3 transfer_id file_path content h e = ground arith
