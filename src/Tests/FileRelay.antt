-- ===== src/Tests/FileRelay.antt =====
-- The relay of daemon/src/file_relay at a file of three bytes.
use decentis.Prelude.{
  length, get_or, ◌/◌, ℕ, ◌*◌, ◌≤◌, ◌<◌, true, false, List, [], ◌∷◌, some, ◌≡◌, ◌↔◌, inl, inr, refl,
  ap, arith,
}
use decentis.FileRelay.File.{write_at, write_all, read_exact}
use decentis.FileRelay.Manifest
use decentis.FileRelay.Manifest.{FileManifest, ChunkPayload, chunk_size, count_chunks}
use decentis.FileRelay.Manifest.Count.{max_file_size, count_chunks-covers_iff}
use decentis.FileRelay.Chunker
use decentis.FileRelay.FilePath.{utf8_file_name}
use decentis.FileRelay.Chunker.{FileChunker, ChunkResult, chunk, expected_size, read_chunk}
use decentis.FileRelay.Chunker.Cover.{Describes, read_from, read_from-cover}
use decentis.FileRelay.Slice.{slice}
use decentis.FileRelay.Writer
use decentis.FileRelay.Writer.{
  DiskWriter, Fault, no_fault, at_write, lost_write, ok, io_error, store, write_chunk, is_complete,
}
use decentis.FileRelay.Writer.Assemble.{Announces, Deliveries, Loses, receive, receive_complete}
use decentis.FileRelay.Writer.Progress.{is_marked, receive-Delivers_all, write_chunk-ok_iff}

abbrev pub source : List ℕ
source = 7 ∷ 8 ∷ 9 ∷ []

abbrev pub announced : FileManifest
announced = record {
  transfer_id = 1 ∷ [];
  file_name = b'a' ∷ [];
  file_size = 3;
  manifest_chunk_size = chunk_size;
  total_chunks = 1;
  blake3_root_hash = 5 ∷ [];
}

pub counts_one : 1 ≡ count_chunks 3
unfolding count_chunks Manifest.u64_as_f64
counts_one = refl

announced-Announces : Announces source announced
announced-Announces = record {
  file_size_eq = refl;
  total_chunks_eq = counts_one;
  size_le = omega arith;
}

abbrev new_writer : DiskWriter
new_writer = record {
  file = record { content = 0 ∷ 0 ∷ 0 ∷ []; pos = 3 };
  manifest = announced;
  received_chunks = false ∷ [];
}

opens_writer : Writer.new no_fault announced ≡ some new_writer
unfolding Writer.new write_all write_at
opens_writer = refl

-- A write that breaks off after two bytes, a number out of range, the chunk, and a repetition.
abbrev deliveries : Deliveries
deliveries = (at_write 2, 0) ∷ (no_fault, 5) ∷ (no_fault, 0) ∷ (no_fault, 0) ∷ []

ends_complete : is_complete (receive source new_writer deliveries) ≡ true
unfolding is_complete receive write_chunk store
ends_complete = refl

none_lost : (i : ℕ) → Loses deliveries i → ⊥
none_lost i (inl lost) = lost.0
none_lost i (inr (inl lost)) = lost.0
none_lost i (inr (inr (inl lost))) = lost.0
none_lost i (inr (inr (inr (inl lost)))) = lost.0
none_lost i (inr (inr (inr (inr lost)))) = lost

receive_complete_example :
    let content = (receive source new_writer deliveries).file.content in
    (length content ≡ length source)
    × ((k : ℕ)
        → k < length source
        → (Loses deliveries (k / chunk_size) → ⊥)
        → get_or content k 0 ≡ get_or source k 0)
receive_complete_example =
    receive_complete no_fault announced source deliveries (λ lost. lost) announced-Announces
      opens_writer ends_complete

delivered : (i : ℕ) → i < 1 → ◌≡◌ {A = Fault × ℕ} (no_fault, 0) (no_fault, i)
delivered i lt = ap (λ (j : ℕ). (no_fault, j)) (omega arith)

receive-Delivers_all_example :
    (is_complete (receive source new_writer deliveries) ≡ true)
    × (((i : ℕ) → Loses deliveries i → ⊥)
        → (receive source new_writer deliveries).file.content ≡ source)
receive-Delivers_all_example =
    receive-Delivers_all no_fault announced source deliveries (λ lost. lost) announced-Announces
      opens_writer (λ i lt. inr (inr (inl (delivered i lt))))

delivers-source : (receive source new_writer deliveries).file.content ≡ source
delivers-source = receive-Delivers_all_example.1 none_lost

write_chunk-ok_iff_example : ((write_chunk (at_write 2) new_writer 0 source).0 ≡ ok) ↔ (
    (0 < new_writer.manifest.total_chunks)
    × (is_marked (write_chunk (at_write 2) new_writer 0 source).1 0 ≡ true))
write_chunk-ok_iff_example = write_chunk-ok_iff (at_write 2) new_writer 0 source refl

-- The failed write is an error, and the bytes that it wrote stay in the file.
fails-partly :
    write_chunk (at_write 2) new_writer 0 source
    ≡ (io_error, record new_writer { file = record { content = 7 ∷ 8 ∷ 0 ∷ []; pos = 2 } })
unfolding write_chunk store write_all write_at
fails-partly = refl

-- A write that is lost behind its `Ok` leaves a complete writer with a wrong file, and a later
-- delivery of the chunk does not mend it.
abbrev losing : Deliveries
losing = (lost_write 2, 0) ∷ (no_fault, 0) ∷ []

loses-chunk :
    (is_complete (receive source new_writer losing) ≡ true)
    × ((receive source new_writer losing).file.content ≡ 7 ∷ 8 ∷ 0 ∷ [])
unfolding is_complete receive write_chunk store write_all write_at slice
loses-chunk = (refl, refl)

abbrev pub chunker : FileChunker
chunker = record { file = record { content = source; pos = 0 }; manifest = announced }

pub chunker-Describes : Describes chunker source
chunker-Describes = record {
  unchanged = refl;
  sized = refl;
  counted = counts_one;
  small = omega arith;
}

makes-chunker :
    Chunker.new (λ bytes. 5 ∷ []) (1 ∷ []) (b'/' ∷ b'a' ∷ []) (some source) (some source)
    ≡ some chunker
unfolding Chunker.new Manifest.new count_chunks Manifest.u64_as_f64 utf8_file_name
makes-chunker = refl

read_from-cover_example : read_from chunker 0 1 ≡ some source
read_from-cover_example = read_from-cover chunker source chunker-Describes

abbrev read_on : FileChunker
read_on = record chunker { file = record { content = source; pos = 3 } }

reads-chunk :
    read_chunk chunker 0 ≡ (chunk (record { chunk_index = 0; payload_length = 3 }) source, read_on)
unfolding read_chunk expected_size read_exact
reads-chunk = refl

-- One byte more than 65536 needs a second chunk.
counts_two : (count_chunks 65_536 ≡ 1) × (count_chunks 65_537 ≡ 2)
unfolding count_chunks Manifest.u64_as_f64
counts_two = (refl, refl)

count_chunks-covers_iff_example :
    (281_474_976_645_121 ≤ count_chunks 281_474_976_645_121 * chunk_size)
    ↔ (281_474_976_645_121 ≤ max_file_size)
count_chunks-covers_iff_example = count_chunks-covers_iff 281_474_976_645_121
