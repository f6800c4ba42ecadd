-- ===== src/Tests/Source/Relay.antt =====
-- The test modules of daemon/src/file_relay: manifest.rs, writer.rs and chunker.rs.
use decentis.Prelude.{
  ℕ, ◌*◌, Bool, true, false, not, ◌&&◌, List, [], ◌∷◌, Option, some, none, length, replicate,
  length-replicate, get_or, ◌==◌, ◌≡◌, refl, arith, ltb, take, drop, length-take, length-drop,
  get_or-take, ◌∙◌,
}
use decentis.Daemon.{same}
use decentis.Daemon.Registry.{same_refl}
use decentis.FileRelay.Manifest
use decentis.FileRelay.Manifest.{
  FileManifest, ChunkPayload, Postcard, chunk_size, count_chunks, u64_as_f64,
}
use decentis.FileRelay.File.{read_exact}
use decentis.FileRelay.Writer
use decentis.FileRelay.Writer.{DiskWriter, WriteResult, no_fault, write_chunk, store, is_complete}
use decentis.FileRelay.Chunker
use decentis.FileRelay.FilePath.{utf8_file_name}
use decentis.FileRelay.Chunker.{
  name_or_unknown, FileChunker, ChunkResult, chunk, read_chunk, expected_size,
}

-- `assert_eq!` of two manifests.
abbrev same_manifest : FileManifest → FileManifest → Bool
same_manifest m n =
    same m.transfer_id n.transfer_id
    && (same m.file_name n.file_name
        && (m.file_size == n.file_size
            && (m.manifest_chunk_size == n.manifest_chunk_size
                && (m.total_chunks == n.total_chunks
                    && same m.blake3_root_hash n.blake3_root_hash))))

same_manifest_refl : (m : FileManifest) → same_manifest m m ≡ true
same_manifest_refl m =
    ground (arith, same_refl m.transfer_id, same_refl m.file_name, same_refl m.blake3_root_hash)

module _ (manifests : Postcard FileManifest) (blake3 : List ℕ → List ℕ) where
  -- "transfer-123", "ubuntu.iso", b"dummy data"
  iso : FileManifest
  iso =
      Manifest.new
        (b't' ∷ b'r' ∷ b'a' ∷ b'n' ∷ b's' ∷ b'f' ∷ b'e' ∷ b'r' ∷ b'-' ∷ b'1' ∷ b'2' ∷ b'3' ∷ [])
        (b'u' ∷ b'b' ∷ b'u' ∷ b'n' ∷ b't' ∷ b'u' ∷ b'.' ∷ b'i' ∷ b's' ∷ b'o' ∷ [])
        (1024 * 1024 * 500)
        (blake3 (b'd' ∷ b'u' ∷ b'm' ∷ b'm' ∷ b'y' ∷ b' ' ∷ b'd' ∷ b'a' ∷ b't' ∷ b'a' ∷ []))

  -- `unwrap`, then `assert_eq!`
  abbrev decoded_is : FileManifest → Option FileManifest → Bool
  decoded_is m none = false
  decoded_is m (some decoded) = same_manifest m decoded

  abbrev decodes_to : FileManifest → Option (List ℕ) → Bool
  decodes_to m none = false
  decodes_to m (some bytes) = decoded_is m (manifests.from_bytes bytes)

  test_manifest_serialization : Bool
  test_manifest_serialization = iso.total_chunks == 8000 && decodes_to iso (manifests.to_bytes iso)

  iso_counts : iso.total_chunks ≡ 8000
  unfolding iso Manifest.new count_chunks
  iso_counts = refl

  test_manifest_serialization-succeeds :
      (bytes : List ℕ)
      → manifests.to_bytes iso ≡ some bytes
      → manifests.from_bytes bytes ≡ some iso
      → test_manifest_serialization ≡ true
  unfolding test_manifest_serialization
  test_manifest_serialization-succeeds bytes written read =
      rw (written, read) (ground (arith, iso_counts, same_manifest_refl iso))

-- "test-transfer", "sparse_test.bin": 3 chunks of 65536 bytes each
sparse : FileManifest
sparse =
    Manifest.new
      (b't' ∷ b'e' ∷ b's' ∷ b't' ∷ b'-' ∷ b't' ∷ b'r' ∷ b'a' ∷ b'n' ∷ b's' ∷ b'f' ∷ b'e' ∷ b'r'
        ∷ [])
      (b's' ∷ b'p' ∷ b'a' ∷ b'r' ∷ b's' ∷ b'e' ∷ b'_' ∷ b't' ∷ b'e' ∷ b's' ∷ b't' ∷ b'.' ∷ b'b'
        ∷ b'i' ∷ b'n' ∷ [])
      (chunk_size * 3) (replicate 32 0)

dummy_chunk : List ℕ
dummy_chunk = replicate 65_536 0xaa

abbrev is_ok : WriteResult → Bool
is_ok Writer.ok = true
is_ok _ = false

abbrev out_of_order : DiskWriter → Bool
out_of_order writer =
    let (second, w2) = write_chunk no_fault writer 2 dummy_chunk in
    let (zeroth, w0) = write_chunk no_fault w2 0 dummy_chunk in
    let (first, w1) = write_chunk no_fault w0 1 dummy_chunk in
    not (is_complete writer)
    && (is_ok second
        && (not (is_complete w2)
            && (is_ok zeroth && (not (is_complete w0) && (is_ok first && is_complete w1)))))

abbrev opened_and : (DiskWriter → Bool) → Option DiskWriter → Bool
opened_and test none = false
opened_and test (some writer) = test writer

abbrev test_sparse_allocation_and_out_of_order_writes : Bool
test_sparse_allocation_and_out_of_order_writes =
    opened_and out_of_order (Writer.new no_fault sparse)

test_sparse_allocation-succeeds : test_sparse_allocation_and_out_of_order_writes ≡ true
unfolding Writer.new write_chunk is_complete sparse Manifest.new count_chunks
test_sparse_allocation-succeeds = refl

abbrev is_chunk : ℕ → ℕ → ChunkResult → Bool
is_chunk index size (chunk header bytes) =
    header.chunk_index == index && (header.payload_length == size && length bytes == size)
is_chunk index size _ = false

abbrev starts_with : ℕ → ChunkResult → Bool
starts_with byte (chunk header bytes) = get_or bytes 0 0 == byte
starts_with byte _ = false

-- "transfer-777"
abbrev transfer_777 : List ℕ
transfer_777 =
    b't' ∷ b'r' ∷ b'a' ∷ b'n' ∷ b's' ∷ b'f' ∷ b'e' ∷ b'r' ∷ b'-' ∷ b'7' ∷ b'7' ∷ b'7' ∷ []

module _ (blake3 : List ℕ → List ℕ) (file_path : List ℕ) (dummy_data : List ℕ) where
  abbrev reads_both : FileChunker → Bool
  reads_both chunker =
      let (zeroth, c0) = read_chunk chunker 0 in
      let (first, c1) = read_chunk c0 1 in
      chunker.manifest.file_size == 102_400
      && (chunker.manifest.total_chunks == 2
          && ((is_chunk 0 chunk_size zeroth && starts_with 0x77 zeroth) && is_chunk 1 36_864 first))

  abbrev chunked_and : (FileChunker → Bool) → Option FileChunker → Bool
  chunked_and test none = false
  chunked_and test (some chunker) = test chunker

  -- The file that has been written holds the dummy data.
  abbrev test_chunker_hashing_and_reading : Bool
  test_chunker_hashing_and_reading =
      chunked_and reads_both
        (Chunker.new blake3 transfer_777 file_path (some dummy_data) (some dummy_data))

  abbrev made_chunker : ℕ → FileChunker
  made_chunker pos = record {
    file = record { content = dummy_data; pos = pos };
    manifest = record {
      transfer_id = transfer_777;
      file_name = name_or_unknown (utf8_file_name file_path);
      file_size = 102_400;
      manifest_chunk_size = 65_536;
      total_chunks = 2;
      blake3_root_hash = blake3 dummy_data;
    };
  }

  module _ (sized : length dummy_data ≡ 102_400) (filled : get_or dummy_data 0 0 ≡ 0x77) where
    made_chunker-new :
        Chunker.new blake3 transfer_777 file_path (some dummy_data) (some dummy_data)
        ≡ some (made_chunker 0)
    unfolding Chunker.new Manifest.new count_chunks
    made_chunker-new = rw sized refl

    reads_zeroth : read_chunk (made_chunker 0) 0 ≡ (
      chunk (record { chunk_index = 0; payload_length = 65_536 }) (take 65_536 dummy_data),
      made_chunker 65_536,
    )
    unfolding read_chunk expected_size read_exact
    reads_zeroth =
        let enough : ltb (length dummy_data) 65_536 ≡ false = ground (arith, sized) in
        rw enough refl

    reads_first : read_chunk (made_chunker 65_536) 1 ≡ (
      chunk
          (record { chunk_index = 1; payload_length = 36_864 })
          (take 36_864 (drop 65_536 dummy_data)),
      made_chunker 102_400,
    )
    unfolding read_chunk expected_size read_exact
    reads_first =
        let enough : ltb (length (drop 65_536 dummy_data)) 36_864 ≡ false =
          ground (arith, length-drop 65_536 dummy_data, sized) in
        rw enough refl

    test_chunker-succeeds : test_chunker_hashing_and_reading ≡ true
    test_chunker-succeeds =
        let long : length (take 65_536 dummy_data) ≡ 65_536 =
          omega (arith, length-take 65_536 dummy_data, sized) in
        let short : length (take 36_864 (drop 65_536 dummy_data)) ≡ 36_864 = omega (
          arith,
          length-take 36_864 (drop 65_536 dummy_data),
          length-drop 65_536 dummy_data,
          sized,
        ) in
        let first_byte : get_or (take 65_536 dummy_data) 0 0 ≡ 0x77 =
          get_or-take 65_536 0 0 dummy_data (omega arith) ∙ filled in
        rw (made_chunker-new, reads_zeroth, reads_first, long, first_byte, short) refl

-- The dummy data of the test: 100 KB of one byte.
test_chunker_dummy_data :
    (blake3 : List ℕ → List ℕ) (file_path : List ℕ)
    → test_chunker_hashing_and_reading blake3 file_path (replicate 102_400 0x77) ≡ true
test_chunker_dummy_data blake3 file_path =
    test_chunker-succeeds blake3 file_path (replicate 102_400 0x77)
      (length-replicate {A = ℕ} 102_400 0x77) refl
