-- ===== src/FileRelay/Chunker.antt =====
-- daemon/src/file_relay/chunker.rs: the sender's view of a file, read chunk by chunk. The file
-- may change on disk after the manifest is made, so the two are kept apart.
pub mod Cover
use decentis.Prelude.{
  ℕ, ◌+◌, ◌-◌, ◌*◌, ◌%◌, Bool, List, [], ◌∷◌, Option, some, none, length, ltb, leb, ◌==◌, ◌&&◌,
  if◌then◌else◌,
}
use decentis.FileRelay.File.{File, seek, read_exact}
use decentis.FileRelay.FilePath.{utf8_file_name}
use decentis.FileRelay.Manifest
use decentis.FileRelay.Manifest.{FileManifest, ChunkPayload, chunk_size}

pub record FileChunker : Type 0 where
  pub file : File
  pub manifest : FileManifest

-- b"unknown.bin"
abbrev pub unknown_bin : List ℕ
unknown_bin = b'u' ∷ b'n' ∷ b'k' ∷ b'n' ∷ b'o' ∷ b'w' ∷ b'n' ∷ b'.' ∷ b'b' ∷ b'i' ∷ b'n' ∷ []

abbrev pub name_or_unknown : Option (List ℕ) → List ℕ
name_or_unknown (some name) = name
name_or_unknown none = unknown_bin

-- `opened` is what the first `open` of the path gives, `reopened` what the hashing thread reads:
-- `none` is an error of either. `blake3` is the crate's hash of the bytes.
unfoldable pub new :
    (List ℕ → List ℕ) → List ℕ → List ℕ → Option (List ℕ) → Option (List ℕ) → Option FileChunker
new blake3 transfer_id file_path none reopened = none
new blake3 transfer_id file_path (some content) none = none
new blake3 transfer_id file_path (some content) (some hashed) = some (record {
  file = record { content = content; pos = 0 };
  manifest =
      Manifest.new transfer_id (name_or_unknown (utf8_file_name file_path)) (length content)
        (blake3 hashed);
})

pub data ChunkResult : Type 0 where
  chunk : ChunkPayload → List ℕ → ChunkResult
  out_of_bounds unexpected_eof : ChunkResult

-- The size of a chunk: that of the last one is the remainder, unless that is 0.
unfoldable pub expected_size : FileManifest → ℕ → ℕ
expected_size m chunk_index =
    let remainder = m.file_size % chunk_size in
    if chunk_index == m.total_chunks - 1 && ltb 0 remainder then remainder else chunk_size

unfoldable pub read_chunk : FileChunker → ℕ → ChunkResult × FileChunker
unfolding expected_size
read_chunk c chunk_index =
    if leb c.manifest.total_chunks chunk_index
    then (out_of_bounds, c)
    else let sought = seek c.file (chunk_index * chunk_size) in
      let size = expected_size c.manifest chunk_index in
      elim (read_exact sought size) [
        | none ↦ (unexpected_eof, record c { file = sought })
        | some (buffer, file') ↦ (
          chunk (record { chunk_index = chunk_index; payload_length = size }) buffer,
          record c { file = file' },
        )
      ]
