-- ===== src/FileRelay/Writer.antt =====
-- daemon/src/file_relay/writer.rs: the receiver's file, written chunk by chunk in any order. What
-- the operating system answers is an argument: `Fault` names the call that fails, if one does.
pub mod Store
pub mod Assemble
pub mod Progress
use decentis.Prelude.{
  ℕ, ◌-◌, ◌*◌, Bool, true, false, ◌&&◌, List, [], ◌∷◌, Option, some, none, ltb, leb, take, set,
  get_elem?, replicate, if◌then◌else◌,
}
use decentis.FileRelay.File.{File, empty, seek, write_all}
use decentis.FileRelay.Manifest.{FileManifest, chunk_size}

pub record DiskWriter : Type 0 where
  pub file : File
  pub manifest : FileManifest
  pub received_chunks : List Bool

-- A write is only buffered when `write_all` returns. `at_write n`: `write_all` returns an error
-- after `n` bytes, which may be that of an earlier write. `lost_write n`: it returns `Ok`, and the
-- write itself fails after `n` bytes.
pub data Fault : Type 0 where
  no_fault at_open at_seek : Fault
  at_write lost_write : ℕ → Fault

-- The writer of an opened and truncated file.
abbrev pub fresh : FileManifest → File → DiskWriter
fresh m f = record { file = f; manifest = m; received_chunks = replicate m.total_chunks false }

-- The file is stretched by one byte at its end, unless it is to be empty.
abbrev stretch : Fault → FileManifest → Option DiskWriter
stretch at_seek m = none
stretch (at_write n) m = none
stretch (lost_write n) m = some (fresh m empty)
stretch _ m = some (fresh m (write_all (seek empty (m.file_size - 1)) (0 ∷ [])))

unfoldable pub new : Fault → FileManifest → Option DiskWriter
new at_open m = none
new fault m = if ltb 0 m.file_size then stretch fault m else some (fresh m empty)

pub data WriteResult : Type 0 where
  ok out_of_bounds io_error panicked : WriteResult

-- Seek, write, and mark the chunk; an error that is returned is returned before the mark.
unfoldable pub store : Fault → DiskWriter → ℕ → List ℕ → WriteResult × DiskWriter
store at_seek w i payload = (io_error, w)
store (at_write n) w i payload =
    (io_error, record w { file = write_all (seek w.file (i * chunk_size)) (take n payload) })
store (lost_write n) w i payload = (
  ok,
  record w {
    file = write_all (seek w.file (i * chunk_size)) (take n payload);
    received_chunks = set w.received_chunks i true;
  },
)
store _ w i payload = (
  ok,
  record w {
    file = write_all (seek w.file (i * chunk_size)) payload;
    received_chunks = set w.received_chunks i true;
  },
)

unfoldable pub write_chunk : Fault → DiskWriter → ℕ → List ℕ → WriteResult × DiskWriter
unfolding store
write_chunk fault w chunk_index payload =
    if leb w.manifest.total_chunks chunk_index
    then (out_of_bounds, w)
    else elim (get_elem? w.received_chunks chunk_index) [
      | none ↦ (panicked, w)
      | some true ↦ (ok, w)
      | some false ↦ store fault w chunk_index payload
    ]

abbrev pub all : List Bool → Bool
all [] = true
all (b ∷ bs) = b && all bs

unfoldable pub is_complete : DiskWriter → Bool
is_complete w = all w.received_chunks
