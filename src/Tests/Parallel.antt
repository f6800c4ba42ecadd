-- ===== src/Tests/Parallel.antt =====
-- Two transfers of daemon/src/transport/stream.rs at once, over two streams of a connection.
use decentis.Prelude.{ℕ, List, [], ◌∷◌, ◌++◌, ◌≡◌, refl, arith}
use decentis.Transport.Frame.{encode, decode}
use decentis.FileRelay.File.{write_at, write_all}
use decentis.FileRelay.Manifest
use decentis.FileRelay.Manifest.{FileManifest, chunk_size, count_chunks}
use decentis.FileRelay.Disk.{
  DiskOp, truncate, write, apply_ops, Mixed, no_tasks, add_task, none_left, from_left, from_right,
}
use decentis.FileRelay.Writer
use decentis.FileRelay.Writer.{DiskWriter, store, write_chunk, is_complete}
use decentis.FileRelay.Writer.Assemble.{Announces}
use decentis.FileRelay.Slice.{slice}
use decentis.Transport.Stream.Receive.{
  spawn_incoming_stream_listener, turn, dispatch, on_manifest, on_chunk, read_or_break,
  decode_or_break,
}
use decentis.Transport.Stream.Wire.{Encodes, frame, chunk_wire, chunks_wire, transfer_wire}
use decentis.Transport.Stream.DiskOps.{serve_ops, turn_ops, dispatch_ops}
use decentis.Transport.Stream.Parallel.{arrived}
use decentis.Transport.Stream.Listener.{
  Transfer, AreWhole, AreStored, arrivals, all_task_ops, spawn_incoming_stream_listener-Mixed,
}
use decentis.Tests.FileRelay.{source, announced, counts_one}
use decentis.Tests.Stream.{
  header_bytes, payloads, payloads-EncodesHeaders, manifests, manifest_bytes, manifests-Encodes,
}

-- A file is the first byte of its name.
abbrev file_of : List ℕ → ℕ
file_of [] = 0
file_of (c ∷ name) = c

abbrev second_source : List ℕ
second_source = 4 ∷ 5 ∷ []

abbrev second_announced : ℕ → FileManifest
second_announced c = record {
  transfer_id = 2 ∷ [];
  file_name = c ∷ [];
  file_size = 2;
  manifest_chunk_size = chunk_size;
  total_chunks = 1;
  blake3_root_hash = 6 ∷ [];
}

abbrev second_manifest_bytes : ℕ → List ℕ
second_manifest_bytes c = 2 ∷ c ∷ 2 ∷ 1 ∷ 6 ∷ []

abbrev first_ops : List DiskOp
first_ops = truncate b'a' ∷ write b'a' 2 (0 ∷ []) ∷ write b'a' 0 (7 ∷ 8 ∷ 9 ∷ []) ∷ []

abbrev second_ops : ℕ → List DiskOp
second_ops c = truncate c ∷ write c 1 (0 ∷ []) ∷ write c 0 (4 ∷ 5 ∷ []) ∷ []

-- The tasks take turns.
abbrev mixed_ops : List DiskOp
mixed_ops =
    truncate b'b'
    ∷ truncate b'a'
    ∷ write b'b' 1 (0 ∷ [])
    ∷ write b'a' 2 (0 ∷ [])
    ∷ write b'a' 0 (7 ∷ 8 ∷ 9 ∷ [])
    ∷ write b'b' 0 (4 ∷ 5 ∷ [])
    ∷ []

-- `transfers`, their announcements and the mixed operations.
abbrev transfers : List Transfer
transfers =
    record { content = source; manifest = announced; manifest_bytes = manifest_bytes }
    ∷ record {
      content = second_source;
      manifest = second_announced b'b';
      manifest_bytes = second_manifest_bytes b'b';
    }
    ∷ []

second_announced-Announces : Announces second_source (second_announced b'b')
unfolding count_chunks Manifest.u64_as_f64
second_announced-Announces = record {
  file_size_eq = refl;
  total_chunks_eq = refl;
  size_le = omega arith;
}

second_announced-Encodes : Encodes manifests (second_announced b'b') (second_manifest_bytes b'b')
second_announced-Encodes = record { encoded = refl; decoded = refl; short = omega arith }

announced-Announces : Announces source announced
announced-Announces = record {
  file_size_eq = refl;
  total_chunks_eq = counts_one;
  size_le = omega arith;
}

transfers-AreWhole : AreWhole manifests transfers
transfers-AreWhole = (
  (manifests-Encodes, announced-Announces),
  ((second_announced-Encodes, second_announced-Announces), tt),
)

mixed_ops-Mixed :
    Mixed
      (all_task_ops file_of manifests payloads
        (spawn_incoming_stream_listener (arrivals header_bytes transfers)))
      mixed_ops
unfolding spawn_incoming_stream_listener transfer_wire chunks_wire chunk_wire frame encode decode
    slice serve_ops turn_ops dispatch_ops turn dispatch on_manifest on_chunk Writer.new write_chunk
    store write_all write_at read_or_break decode_or_break
mixed_ops-Mixed =
    add_task (from_right (from_left (from_right (from_left (from_left (from_right none_left))))))
      (add_task (from_left (from_left (from_left none_left))) no_tasks)

spawn_incoming_stream_listener-Mixed_example :
    AreStored file_of manifests payloads header_bytes (apply_ops mixed_ops (λ f. 1 ∷ [])) transfers
spawn_incoming_stream_listener-Mixed_example =
    spawn_incoming_stream_listener-Mixed file_of manifests payloads header_bytes
      payloads-EncodesHeaders transfers mixed_ops (λ f. 1 ∷ []) transfers-AreWhole
      (((λ same. ground (arith, same)), tt), (tt, tt)) mixed_ops-Mixed

-- The names have to lead to different files: a second stream with the same name empties the file
-- under the first one, whose writer is complete all the same.
first-overwritten :
    apply_ops
      (serve_ops file_of manifests payloads 101
          (arrived header_bytes source announced manifest_bytes)
        ++ serve_ops file_of manifests payloads 101 (
            arrived header_bytes second_source
              (second_announced b'a')
              (second_manifest_bytes b'a')))
      (λ f. [])
      b'a'
    ≡ second_source
unfolding transfer_wire chunks_wire chunk_wire frame encode decode slice serve_ops turn_ops
    dispatch_ops turn dispatch on_manifest on_chunk Writer.new write_chunk store write_all write_at
    read_or_break decode_or_break apply_ops
first-overwritten = refl
