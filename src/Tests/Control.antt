-- ===== src/Tests/Control.antt =====
-- A send that the client asks for, with the peer's registry and file of the other tests.
use decentis.Prelude.{ℕ, ◌≤◌, Bool, true, List, [], ◌∷◌, some, none, length, ◌≡◌, ◌⊎◌, refl, arith}
use decentis.Daemon.{Connection, PeerRegistry, get}
use decentis.Daemon.Control.{
  StreamItem, chunker_failed, not_found, streaming, Request, initiate_send, get_status,
}
use decentis.Daemon.Control.Delivery.{manifest_of, TellsCompleted, initiate_send-serve}
use decentis.FileRelay.Manifest
use decentis.FileRelay.Manifest.{FileManifest, count_chunks}
use decentis.FileRelay.Chunker
use decentis.FileRelay.FilePath.{utf8_file_name}
use decentis.FileRelay.Writer.{DiskWriter, is_complete}
use decentis.FileRelay.Slice.{slice}
use decentis.Transport.Frame.{encode}
use decentis.Transport.Stream.Receive.{waiting, Receiver, serve}
use decentis.Transport.Stream.Wire.{Encodes, frame, chunk_wire, chunks_wire, transfer_wire}
use decentis.Tests.FileRelay.{source}
use decentis.Tests.Stream.{
  header_bytes, payloads, payloads-EncodesHeaders, manifests, manifest_bytes, speed, attends,
}

abbrev peers : PeerRegistry
peers = (5 ∷ [], 3) ∷ []

abbrev request : Request
request = record {
  peer_virtual_ip = 5 ∷ [];
  transfer_id = 1 ∷ [];
  file_path = b'd' ∷ b'/' ∷ b'a' ∷ [];
  opened = some source;
  reopened = some source;
}

abbrev blake3 : List ℕ → List ℕ
blake3 bytes = 5 ∷ []

abbrev stream : Connection → Bool × ℕ
stream conn = (true, 100)

finds : get peers (5 ∷ []) ≡ some 3
unfolding get
finds = refl

codes-manifest : Encodes manifests (manifest_of blake3 request source) manifest_bytes
unfolding Manifest.new count_chunks Manifest.u64_as_f64 utf8_file_name
codes-manifest = record { encoded = refl; decoded = refl; short = omega arith }

fits : length (transfer_wire header_bytes source manifest_bytes (count_chunks 3)) ≤ 100
unfolding transfer_wire chunks_wire chunk_wire frame encode slice count_chunks Manifest.u64_as_f64
fits = omega arith

initiate_send-serve_example :
    (items : List StreamItem) × (sent : List ℕ) × (r' : Receiver) × (w : DiskWriter)
    × (initiate_send manifests payloads speed attends blake3 stream peers request
        ≡ (streaming items, (3, sent) ∷ []))
    × (serve manifests payloads 101 (waiting sent) ≡ some r')
    × (r'.writer ≡ some w)
    × (is_complete w ≡ true)
    × (w.file.content ≡ source)
    × ((length source ≡ 0) ⊎ TellsCompleted (length source) items)
initiate_send-serve_example =
    initiate_send-serve manifests payloads header_bytes payloads-EncodesHeaders source speed attends
      blake3 stream peers request 3 manifest_bytes 101 finds refl refl (omega arith) codes-manifest
      (λ i. refl) refl fits (omega arith)

knows-nobody :
    initiate_send manifests payloads speed attends blake3 stream [] request ≡ (not_found, [])
unfolding initiate_send get
knows-nobody = refl

-- The file is gone when it is hashed.
tells-failure :
    initiate_send manifests payloads speed attends blake3 stream peers
      (record request { reopened = none })
    ≡ (streaming (chunker_failed ∷ []), [])
unfolding initiate_send get Chunker.new
tells-failure = refl

counts-peers : (get_status (5 ∷ []) peers).active_peers_count ≡ 1
unfolding get_status
counts-peers = refl
