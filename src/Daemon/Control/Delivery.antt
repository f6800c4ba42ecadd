-- ===== src/Daemon/Control/Delivery.antt =====
-- A send that the client asks for, from the request to the file at the peer.
use decentis.Prelude.{
  ℕ, zero, suc, ◌≤◌, ◌<◌, Bool, true, List, [], ◌∷◌, ◌++◌, map, some, none, length, ◌≡◌, ◌⊎◌, inl,
  inr, refl, ap, ◌∙◌, arith,
}
use mathlib.Core.List.{map-append}
use decentis.Daemon.{Connection, PeerRegistry, get}
use decentis.Daemon.Control.{
  StreamItem, update, not_found, streaming, Request, new_sender, conclude, transfer, initiate_send,
}
use decentis.FileRelay.Manifest
use decentis.FileRelay.Manifest.{FileManifest, ChunkPayload, Postcard, count_chunks, chunk_size}
use decentis.FileRelay.Manifest.Count.{max_file_size, count_chunks_exact}
use decentis.FileRelay.Chunker
use decentis.FileRelay.FilePath.{utf8_file_name}
use decentis.FileRelay.Chunker.{FileChunker, name_or_unknown}
use decentis.FileRelay.Writer.{DiskWriter, is_complete}
use decentis.Transport.Stream.Send.{TransferProgress, completed}
use decentis.Transport.Stream.Receive.{waiting, Receiver, serve}
use decentis.Transport.Stream.Wire.{Encodes, EncodesHeaders, transfer_wire}
use decentis.Transport.Stream.Sending.{send_file-Sent}
use decentis.Transport.Stream.Transfer.{serve-transfer}

-- The manifest that the daemon makes for a request over these bytes.
abbrev pub manifest_of : (List ℕ → List ℕ) → Request → List ℕ → FileManifest
manifest_of blake3 req content =
    Manifest.new req.transfer_id (name_or_unknown (utf8_file_name req.file_path)) (length content)
      (blake3 content)

-- The last item tells of a complete transfer of `size` bytes.
abbrev pub TellsCompleted : ℕ → List StreamItem → Type 0
TellsCompleted size items =
    (before : List StreamItem) × (u : TransferProgress) × (items ≡ before ++ (update u ∷ []))
    × (u.status ≡ completed)
    × (u.bytes_transferred ≡ size)
    × (u.total_bytes ≡ size)

module _ (manifests : Postcard FileManifest) (payloads : Postcard ChunkPayload) (speed : ℕ → ℕ → ℕ)
    (accepts : ℕ → Bool) (blake3 : List ℕ → List ℕ) (stream : Connection → Bool × ℕ) where
  new-opened :
      (req : Request) (content : List ℕ)
      → req.opened ≡ some content
      → req.reopened ≡ some content
      → Chunker.new blake3 req.transfer_id req.file_path req.opened req.reopened
        ≡ some (record {
          file = record { content = content; pos = 0 };
          manifest = manifest_of blake3 req content;
        })
  unfolding Chunker.new
  new-opened req content opened reopened = rw (opened, reopened, Chunker.new) refl

  -- A request for a connected peer, with a file that is opened, is a `send_file` to that peer.
  initiate_send-found :
      (peers : PeerRegistry) (req : Request) (conn : Connection) (c : FileChunker)
      → get peers req.peer_virtual_ip ≡ some conn
      → Chunker.new blake3 req.transfer_id req.file_path req.opened req.reopened ≡ some c
      → initiate_send manifests payloads speed accepts blake3 stream peers req
        ≡ transfer manifests payloads speed accepts blake3 stream conn (some c)
  unfolding initiate_send
  initiate_send-found peers req conn c found made =
      ap
        (λ o. elim o [
          | none ↦ (not_found, [])
          | some conn' ↦
              transfer manifests payloads speed accepts blake3 stream conn'
                (Chunker.new blake3 req.transfer_id req.file_path req.opened req.reopened)
        ])
        found
      ∙ ap (transfer manifests payloads speed accepts blake3 stream conn) made

by_length : {P : Type 0} (size n : ℕ) → size ≡ n → (0 < n → P) → (size ≡ 0) ⊎ P
by_length size zero e told = inl e
by_length size (suc n) e told = inr (told (omega arith))

module _ (manifests : Postcard FileManifest) (payloads : Postcard ChunkPayload)
    (header_bytes : ChunkPayload → List ℕ) (encodes : EncodesHeaders payloads header_bytes)
    (content : List ℕ) where
  -- A request for a connected peer and a file of at most 2 ^ 48 - 65536 bytes that both opens read
  -- alike, over a stream that opens and takes the whole transfer, with a client that reads to the
  -- end: all that goes out is one stream over the peer's connection, the task that serves those
  -- bytes on a disk without faults ends with a complete writer and the same file, and, if the file
  -- is not empty, the last item that the client gets says that the transfer is complete, with the
  -- size of the file. postcard is assumed to decode what it encodes, in less than 2 ^ 32 bytes.
  pub initiate_send-serve :
      (speed : ℕ → ℕ → ℕ) (accepts : ℕ → Bool) (blake3 : List ℕ → List ℕ)
      (stream : Connection → Bool × ℕ) (peers : PeerRegistry) (req : Request) (conn : Connection)
      (manifest_bytes : List ℕ) (fuel : ℕ)
      → get peers req.peer_virtual_ip ≡ some conn
      → req.opened ≡ some content
      → req.reopened ≡ some content
      → length content ≤ max_file_size
      → Encodes manifests (manifest_of blake3 req content) manifest_bytes
      → ((i : ℕ) → accepts i ≡ true)
      → (stream conn).0 ≡ true
      → length (transfer_wire header_bytes content manifest_bytes (count_chunks (length content)))
        ≤ (stream conn).1
      → (stream conn).1 < fuel
      → (items : List StreamItem) × (sent : List ℕ) × (r' : Receiver) × (w : DiskWriter)
        × (initiate_send manifests payloads speed accepts blake3 stream peers req
            ≡ (streaming items, (conn, sent) ∷ []))
        × (serve manifests payloads fuel (waiting sent) ≡ some r')
        × (r'.writer ≡ some w)
        × (is_complete w ≡ true)
        × (w.file.content ≡ content)
        × ((length content ≡ 0) ⊎ TellsCompleted (length content) items)
  unfolding Manifest.new
  initiate_send-serve speed accepts blake3 stream peers req conn manifest_bytes fuel found opened
        reopened small coded attended opens fits enough =
      let m = manifest_of blake3 req content in
      let c : FileChunker = record { file = record { content = content; pos = 0 }; manifest = m } in
      let s = new_sender (stream conn) c in
      let (s', ran, finished, wire, same, counted, final) =
        send_file-Sent manifests payloads speed accepts header_bytes encodes content attended
          manifest_bytes s coded
          (record { unchanged = refl; sized = refl; counted = refl; small = small }) refl opens
          fits in
      let (r', w, served, holds, complete, equal, named) =
        serve-transfer manifests payloads header_bytes encodes content m manifest_bytes fuel coded
          (record { file_size_eq = refl; total_chunks_eq = refl; size_le = small }) (omega arith) in
      (
        map update s'.progress,
        s'.sent,
        r',
        w,
        initiate_send-found manifests payloads speed accepts blake3 stream peers req conn c found (
              new-opened manifests payloads speed accepts blake3 stream req content opened reopened)
            ∙ ap (conclude conn) ran,
        rw wire served,
        holds,
        complete,
        equal,
        by_length (length content) (length content) refl (λ some_byte.
            let (before, u, ends, status, transferred, total) =
              final (omega (arith, count_chunks_exact (length content) small)) in
            (
              map update before,
              u,
              ap (map update) ends ∙ map-append update before (u ∷ []),
              status,
              omega (arith, transferred, counted),
              total ∙ ap (λ (n : FileManifest). n.file_size) same,
            )),
      )
