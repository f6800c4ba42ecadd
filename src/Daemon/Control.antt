-- ===== src/Daemon/Control.antt =====
-- `ControlServiceImpl` of daemon/src/main.rs: the two calls that the command line client makes. The
-- channel for the updates accepts one or has no reader; `stream` is what the connection gives a
-- new stream: whether it opens, and how many bytes it takes.
pub mod Delivery
use decentis.Prelude.{◌%◌, ◌^◌, ℕ, Bool, true, false, List, [], ◌∷◌, ◌++◌, map, Option, some, none}
use decentis.Daemon.{Connection, PeerRegistry, get, active_peers}
use decentis.FileRelay.Manifest.{FileManifest, ChunkPayload, Postcard}
use decentis.FileRelay.Chunker
use decentis.FileRelay.Chunker.{FileChunker}
use decentis.Transport.Stream.Send.{
  TransferProgress, Sender, SendError, SendResult, done, failed, send_file,
}

pub record StatusResponse : Type 0 where
  pub virtual_ip : List ℕ
  pub is_active : Bool
  pub active_peers_count : ℕ

pub data StreamItem : Type 0 where
  update : TransferProgress → StreamItem
  chunker_failed : StreamItem
  transfer_failed : SendError → StreamItem

pub data Reply : Type 0 where
  not_found : Reply
  streaming : List StreamItem → Reply

-- What the client asks to send, as the two opens of the file find it.
pub record Request : Type 0 where
  pub peer_virtual_ip : List ℕ
  pub transfer_id : List ℕ
  pub file_path : List ℕ
  pub opened : Option (List ℕ)
  pub reopened : Option (List ℕ)

abbrev pub new_sender : Bool × ℕ → FileChunker → Sender
new_sender (opens, room) chunker = record {
  opens = opens;
  sent = [];
  room = room;
  finished = false;
  chunker = chunker;
  bytes_sent = 0;
  progress = [];
}

-- The items that the client gets, and the bytes that go out over the connection.
abbrev pub conclude : Connection → SendResult (Unit {0}) → Reply × List (Connection × List ℕ)
conclude conn (done _ s) = (streaming (map update s.progress), (conn, s.sent) ∷ [])
conclude conn (failed e s) =
    (streaming (map update s.progress ++ (transfer_failed e ∷ [])), (conn, s.sent) ∷ [])

module _ (manifests : Postcard FileManifest) (payloads : Postcard ChunkPayload) (speed : ℕ → ℕ → ℕ)
    (accepts : ℕ → Bool) (blake3 : List ℕ → List ℕ) (stream : Connection → Bool × ℕ) where
  -- The spawned task.
  abbrev pub transfer : Connection → Option FileChunker → Reply × List (Connection × List ℕ)
  transfer conn none = (streaming (chunker_failed ∷ []), [])
  transfer conn (some chunker) = conclude conn (
      send_file manifests payloads speed accepts chunker.manifest
        (new_sender (stream conn) chunker))

  unfoldable pub initiate_send : PeerRegistry → Request → Reply × List (Connection × List ℕ)
  initiate_send peers req = elim (get peers req.peer_virtual_ip) [
    | none ↦ (not_found, [])
    | some conn ↦
        transfer conn (Chunker.new blake3 req.transfer_id req.file_path req.opened req.reopened)
  ]

-- `get_status`; the count is cast to the 32 bits of an `i32`.
unfoldable pub get_status : List ℕ → PeerRegistry → StatusResponse
get_status local_vip peers = record {
  virtual_ip = local_vip;
  is_active = true;
  active_peers_count = active_peers peers % 2 ^ 32;
}
