-- ===== src/Lib.antt =====
-- The daemon of Decentis, in Rust under daemon/src: a peer-to-peer virtual network with file
-- transfer. Two daemons meet over a signaling server or through their NATs, agree on keys by a
-- Noise handshake over QUIC, and then run a bridge for the packets of a TUN device and streams
-- for files. This development models the parts that carry data and state.
--
-- Crypto        daemon/src/crypto
--   Replay      replay.rs: ReplayFilter. new, check_and_mark (its branches are advance and
--               mark_old). Window holds the specification, Mirror and Refine the
--               refinement.
--   Session     session.rs: SessionTx.encrypt, SessionRx.decrypt, split_session. Nonces, Once
--               and Deliver are its proofs. The cipher state of the crate snow is a parameter.
--   Identity    identity.rs: load_or_generate_identity on a Disk of two files, and
--               derive_virtual_ip. Store and Address are its proofs; Text is the text of an
--               address.
--   Handshake   handshake.rs: generate_static_keypair, build_initiator, build_responder. The
--               crate snow is the parameter Snow.
-- FileRelay     daemon/src/file_relay
--   File        an open file: bytes and cursor, seek, write_all, read_exact
--   Manifest    manifest.rs: FileManifest::new with its count of chunks (count_chunks), the
--               header ChunkPayload. The crate postcard is the parameter Postcard.
--   Chunker     chunker.rs: FileChunker. new, read_chunk (expected_size)
--   Writer      writer.rs: DiskWriter. new, write_chunk (store is its part after the guards),
--               is_complete
--   Disk        the disk that the writers of several streams share: its operations one at a
--               time, and how those of two tasks mix (Interleaving)
--   FilePath    the paths: the name that FileChunker::new takes from one (utf8_file_name) and the
--               one that DiskWriter::new opens (destination). Split, Reach and Escape are its
--               proofs.
--   Slice       the slices of a byte list, which chunks are to the specification
-- Transport     daemon/src/transport
--   Frame       frame.rs: FrameHeader. encode, decode
--   Stream      stream.rs: Send is send_file, Receive the task that serves one stream (turn is
--               one round of its loop, serve the loop). Wire describes the bytes of a transfer
--               independently of both; Steps, Rounds, Sending, Receiving, Termination and
--               Transfer are proofs. DiskOps lists the operations that a stream's task makes
--               on the disk (serve_ops); Frames, Dispatching and Follow show that they make the
--               file what the writer takes it to be, Own that they stay on one file. Parallel is
--               about one stream among other tasks, Listener about all the streams of a
--               connection (spawn_incoming_stream_listener).
--   Handshake   handshake.rs: initiate_noise_handshake and respond_noise_handshake
--               (respond_reply is the responder up to its reply). Complete is its proof.
--   Endpoint    endpoint.rs: create_quic_endpoint with the settings of both directions, and the
--               verifier SkipServerVerification. The crates rcgen, rustls and quinn are the
--               parameter Crates. Trust says what every endpoint is set to.
--   Datagram    datagram.rs: tx_task and rx_task, the two tasks of the bridge. Adversary is
--               about datagrams from anyone.
-- Nat           daemon/src/nat
--   Punch       punch.rs: fire_prediction_probes
--   Stun        stun.rs: discover_public_ip, its request (binding_request) and its parser
--               (parse_response, find_address). Offsets, Parse and Ends are its proofs.
--   Upnp        upnp.rs: map_external_port, remove_external_port, on the list of the calls
--               that the router accepts
--   Signaling   signaling.rs: start_registration, dial_peer, disconnect (disconnect_node),
--               and relay, the task that passes on the peers found
-- Tun           daemon/src/tun/device.rs: start_tun_device, the settings of the interface
-- Daemon        daemon/src/main.rs: the registry of peers and the two tasks that change it:
--               on_incoming is the inbound listener, on_rendezvous the dialer. base64 and the
--               parsing of addresses are the parameter Codecs. Registry, Admission and
--               Outcomes are its proofs.
--   Dialer      the rendezvous task as a whole, with the probes of the hole punching
--   Control     ControlServiceImpl: initiate_send and get_status. Delivery is a proof of the one,
--               Status of the other, with Mesh on the addresses that a registry can have
--   Link        what the inbound task and the dialer do with the outcome of the handshake, and
--               two nodes that meet
--   Inbound     the inbound listener as a whole, with what it starts for each connection.
--               Guarded and Outcomes are its proofs.
--   Settings    what main makes of the text of PORT (bind_addr, local_port). Port is its proof.
--   Startup     the task that makes the node reachable (nat_task): UPnP, else STUN, then the
--               registration and the request for a rendezvous. Announce is its proof.
--   Main        main from the start to the end of the teardown, on the World that it changes.
--               Rules and Endings say how it can end, Router and Mapping what is left of the
--               port mapping, Lasting and Cleanup what else is left.
-- Prelude       lists, bytes and bits on the native numbers
-- Tests         runs at concrete inputs; Source has the unit tests that stand in the source
--
-- State is passed explicitly. A Rust `Result` is a sum of the model's own, `?` is the bind of a
-- small monad, and a panic of an index is a constructor of its own. Machine integers are natural
-- numbers; their widths are written out where they can overflow or saturate: the shift of the
-- u128 bitmap, the wrapping u32 counter of a session, the cast of the count of chunks, the ports.
-- Calls of the operating system fail as an argument says: Fault names the failing call. A network
-- is a list of what is read from it, and a stream takes a given number of bytes (room).
--
-- The loops without a structural bound run on fuel: the serving task needs more than the bytes of
-- its stream, since each turn that goes on reads a header, and the search of a STUN answer one
-- round for each four bytes behind the header, since each attribute takes four bytes at least;
-- discover_public_ip has 256 rounds for its buffer of 1024 bytes.
--
-- The daemon runs several tasks. Those that serve the streams of a connection share the disk, and
-- each open, and each write with its seek, is one step of an interleaving. A write may fail behind
-- its `Ok`, since tokio only buffers it (lost_write); one that does not has reached the file before
-- the next operation on it. The file that a name leads to is the parameter file_of. The tasks for
-- peers change the registry one event at a time. The task of the start is a list of effects, of
-- which any number has come about when the teardown begins. No task is cancelled: what this one
-- does from then on is added to the world in Cleanup; what the others do is not modelled. Dropping
-- a connection closes it as well, which is not modelled.
--
-- Paths are those of Unix, without symbolic links, and their parsers are written as the standard
-- library has them.
--
-- Not modelled: the paths of the key file and the socket, which only name what a Disk and a
-- World hold; the command line client and the signaling server, which are in Go; generated
-- code; and what a TLS handshake makes of the settings. Logging and the clock are left out; the
-- speed in a progress update is a parameter.
pub mod Prelude
pub mod Crypto
pub mod FileRelay
pub mod Transport
pub mod Nat
pub mod Tun
pub mod Daemon
pub mod Tests
