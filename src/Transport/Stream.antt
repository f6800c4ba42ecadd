-- ===== src/Transport/Stream.antt =====
-- daemon/src/transport/stream.rs: a file sent over a stream of frames, and the loop that takes
-- such a stream apart and writes the file. `Send` and `Receive` are the code, `Wire` is the form
-- of a whole transfer, and the others prove that the two sides meet there.
pub mod Send
pub mod Receive
pub mod Wire
pub mod Steps
pub mod Rounds
pub mod Sending
pub mod Receiving
pub mod Termination
pub mod DiskOps
pub mod Parallel
pub mod Listener
pub mod Transfer
