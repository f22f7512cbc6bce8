-- ===== src/Stream.antt =====
-- Stream/: the stream processing on top of the file system.
pub mod Partition
pub mod Leader
pub mod Tuples
pub mod Operators
pub mod Counting
pub mod Network
pub mod Sender
pub mod Recovery
pub mod Progress
pub mod Prepare
