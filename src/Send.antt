-- ===== src/Send.antt =====
-- src/send/: the sender's workers, one child for each.
pub mod Ordering
pub mod Encoding
pub mod Client
pub mod Server
pub mod Parallel
pub mod Udp
pub mod Sender
