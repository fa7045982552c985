-- ===== src/Transport.antt =====
-- src/transport.rs: frames over a TCP stream, the server's loop and the client.
pub mod Frames
pub mod Server
pub mod Client
