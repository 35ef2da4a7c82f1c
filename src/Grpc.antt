-- ===== src/Grpc.antt =====
-- src/grpc/: the transport's errors, the length-prefixed frames and the reassembly of a stream.
pub mod Error
pub mod Framing
pub mod Pump
pub mod Client
pub mod Users
pub mod Service
pub mod Auth
