-- ===== src/Protocol.antt =====
-- engine/include/hypernet/protocol: byte order, framing, the codec and the dispatcher.
pub mod Endian
pub mod Codec
pub mod Framer
pub mod Message
pub mod Dispatch
