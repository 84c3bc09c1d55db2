-- ===== src/Buffer.antt =====
-- engine/src/hypernet/buffer: the byte ring and the pool of blocks.
pub mod Ring
pub mod Pool
