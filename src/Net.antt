-- ===== src/Net.antt =====
-- engine/src/hypernet/net: sessions and what routes to them.
pub mod Session
pub mod Manager
pub mod EventLoop
pub mod Router
pub mod Acceptor
