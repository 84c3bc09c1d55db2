-- ===== src/App.antt =====
-- runtime/extensions/app: what the applications of the runtime share.
pub mod Packet
pub mod Registry
pub mod Broadcaster
