-- ===== src/Engine.antt =====
-- engine/src/hypernet/Engine.cpp and engine/src/hypernet/core/WorkerContext.cpp: the engine and its
-- workers.
pub mod Outcome
pub mod Worker
pub mod Control
pub mod Shutdown
pub mod Run
