-- ===== src/App/Registry.antt =====
-- runtime/extensions/app/src/hyperapp/core: SessionRegistry.cpp and SessionStateMachine.cpp. An
-- unordered map is an association list, an unordered set a list; the order in which one is walked
-- is the list's.
pub mod Store
pub mod Index
pub mod Api
