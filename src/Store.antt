-- ===== src/Store.antt =====
-- frontend/src/store/gameStore.ts: the game's store and its connection.
pub mod State
pub mod Timer
pub mod Overlay
pub mod Updates
pub mod Events
pub mod Board
pub mod Connection
pub mod Steps
