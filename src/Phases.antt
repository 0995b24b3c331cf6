-- ===== src/Phases.antt =====
-- aotbot/phases.py: what the game connection does with the layers below.
pub mod GhostSection
pub mod Mission
pub mod Messages
pub mod Moves
pub mod Control
pub mod Body
pub mod Tests
