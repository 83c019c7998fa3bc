-- ===== src/Compose.antt =====
-- The compose engine: projects of commands with dependencies (cmdman/compose).
pub mod Spec
pub mod Entry
pub mod Target
pub mod Lifecycle
pub mod Plan
pub mod Labels
pub mod Graph
mod Tests
