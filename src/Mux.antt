-- ===== src/Mux.antt =====
-- The layouts of dashboards and the replica that each of their panes shows (cmdman/mux).
pub mod Spec
pub mod Cycle
pub mod ScaleCodec
pub mod Window
mod Tests
