-- ===== src/MuxCtl.antt =====
-- The multiplexer control package (pkg/muxctl): layouts of panes, and the cells that they get.
pub mod Spec
pub mod Layout
pub mod Focus
pub mod Validate
mod Tests
