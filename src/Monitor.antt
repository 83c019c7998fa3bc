-- ===== src/Monitor.antt =====
-- The monitor process that owns one supervised command (cmdman/monitor).
pub mod RingBuffer
pub mod Notification
pub mod HookFilter
pub mod Restart
pub mod Broadcaster
mod Tests
