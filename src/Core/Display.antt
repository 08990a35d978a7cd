-- ===== src/Core/Display.antt =====
-- crates/maschine-core/src/display: the framebuffer, its dirty tiles, and the transfer.
pub mod Dirty
pub mod Encoder
pub mod Framebuffer
pub mod Scheduler
pub mod Tests
