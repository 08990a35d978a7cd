-- ===== src/Core.antt =====
-- crates/maschine-core: events of the device, and the display pipeline.
pub mod Event
pub mod Device
pub mod Display
pub mod Platform
pub mod Transport
pub mod Maschine
pub mod Tests
