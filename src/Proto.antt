-- ===== src/Proto.antt =====
-- crates/maschine-proto: the wire formats of the Maschine Mk3.
pub mod Types
pub mod Writer
pub mod HidIn
pub mod HidOut
pub mod Display
pub mod Tests
