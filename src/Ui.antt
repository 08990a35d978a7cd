-- ===== src/Ui.antt =====
-- crates/maschine-ui: the browser on the two displays, and drawing.
pub mod Font
pub mod Render
pub mod Browse
pub mod Tests
