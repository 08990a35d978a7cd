-- ===== src/Daemon/Sink.antt =====
-- crates/maschined/src/main.rs: the adapter that draws on a framebuffer.
pub mod Rectangles
pub mod Texts
pub mod Contract
pub mod Showing
pub mod Redrawn
use openmk.Prelude.{as_u16}
use openmk.Proto.Types.{width, height}
use openmk.Core.Display.Framebuffer.{Framebuffer, set_pixel}
use openmk.Ui.Render.{PixelSink}

-- `FbSink`
unfoldable pub fb_sink : PixelSink Framebuffer
fb_sink = record { width = λ fb. as_u16 width; height = λ fb. as_u16 height; set = set_pixel }
