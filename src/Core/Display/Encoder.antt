-- ===== src/Core/Display/Encoder.antt =====
-- crates/maschine-core/src/display/encoder.rs: a transfer for the dirty tiles of a framebuffer. The
-- buffers grow by zeros, which the encoders of the protocol then overwrite.
pub mod Area
pub mod Frame
use openmk.Prelude.{
  ℕ, zero, suc, ◌+◌, ◌-◌, ◌*◌, ◌/◌, ◌%◌, min, Bool, true, ◌&&◌, List, [], ◌∷◌, ◌++◌, length, take,
  replicate, ◌==◌, if◌then◌else◌, Outcome, ok, panic, ◌>>=◌, unwrap, read, slice, on_tail, on_rest,
  as_u16, as_u32,
}
use openmk.Proto.Types.{DisplayId, width, height}
use openmk.Proto.Display.{
  Rect, display_header_len, display_cmd_len, encode_header, encode_repeat_cmd, encode_blit_cmd,
  encode_flush_cmd, encode_end_cmd, pixel_pair, pack_rgb565_be,
}
use openmk.Core.Display.Dirty.{tile, clear, runs}
use openmk.Core.Display.Framebuffer.{Framebuffer}

-- The loop that collects the pixels of a rectangle, over `m` rows from `y` on.
unfoldable pub gather : List ℕ → ℕ → ℕ → ℕ → ℕ → Outcome ⊥ (List ℕ)
gather pixels y zero x w = ok []
gather pixels y (suc m) x w = do
  row ← slice (y * width + x) w pixels
  native ← gather pixels (y + 1) m x w
  ok (row ++ native)

abbrev pub all_are : ℕ → List ℕ → Bool
all_are p [] = true
all_are p (q ∷ native) = (q == p) && all_are p native

-- `native.iter().all(|&p| p == native[0])`
unfoldable pub is_solid : List ℕ → Bool
is_solid [] = true
is_solid (p ∷ native) = all_are p (p ∷ native)

-- The branch of a solid run.
unfoldable pub encode_solid_run : List ℕ → List ℕ → Outcome ⊥ (List ℕ)
encode_solid_run native out = do
  first ← read native 0
  let pairs = as_u32 (length native / 2)
  (n, cmd) ← unwrap (encode_repeat_cmd pairs (pixel_pair first) (replicate display_cmd_len 0))
  ok (out ++ cmd)

-- The branch of any other run. The assertion at the end is that of a debug build.
unfoldable pub encode_blit_run : List ℕ → List ℕ → Outcome ⊥ (List ℕ)
encode_blit_run native out = do
  let pairs = as_u32 (length native / 2)
  (n, cmd) ← unwrap (encode_blit_cmd pairs (replicate display_cmd_len 0))
  let pay_len = length native * 2
  let out₁ = out ++ cmd
  out₂ ← unwrap (on_rest (length out₁) (pack_rgb565_be native) (out₁ ++ replicate pay_len 0))
  if pay_len % display_cmd_len == 0 then ok out₂ else panic

unfoldable pub encode_run : DisplayId → Framebuffer → ℕ → ℕ → ℕ → ℕ → List ℕ → Outcome ⊥ (List ℕ)
encode_run id fb x y w h out = do
  let rect : Rect = record { x = as_u16 x; y = as_u16 y; w = as_u16 w; h = as_u16 h }
  let grown = out ++ replicate display_header_len 0
  out₁ ← unwrap (on_rest (length out) (encode_header id rect) grown)
  native ← gather fb.pixels y h x w
  if is_solid native then encode_solid_run native out₁ else encode_blit_run native out₁

-- The loop over the runs. A run has its columns in order and lies on the screen.
unfoldable pub encode_runs :
    DisplayId → Framebuffer → List (ℕ × ℕ × ℕ) → List ℕ → Outcome ⊥ (List ℕ)
encode_runs id fb [] out = ok out
encode_runs id fb ((row, c0, c1) ∷ later) out = do
  let y = row * tile
  let x = c0 * tile
  let h = min tile (height - y)
  let w = min ((c1 - c0 + 1) * tile) (width - x)
  out₁ ← encode_run id fb x y w h out
  encode_runs id fb later out₁

-- The bytes to send, and the framebuffer with its tracker cleared.
unfoldable pub encode_frame : DisplayId → Framebuffer → Outcome ⊥ (List ℕ × Framebuffer)
encode_frame id fb = do
  out ← encode_runs id fb (runs fb.dirty) []
  (n₁, tail₁) ← unwrap (on_tail 0 encode_flush_cmd (replicate (display_cmd_len * 2) 0))
  (n₂, tail₂) ← unwrap (on_tail n₁ encode_end_cmd tail₁)
  ok (out ++ take (n₁ + n₂) tail₂, record fb { dirty = clear fb.dirty })
