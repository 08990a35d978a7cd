-- ===== src/Proto/Display.antt =====
-- crates/maschine-proto/src/display.rs: the header and the commands of a display transfer. An encoder
-- returns the length that it wrote, with the output buffer after the call.
pub mod Commands
pub mod Frames
use openmk.Prelude.{
  ℕ, zero, suc, ◌+◌, ◌*◌, ◌/◌, ◌%◌, List, [], ◌∷◌, length, replicate, ltb, if◌then◌else◌, Outcome,
  ok, err, ◌>>=◌, store, fill, overwrite, copy_at, on_tail, bit_and, shr, as_u8, as_u32,
  to_be_bytes,
}
use openmk.Proto.Types.{
  DisplayId, as_byte, width, height, pixel_count, Rgb, to_rgb565, ProtoError, output_too_small,
}

abbrev pub display_header_len : ℕ
display_header_len = 32

abbrev pub display_cmd_len : ℕ
display_cmd_len = 8

-- In pixels; the fields are `u16`.
pub record Rect : Type 0 where
  pub x : ℕ
  pub y : ℕ
  pub w : ℕ
  pub h : ℕ

-- `Rect::FULL`
abbrev pub full : Rect
full = record { x = 0; y = 0; w = 480; h = 272 }

unfoldable pub encode_header : DisplayId → Rect → List ℕ → Outcome ProtoError (List ℕ)
encode_header display rect out =
    if ltb (length out) display_header_len
    then err (output_too_small display_header_len (length out))
    else do
      o₁ ← fill display_header_len 0 out
      o₂ ← store 0 0x84 o₁
      o₃ ← store 1 0x00 o₂
      o₄ ← store 2 (as_byte display) o₃
      o₅ ← store 3 0x60 o₄
      o₆ ← copy_at 16 (to_be_bytes rect.x) o₅
      o₇ ← copy_at 18 (to_be_bytes rect.y) o₆
      o₈ ← copy_at 20 (to_be_bytes rect.w) o₇
      copy_at 22 (to_be_bytes rect.h) o₈

-- The body that `encode_blit_cmd` and `encode_repeat_cmd` share: opcode, 24-bit count, four bytes.
unfoldable pub write_cmd : ℕ → ℕ → List ℕ → List ℕ → Outcome ProtoError (ℕ × List ℕ)
write_cmd opcode count operand out = do
  o₁ ← store 0 opcode out
  o₂ ← store 1 (as_u8 (bit_and (shr count 16) 0xff)) o₁
  o₃ ← store 2 (as_u8 (bit_and (shr count 8) 0xff)) o₂
  o₄ ← store 3 (as_u8 (bit_and count 0xff)) o₃
  o₅ ← copy_at 4 operand o₄
  ok (display_cmd_len, o₅)

unfoldable pub encode_blit_cmd : ℕ → List ℕ → Outcome ProtoError (ℕ × List ℕ)
encode_blit_cmd pair_count out =
    if ltb (length out) display_cmd_len
    then err (output_too_small display_cmd_len (length out))
    else write_cmd 0x00 pair_count (replicate 4 0) out

unfoldable pub encode_repeat_cmd : ℕ → List ℕ → List ℕ → Outcome ProtoError (ℕ × List ℕ)
encode_repeat_cmd count pair_be out =
    if ltb (length out) display_cmd_len
    then err (output_too_small display_cmd_len (length out))
    else write_cmd 0x01 count pair_be out

unfoldable pub encode_flush_cmd : List ℕ → Outcome ProtoError (ℕ × List ℕ)
encode_flush_cmd out =
    if ltb (length out) display_cmd_len
    then err (output_too_small display_cmd_len (length out))
    else do o₁ ← overwrite (0x03 ∷ replicate 7 0) out; ok (display_cmd_len, o₁)

unfoldable pub encode_end_cmd : List ℕ → Outcome ProtoError (ℕ × List ℕ)
encode_end_cmd out =
    if ltb (length out) display_cmd_len
    then err (output_too_small display_cmd_len (length out))
    else do o₁ ← overwrite (0x40 ∷ replicate 7 0) out; ok (display_cmd_len, o₁)

-- `[word[0], word[1], word[0], word[1]]` for the big-endian bytes of a packed pixel.
abbrev pub pixel_pair : ℕ → List ℕ
pixel_pair pixel = (pixel / 256 % 256) ∷ (pixel % 256) ∷ (pixel / 256 % 256) ∷ (pixel % 256) ∷ []

unfoldable pub encode_solid_frame : DisplayId → Rgb → List ℕ → Outcome ProtoError (ℕ × List ℕ)
encode_solid_frame display color out =
    let total = display_header_len + 3 * display_cmd_len in
    if ltb (length out) total then err (output_too_small total (length out)) else do
      o₁ ← encode_header display full out
      let off = display_header_len
      let pixels = as_u32 (pixel_count / 2)
      (n₂, o₂) ← on_tail off (encode_repeat_cmd pixels (pixel_pair (to_rgb565 color))) o₁
      (n₃, o₃) ← on_tail (off + n₂) encode_flush_cmd o₂
      (n₄, o₄) ← on_tail (off + n₂ + n₃) encode_end_cmd o₃
      ok (off + n₂ + n₃ + n₄, o₄)

-- The loop from pixel `i` on. The `debug_assert!` guards the same bound as the stores do.
unfoldable pub pack_from : List ℕ → ℕ → List ℕ → Outcome ProtoError (List ℕ)
pack_from [] i out = ok out
pack_from (w ∷ ws) i out = do
  o₁ ← store (i * 2) (w / 256 % 256) out
  o₂ ← store (i * 2 + 1) (w % 256) o₁
  pack_from ws (i + 1) o₂

unfoldable pub pack_rgb565_be : List ℕ → List ℕ → Outcome ProtoError (List ℕ)
pack_rgb565_be native out = pack_from native 0 out
