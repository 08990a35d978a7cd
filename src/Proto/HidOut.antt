-- ===== src/Proto/HidOut.antt =====
-- crates/maschine-proto/src/hid_out.rs: the encoders of the two LED reports. An encoder returns the
-- length that it wrote, with the output buffer after the call.
pub mod Reports
use openmk.Prelude.{
  ℕ, ◌+◌, ◌*◌, List, [], ◌∷◌, length, replicate, ltb, if◌then◌else◌, Outcome, ok, err, ◌>>=◌, store,
  copy_at,
}
use openmk.Proto.Types.{
  Rgb, black, ProtoError, output_too_small, touchstrip_led_count, pad_count, report_out_button_leds,
  report_out_pad_leds,
}

abbrev pub button_led_slots : ℕ
button_led_slots = 62

abbrev pub pad_led_payload : ℕ
pad_led_payload = touchstrip_led_count * 3 + pad_count * 3

unfoldable pub encode_button_leds : List ℕ → List ℕ → Outcome ProtoError (ℕ × List ℕ)
encode_button_leds values out =
    let need = 1 + button_led_slots in
    if ltb (length out) need
    then err (output_too_small need (length out))
    else do out₁ ← store 0 report_out_button_leds out; out₂ ← copy_at 1 values out₁; ok (need, out₂)

-- A loop `for c in colors`, with its index `i`.
unfoldable pub write_colors : List Rgb → ℕ → List ℕ → Outcome ProtoError (List ℕ)
write_colors [] i out = ok out
write_colors (c ∷ cs) i out = do
  out₁ ← store i c.r out
  out₂ ← store (i + 1) c.g out₁
  out₃ ← store (i + 2) c.b out₂
  write_colors cs (i + 3) out₃

unfoldable pub encode_pad_leds : List Rgb → List Rgb → List ℕ → Outcome ProtoError (ℕ × List ℕ)
encode_pad_leds strip pads out =
    let need = 1 + pad_led_payload in
    if ltb (length out) need then err (output_too_small need (length out)) else do
      out₁ ← store 0 report_out_pad_leds out
      out₂ ← write_colors strip 1 out₁
      out₃ ← write_colors pads (1 + length strip * 3) out₂
      ok (need, out₃)

unfoldable pub encode_pads_solid : Rgb → List ℕ → Outcome ProtoError (ℕ × List ℕ)
encode_pads_solid color out =
    let strip = replicate touchstrip_led_count black in
    let pads = replicate pad_count color in encode_pad_leds strip pads out
