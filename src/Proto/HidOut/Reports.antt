-- ===== src/Proto/HidOut/Reports.antt =====
-- The bytes of the LED reports, and when an encoder refuses its buffer.
use openmk.Prelude.{
  ℕ, suc, ◌+◌, ◌*◌, ◌≤◌, ◌<◌, ◌≡◌, refl, sym, ap, ◌∙◌, List, [], ◌∷◌, ◌++◌, append-nil,
  append_assoc, length, length-append, drop, length-drop, drop-drop, replicate, lt→ltb, le→ltb, ok,
  err, store-append, overwrite_lem, arith,
}
use openmk.Proto.Types.{Rgb, black, output_too_small, touchstrip_led_count, pad_count}
use openmk.Proto.Types.{report_out_button_leds, report_out_pad_leds}
use openmk.Proto.Writer.{Writes, Writes-intro}
use openmk.Proto.HidOut.{
  button_led_slots, pad_led_payload, encode_button_leds, write_colors, encode_pad_leds,
  encode_pads_solid,
}

-- Colours one after the other, each as red, green, blue.
abbrev pub color_bytes : List Rgb → List ℕ
color_bytes [] = []
color_bytes (c ∷ cs) = c.r ∷ c.g ∷ c.b ∷ color_bytes cs

encode_button_leds_few :
    (values out : List ℕ)
    → length out < 1 + button_led_slots
    → encode_button_leds values out ≡ err (output_too_small (1 + button_led_slots) (length out))
unfolding encode_button_leds
encode_button_leds_few values out h = rw (lt→ltb (length out) (1 + button_led_slots) h)

encode_button_leds_enough :
    (values out : List ℕ)
    → length values ≡ button_led_slots
    → 1 + button_led_slots ≤ length out
    → encode_button_leds values out
      ≡ ok (1 + button_led_slots, report_out_button_leds ∷ values ++ drop (suc (length values)) out)
unfolding encode_button_leds
encode_button_leds_enough values [] e h = absurd (omega arith)
encode_button_leds_enough values (x ∷ out) e h =
    rw (le→ltb (suc (length out)) (1 + button_led_slots) h, overwrite_lem values out (omega arith))

-- The button report is the report id and the 62 values, on a buffer of 63 bytes or more; a shorter
-- buffer is refused with both lengths.
pub encode_button_leds-Writes :
    (values out : List ℕ)
    → length values ≡ button_led_slots
    → Writes (report_out_button_leds ∷ values) (encode_button_leds values) out
encode_button_leds-Writes values out e =
    Writes-intro (report_out_button_leds ∷ values) (encode_button_leds values) out
      (λ h. rw e (encode_button_leds_few values out (omega arith)))
      (λ h.
        encode_button_leds_enough values out e (omega arith)
        ∙ ap (λ n. ok (n, report_out_button_leds ∷ values ++ drop (suc (length values)) out))
            (omega arith))

length-color_bytes : (cs : List Rgb) → length (color_bytes cs) ≡ length cs * 3
length-color_bytes [] = refl
length-color_bytes (c ∷ cs) = omega (arith, length-color_bytes cs)

write_colors-cons :
    (c : Rgb) (cs : List Rgb) (pre rest : List ℕ) (x y z i : ℕ)
    → i ≡ length pre
    → write_colors (c ∷ cs) i (pre ++ x ∷ y ∷ z ∷ rest)
      ≡ write_colors cs (i + 3) (pre ++ c.r ∷ c.g ∷ c.b ∷ rest)
unfolding write_colors
write_colors-cons c cs pre rest x y z i e = rw (
  store-append pre (x ∷ y ∷ z ∷ rest) i 0 c.r (omega arith),
  store-append pre (c.r ∷ y ∷ z ∷ rest) (i + 1) 1 c.g (omega arith),
  store-append pre (c.r ∷ c.g ∷ z ∷ rest) (i + 2) 2 c.b (omega arith),
)

-- The loop writes the colours behind what is already written.
write_colors_lem :
    (cs : List Rgb) (pre rest : List ℕ) (i : ℕ)
    → i ≡ length pre
    → length (color_bytes cs) ≤ length rest
    → write_colors cs i (pre ++ rest)
      ≡ ok (pre ++ color_bytes cs ++ drop (length (color_bytes cs)) rest)
write_colors_lem [] pre rest i e h = unfold write_colors in rw append-nil
write_colors_lem (c ∷ cs) pre (x ∷ y ∷ z ∷ rest) i e h =
    let color = c.r ∷ c.g ∷ c.b ∷ [] in
    let later =
      write_colors_lem cs (pre ++ color) rest (i + 3) (omega (arith, length-append pre color))
        (omega arith) in
    write_colors-cons c cs pre rest x y z i e
    ∙ rw (append_assoc pre color rest, append_assoc pre color (color_bytes cs)) at later
write_colors_lem (c ∷ cs) pre rest i e h = absurd (omega arith)

abbrev pub pad_report : List Rgb → List Rgb → List ℕ
pad_report strip pads = report_out_pad_leds ∷ color_bytes strip ++ color_bytes pads

encode_pad_leds_few :
    (strip pads : List Rgb) (out : List ℕ)
    → length out < 1 + pad_led_payload
    → encode_pad_leds strip pads out ≡ err (output_too_small (1 + pad_led_payload) (length out))
unfolding encode_pad_leds
encode_pad_leds_few strip pads out h = rw (lt→ltb (length out) (1 + pad_led_payload) h)

encode_pad_leds_enough :
    (strip pads : List Rgb) (out : List ℕ)
    → length strip ≡ touchstrip_led_count
    → length pads ≡ pad_count
    → 1 + pad_led_payload ≤ length out
    → encode_pad_leds strip pads out
      ≡ ok (1 + pad_led_payload, pad_report strip pads ++ drop (length (pad_report strip pads)) out)
unfolding encode_pad_leds
encode_pad_leds_enough strip pads [] e f h = absurd (omega arith)
encode_pad_leds_enough strip pads (x ∷ out) e f h = rw (
  le→ltb (suc (length out)) (1 + pad_led_payload) h,
  write_colors_lem strip (report_out_pad_leds ∷ []) out 1 refl (omega (arith, strip_size)),
  write_colors_lem pads (report_out_pad_leds ∷ color_bytes strip)
      (drop (length (color_bytes strip)) out) (1 + length strip * 3) (omega (arith, strip_size))
      (omega (arith, strip_size, pads_size, length-drop (length (color_bytes strip)) out)),
  drop-drop (length (color_bytes pads)) (length (color_bytes strip)) out,
  length-append (color_bytes strip) (color_bytes pads),
)
  where
    strip_size : length (color_bytes strip) ≡ length strip * 3
    strip_size = length-color_bytes strip

    pads_size : length (color_bytes pads) ≡ length pads * 3
    pads_size = length-color_bytes pads

pub length-pad_report :
    (strip pads : List Rgb)
    → length strip ≡ touchstrip_led_count
    → length pads ≡ pad_count
    → length (pad_report strip pads) ≡ 1 + pad_led_payload
length-pad_report strip pads e f = omega (
  arith,
  length-append (color_bytes strip) (color_bytes pads),
  length-color_bytes strip,
  length-color_bytes pads,
)

-- The pad report is the report id, the 25 strip colours and the 16 pad colours, on a buffer of 124
-- bytes or more; a shorter buffer is refused with both lengths.
pub encode_pad_leds-Writes :
    (strip pads : List Rgb) (out : List ℕ)
    → length strip ≡ touchstrip_led_count
    → length pads ≡ pad_count
    → Writes (pad_report strip pads) (encode_pad_leds strip pads) out
encode_pad_leds-Writes strip pads out e f =
    Writes-intro (pad_report strip pads) (encode_pad_leds strip pads) out
      (λ h.
        rw (length-pad_report strip pads e f)
          (encode_pad_leds_few strip pads out (omega (arith, length-pad_report strip pads e f))))
      (λ h.
        encode_pad_leds_enough strip pads out e f (omega (arith, length-pad_report strip pads e f))
        ∙ ap (λ n. ok (n, pad_report strip pads ++ drop (length (pad_report strip pads)) out))
            (sym (length-pad_report strip pads e f)))

-- The solid report turns the strip off and gives every pad the one colour.
pub encode_pads_solid-Writes :
    (color : Rgb) (out : List ℕ)
    → Writes
        (pad_report (replicate touchstrip_led_count black) (replicate pad_count color))
        (encode_pads_solid color)
        out
unfolding encode_pads_solid
encode_pads_solid-Writes color out = encode_pad_leds-Writes _ _ out refl refl
