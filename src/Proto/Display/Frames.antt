-- ===== src/Proto/Display/Frames.antt =====
-- A whole solid frame, and the packing of pixels.
use openmk.Prelude.{
  ℕ, ◌+◌, ◌*◌, ◌/◌, ◌%◌, ◌≤◌, ◌≡◌, refl, ◌∙◌, List, [], ◌∷◌, ◌++◌, append-nil, append_assoc, length,
  length-append, drop, length-drop, drop-drop, lt→ltb, le→ltb, ok, store-append, arith,
}
use openmk.Proto.Types.{DisplayId, Rgb, to_rgb565}
use openmk.Proto.Writer.{Writes, Writes-intro, on_tail-Writes}
use openmk.Proto.Display.{
  encode_flush_cmd, encode_end_cmd, full, encode_solid_frame, pack_from, pack_rgb565_be,
}
use openmk.Proto.Display.Commands.{
  header_bytes, repeat_bytes, flush_bytes, end_bytes, encode_header_enough,
  encode_repeat_cmd-Writes, encode_flush_cmd-Writes, encode_end_cmd-Writes,
}

abbrev pub high : ℕ → ℕ
high w = w / 256 % 256

abbrev pub low : ℕ → ℕ
low w = w % 256

-- The 56 bytes of a solid frame: the header of the full screen, one repeat of the colour for all
-- 65280 pixel pairs, flush and end.
abbrev pub solid_bytes : DisplayId → ℕ → List ℕ
solid_bytes display w =
    header_bytes display full
    ++ repeat_bytes 65280 (high w) (low w) (high w) (low w)
    ++ flush_bytes
    ++ end_bytes

encode_solid_frame_enough :
    (display : DisplayId) (color : Rgb) (out : List ℕ)
    → 56 ≤ length out
    → encode_solid_frame display color out
      ≡ ok (56, solid_bytes display (to_rgb565 color) ++ drop 56 out)
unfolding encode_solid_frame
encode_solid_frame_enough display color out h = rw (
  le→ltb (length out) 56 h,
  encode_header_enough display full out (omega arith),
  on_tail-Writes fill_screen head (drop 32 out) _ 32
      (encode_repeat_cmd-Writes 65280 (high w) (low w) (high w) (low w) (drop 32 out)) refl
      (omega (arith, length-drop 32 out)),
  drop-drop 8 32 out,
  on_tail-Writes flush_bytes (head ++ fill_screen) (drop 40 out) encode_flush_cmd 40
      (encode_flush_cmd-Writes (drop 40 out)) refl (omega (arith, length-drop 40 out)),
  drop-drop 8 40 out,
  on_tail-Writes end_bytes (head ++ fill_screen ++ flush_bytes) (drop 48 out) encode_end_cmd 48
      (encode_end_cmd-Writes (drop 48 out)) refl (omega (arith, length-drop 48 out)),
  drop-drop 8 48 out,
)
  where
    w : ℕ
    w = to_rgb565 color

    head : List ℕ
    head = header_bytes display full

    fill_screen : List ℕ
    fill_screen = repeat_bytes 65280 (high w) (low w) (high w) (low w)

-- A solid frame needs 56 bytes; a shorter buffer is refused.
pub encode_solid_frame-Writes :
    (display : DisplayId) (color : Rgb) (out : List ℕ)
    → Writes (solid_bytes display (to_rgb565 color)) (encode_solid_frame display color) out
unfolding encode_solid_frame
encode_solid_frame-Writes display color out =
    Writes-intro (solid_bytes display (to_rgb565 color)) (encode_solid_frame display color) out
      (λ h. rw (lt→ltb (length out) 56 h)) (λ h. encode_solid_frame_enough display color out h)

abbrev pub be_bytes : List ℕ → List ℕ
be_bytes [] = []
be_bytes (w ∷ ws) = high w ∷ low w ∷ be_bytes ws

pack_from-cons :
    (w : ℕ) (ws pre rest : List ℕ) (x y i : ℕ)
    → i * 2 ≡ length pre
    → pack_from (w ∷ ws) i (pre ++ x ∷ y ∷ rest)
      ≡ pack_from ws (i + 1) (pre ++ high w ∷ low w ∷ rest)
unfolding pack_from
pack_from-cons w ws pre rest x y i e = rw (
  store-append pre (x ∷ y ∷ rest) (i * 2) 0 (high w) (omega arith),
  store-append pre (high w ∷ y ∷ rest) (i * 2 + 1) 1 (low w) (omega arith),
)

pack_from_lem :
    (ws pre rest : List ℕ) (i : ℕ)
    → i * 2 ≡ length pre
    → length (be_bytes ws) ≤ length rest
    → pack_from ws i (pre ++ rest) ≡ ok (pre ++ be_bytes ws ++ drop (length (be_bytes ws)) rest)
pack_from_lem [] pre rest i e h = unfold pack_from in rw append-nil
pack_from_lem (w ∷ ws) pre (x ∷ y ∷ rest) i e h =
    let word = high w ∷ low w ∷ [] in
    let later =
      pack_from_lem ws (pre ++ word) rest (i + 1) (omega (arith, length-append pre word))
        (omega arith) in
    pack_from-cons w ws pre rest x y i e
    ∙ rw (append_assoc pre word rest, append_assoc pre word (be_bytes ws)) at later
pack_from_lem (w ∷ ws) pre rest i e h = absurd (omega arith)

-- With room for two bytes a pixel, packing writes each pixel's high byte and low byte in order and
-- leaves the rest of the buffer alone; it does not panic.
pub pack_rgb565_be_lem :
    (native out : List ℕ)
    → length (be_bytes native) ≤ length out
    → pack_rgb565_be native out ≡ ok (be_bytes native ++ drop (length (be_bytes native)) out)
unfolding pack_rgb565_be
pack_rgb565_be_lem native out h = pack_from_lem native [] out 0 refl h
