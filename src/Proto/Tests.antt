-- ===== src/Proto/Tests.antt =====
-- The unit tests of crates/maschine-proto/src, and runs of the parsers and encoders at concrete
-- inputs.
use openmk.Prelude.{
  ℕ, ◌≡◌, refl, true, false, none, some, List, [], ◌∷◌, ◌++◌, set, replicate, ok, err, Returns, pos,
  negsuc, arith,
}
use openmk.Proto.Types.{Rgb, bad_pad, unknown_report, short, report_in_pads}
use openmk.Proto.HidIn.{
  ControlsReport, ControlsReport_default, PadSample, controls, pads, parse, buttons_diff,
  encoder_delta, diff_from, dispatch,
}
use openmk.Proto.HidIn.WellFormed.{IsInReport, IsReport, parse-Returns}
use openmk.Proto.HidIn.Layout.{layout, parse-layout}
use openmk.Proto.HidIn.Pads.{slots_bytes, parse-slots, parse_bad_pad}
use openmk.Proto.Display.{Rect, encode_blit_cmd, write_cmd}

-- The report of the test `parses_controls_report`, with macro 3 at 0x123.
abbrev touched : ControlsReport
touched = record {
  buttons = 0x21;
  macros = set (replicate 8 0) 3 0x123;
  master = 0x200;
  touch_strip = some (0x0ff, 0x010);
  mic_gain = 0x111;
  headphones = 0x222;
  master_vol = 0x333;
}

touched-IsReport : IsReport touched
touched-IsReport = record {
  buttons_fit = omega arith;
  eight_macros = refl;
  macros_fit = omega arith;
  master_fits = omega arith;
  touch_fits = omega arith;
  mic_gain_fits = omega arith;
  headphones_fit = omega arith;
  master_vol_fits = omega arith;
}

abbrev sample : ℕ → ℕ → PadSample
sample pad pressure = record { pad = pad; pressure = pressure }

abbrev rgb : ℕ → ℕ → ℕ → Rgb
rgb r g b = record { r = r; g = g; b = b }

encoder_delta_up : encoder_delta 0x3ff 0x001 ≡ pos 2
unfolding encoder_delta
encoder_delta_up = refl

encoder_delta_down : encoder_delta 0x001 0x3ff ≡ negsuc 1
unfolding encoder_delta
encoder_delta_down = refl

buttons_diff_changed :
    buttons_diff (record ControlsReport_default { buttons = 6 }) 5 ≡ (0, false) ∷ (1, true) ∷ []
unfolding buttons_diff diff_from
buttons_diff_changed = refl

parse_empty : parse [] ≡ err (short 1 0)
unfolding parse
parse_empty = refl

parse_unknown : parse (0x77 ∷ 1 ∷ []) ≡ err (unknown_report 0x77)
unfolding parse dispatch
parse_unknown = refl

encode_blit_cmd_count :
    encode_blit_cmd 0xabcdef (replicate 8 9) ≡ ok (8, 0 ∷ 0xab ∷ 0xcd ∷ 0xef ∷ 0 ∷ 0 ∷ 0 ∷ 0 ∷ [])
unfolding encode_blit_cmd write_cmd
encode_blit_cmd_count = refl

parse-Returns_example : Returns IsInReport (parse (report_in_pads ∷ 5 ∷ 0x34 ∷ 0x42 ∷ []))
parse-Returns_example = parse-Returns (report_in_pads ∷ 5 ∷ 0x34 ∷ 0x42 ∷ []) (omega arith)

parse-layout_example : parse (layout touched ++ replicate 11 0) ≡ ok (controls touched)
parse-layout_example = parse-layout touched (replicate 11 0) touched-IsReport

parse-slots_example :
    parse (
      report_in_pads ∷ slots_bytes (some (sample 5 0x4234) ∷ none ∷ some (sample 15 0x4000) ∷ [])
      ++ 0 ∷ [])
    ≡ ok (pads (record { samples = sample 5 0x4234 ∷ sample 15 0x4000 ∷ [] }))
parse-slots_example =
    parse-slots (some (sample 5 0x4234) ∷ none ∷ some (sample 15 0x4000) ∷ []) (0 ∷ [])
      (ground arith) (omega arith)

parse_bad_pad_example :
    parse (report_in_pads ∷ slots_bytes (none ∷ []) ++ 16 ∷ 0x00 ∷ 0x40 ∷ 7 ∷ []) ≡ err (bad_pad 16)
parse_bad_pad_example = parse_bad_pad (none ∷ []) 16 0x00 0x40 (7 ∷ []) (ground arith) (omega arith)

abbrev some_buffer : List ℕ
some_buffer = replicate 40 5

abbrev window : Rect
window = record { x = 0x10; y = 0x20; w = 480; h = 272 }
