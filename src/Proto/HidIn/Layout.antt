-- ===== src/Proto/HidIn/Layout.antt =====
-- The documented byte layout of a control report, and that `parse` reads it back.
use openmk.Prelude.{
  ℕ, ◌/◌, ◌%◌, ◌<◌, ◌≡◌, refl, ◌∙◌, Option, none, some, List, [], ◌∷◌, ◌++◌, ok, le_bytes,
  from_le_bytes-le_bytes, bit_and, bit_and_mask, arith,
}
use openmk.Proto.Types.{report_in_controls}
use openmk.Proto.HidIn.{ControlsReport, controls, u16_le, parse_controls, dispatch, parse}
use openmk.Proto.HidIn.Controls.{strip_at, parse_controls-report_at}
use openmk.Proto.HidIn.WellFormed.{IsReport, IsTouch}

abbrev pub values : List ℕ → List ℕ
values [] = []
values (v ∷ vs) = (v % 256) ∷ (v / 256) ∷ values vs

-- An untouched strip reports position 0 and pressure 0.
abbrev pub strip_position : Option (ℕ × ℕ) → ℕ
strip_position none = 0
strip_position (some (position, pressure)) = position

abbrev pub strip_pressure : Option (ℕ × ℕ) → ℕ
strip_pressure none = 0
strip_pressure (some (position, pressure)) = pressure

abbrev pub layout : ControlsReport → List ℕ
layout c =
    report_in_controls ∷ le_bytes 8 c.buttons
    ++ values c.macros
    ++ values (c.master ∷ [])
    ++ values (strip_position c.touch_strip ∷ strip_pressure c.touch_strip ∷ [])
    ++ values (c.mic_gain ∷ c.headphones ∷ c.master_vol ∷ [])

value : (v : ℕ) → v < 0x400 → bit_and (u16_le (v % 256) (v / 256)) 0x3ff ≡ v
value v h = bit_and_mask 10 _ ∙ omega arith

strip_position-lt : (t : Option (ℕ × ℕ)) → IsTouch t → strip_position t < 0x400
strip_position-lt none h = omega arith
strip_position-lt (some (position, pressure)) h = h.0

strip_pressure-lt : (t : Option (ℕ × ℕ)) → IsTouch t → strip_pressure t < 0x400
strip_pressure-lt none h = omega arith
strip_pressure-lt (some (position, pressure)) h = h.2

strip_at_lem : (t : Option (ℕ × ℕ)) → IsTouch t → strip_at (strip_position t) (strip_pressure t) ≡ t
strip_at_lem none h = refl
strip_at_lem (some (position, pressure)) h = ground arith

-- The report with its fields apart, so that the macros can be matched.
abbrev report : ℕ → List ℕ → ℕ → Option (ℕ × ℕ) → ℕ → ℕ → ℕ → ControlsReport
report buttons macros master touch mic_gain headphones master_vol = record {
  buttons = buttons;
  macros = macros;
  master = master;
  touch_strip = touch;
  mic_gain = mic_gain;
  headphones = headphones;
  master_vol = master_vol;
}

parse_controls-report :
    (buttons : ℕ) (macros : List ℕ) (master : ℕ) (touch : Option (ℕ × ℕ)) (mic hp vol : ℕ)
    (pad : List ℕ)
    → IsReport (report buttons macros master touch mic hp vol)
    → let c = report buttons macros master touch mic hp vol in
      parse_controls (layout c ++ pad) ≡ ok c
parse_controls-report buttons (a ∷ b ∷ c ∷ d ∷ e ∷ f ∷ g ∷ k ∷ []) master touch mic hp vol pad h =
    parse_controls-report_at _ (omega arith)
    ∙ rw (
      from_le_bytes-le_bytes 8 buttons h.buttons_fit,
      value a (omega arith),
      value b (omega arith),
      value c (omega arith),
      value d (omega arith),
      value e (omega arith),
      value f (omega arith),
      value g (omega arith),
      value k (omega arith),
      value master h.master_fits,
      value (strip_position touch) (strip_position-lt touch h.touch_fits),
      value (strip_pressure touch) (strip_pressure-lt touch h.touch_fits),
      strip_at_lem touch h.touch_fits,
      value mic h.mic_gain_fits,
      value hp h.headphones_fit,
      value vol h.master_vol_fits,
    )
parse_controls-report buttons macros master touch mic hp vol pad h =
    absurd (omega (arith, h.eight_macros))

-- A well-formed report in the documented layout, with any padding behind it, parses to that report.
pub parse-layout :
    (c : ControlsReport) (pad : List ℕ) → IsReport c → parse (layout c ++ pad) ≡ ok (controls c)
unfolding parse dispatch
parse-layout c pad h = rw (
    parse_controls-report c.buttons c.macros c.master c.touch_strip c.mic_gain c.headphones
      c.master_vol pad h)
