-- ===== src/Proto/HidIn/WellFormed.antt =====
-- What holds of every report that `parse` accepts from a buffer of bytes.
use native.Mathlib.Nat.{pow-suc}
use openmk.Prelude.{
  Returns, Returns-map_ok, ℕ, zero, suc, ◌+◌, ◌*◌, ◌^◌, ◌<◌, ◌≡◌, ◌≢◌, ◌⊎◌, inl, inr, refl, Option,
  none, some, List, [], ◌∷◌, length, All, leb, ◌&&◌, ltb, ltb→le, ◌==◌, Bool-cases, false,
  from_le_bytes, bit_and_mask, arith,
}
use openmk.Proto.Types.{pad_count, macro_encoder_count, report_in_controls, report_in_pads}
use openmk.Proto.HidIn.{
  ControlsReport, u16_le, InReport, PadSample, controls, pads, min_len, parse_controls,
  parse_chunks, parse_pads, dispatch, parse,
}
use openmk.Proto.HidIn.Controls.{
  byte_at, value_at, bytes_at, macros_at, strip_at, report_at, parse_controls-report_at,
}

abbrev pub IsByte : ℕ → Type 0
IsByte b = b < 256

abbrev pub IsTouch : Option (ℕ × ℕ) → Type 0
IsTouch none = Unit
IsTouch (some (position, pressure)) = (position < 0x400) × (0 < pressure) × (pressure < 0x400)

-- Positions and knobs have 10 bits, the button mask has 64, and a touch has a pressure.
pub record IsReport (c : ControlsReport) : Type 0 where
  pub buttons_fit : c.buttons < 2 ^ 64
  pub eight_macros : length c.macros ≡ macro_encoder_count
  pub macros_fit : All (λ m. m < 0x400) c.macros
  pub master_fits : c.master < 0x400
  pub touch_fits : IsTouch c.touch_strip
  pub mic_gain_fits : c.mic_gain < 0x400
  pub headphones_fit : c.headphones < 0x400
  pub master_vol_fits : c.master_vol < 0x400

pub byte_at-IsByte : (buf : List ℕ) (i : ℕ) → All IsByte buf → IsByte (byte_at buf i)
byte_at-IsByte [] i h = omega arith
byte_at-IsByte (b ∷ buf) zero h = h.0
byte_at-IsByte (b ∷ buf) (suc i) h = byte_at-IsByte buf i h.1

value_at-lt : (buf : List ℕ) (off : ℕ) → value_at buf off < 0x400
value_at-lt buf off = rw (bit_and_mask 10 _) (omega arith)

macros_at-lt : (buf : List ℕ) (n i : ℕ) → All (λ m. m < 0x400) (macros_at buf i n)
macros_at-lt buf zero i = tt
macros_at-lt buf (suc n) i = (value_at-lt buf (9 + i * 2), macros_at-lt buf n (i + 1))

from_le_bytes-lt :
    (buf : List ℕ) (n off : ℕ) → All IsByte buf → from_le_bytes (bytes_at buf off n) < 256 ^ n
from_le_bytes-lt buf zero off h = omega arith
from_le_bytes-lt buf (suc n) off h =
    omega (arith, byte_at-IsByte buf off h, from_le_bytes-lt buf n (off + 1) h, pow-suc 256 n)

strip_at-IsTouch : (pos prs : ℕ) → pos < 0x400 → prs < 0x400 → IsTouch (strip_at pos prs)
strip_at-IsTouch pos prs p q = elim (Bool-cases (prs == 0)) [
  | inl untouched ↦ rw untouched tt
  | inr touched ↦ rw touched (p, ground arith, q)
]

report_at-IsReport : (buf : List ℕ) → All IsByte buf → IsReport (report_at buf)
report_at-IsReport buf h = record {
  buttons_fit = from_le_bytes-lt buf 8 1 h;
  eight_macros = refl;
  macros_fit = macros_at-lt buf 8 0;
  master_fits = value_at-lt buf 25;
  touch_fits = strip_at-IsTouch _ _ (value_at-lt buf 27) (value_at-lt buf 29);
  mic_gain_fits = value_at-lt buf 31;
  headphones_fit = value_at-lt buf 33;
  master_vol_fits = value_at-lt buf 35;
}

-- The index is one of the 16 pads, the pressure has 16 bits, and the slot is not empty.
abbrev pub IsSample : PadSample → Type 0
IsSample s = (s.pad < pad_count) × (s.pressure < 2 ^ 16) × ((s.pad ≢ 0) ⊎ (s.pressure ≢ 0))

abbrev pub IsInReport : InReport → Type 0
IsInReport (controls c) = IsReport c
IsInReport (pads p) = All IsSample p.samples

parse_controls-Returns : (buf : List ℕ) → All IsByte buf → Returns IsReport (parse_controls buf)
parse_controls-Returns buf h = elim (Bool-cases (ltb (length buf) min_len)) [
  | inl few ↦ unfold parse_controls in rw few tt
  | inr enough ↦ rw (parse_controls-report_at buf (ltb→le _ _ enough)) (report_at-IsReport buf h)
]

used_chunk :
    (pad lo hi : ℕ)
    → lo < 256
    → hi < 256
    → ((pad == 0) && (u16_le lo hi == 0)) ≡ false
    → leb pad_count pad ≡ false
    → IsSample (record { pad = pad; pressure = u16_le lo hi })
used_chunk pad lo hi p q used good = (ground arith, omega arith, ground arith)

parse_chunks-Returns :
    (body : List ℕ) → All IsByte body → Returns (All IsSample) (parse_chunks body)
unfolding parse_chunks
parse_chunks-Returns (pad ∷ lo ∷ hi ∷ body) (a, (b, (c, h))) =
    let rest = parse_chunks-Returns body h in
    elim (Bool-cases ((pad == 0) && (u16_le lo hi == 0))) [
      | inl empty ↦ rw empty rest
      | inr used ↦ elim (Bool-cases (leb pad_count pad)) [
        | inl bad ↦ rw (used, bad) tt
        | inr good ↦
            rw (used, good)
              (Returns-map_ok (All IsSample) (All IsSample) _ (parse_chunks body)
                (λ ss hs. (used_chunk pad lo hi b c used good, hs)) rest)
      ]
    ]
parse_chunks-Returns [] h = tt
parse_chunks-Returns (a ∷ []) h = tt
parse_chunks-Returns (a ∷ b ∷ []) h = tt

parse_pads-Returns :
    (id : ℕ) (body : List ℕ)
    → All IsByte body
    → Returns (λ p. All IsSample p.samples) (parse_pads (id ∷ body))
unfolding parse_pads
parse_pads-Returns id body h =
    Returns-map_ok (All IsSample) _ _ (parse_chunks body) (λ ss hs. hs)
      (parse_chunks-Returns body h)

-- On every buffer of bytes the parser returns without a panic, and a report that it accepts is
-- well formed: 10-bit positions and knobs, eight macros and a pressure with every touch, or pad
-- samples with indices below 16, 16-bit pressures and no empty slot.
pub parse-Returns : (buf : List ℕ) → All IsByte buf → Returns IsInReport (parse buf)
unfolding parse dispatch
parse-Returns [] h = tt
parse-Returns (id ∷ body) h = elim (Bool-cases (id == report_in_controls)) [
  | inl is_controls ↦ rw is_controls (
      Returns-map_ok IsReport IsInReport controls _ (λ c hc. hc)
        (parse_controls-Returns (id ∷ body) h))
  | inr other ↦ elim (Bool-cases (id == report_in_pads)) [
    | inl is_pads ↦
        rw (other, is_pads)
          (Returns-map_ok _ IsInReport pads _ (λ p hp. hp) (parse_pads-Returns id body h.1))
    | inr unknown ↦ rw (other, unknown) tt
  ]
]
