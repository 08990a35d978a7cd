-- ===== src/Proto/HidIn/Controls.antt =====
-- `parse_controls`: its value on a buffer that is long enough, and the documented byte layout.
use openmk.Prelude.{
  ℕ, zero, suc, ◌+◌, ◌*◌, ◌≤◌, ◌<◌, ◌≡◌, refl, Option, none, some, List, [], ◌∷◌, length, get_or,
  ◌==◌, if◌then◌else◌, le→ltb, ok, read_ok, from_le_bytes, bit_and, arith,
}
use openmk.Proto.Types.{macro_encoder_count}
use openmk.Proto.HidIn.{
  ControlsReport, u16_le, read_u16, read_macros, read_bytes, min_len, parse_controls,
}

abbrev pub byte_at : List ℕ → ℕ → ℕ
byte_at buf i = get_or buf i 0

-- The 10-bit value at an offset.
abbrev pub value_at : List ℕ → ℕ → ℕ
value_at buf off = bit_and (u16_le (byte_at buf off) (byte_at buf (off + 1))) 0x3ff

abbrev pub bytes_at : List ℕ → ℕ → ℕ → List ℕ
bytes_at buf off zero = []
bytes_at buf off (suc n) = byte_at buf off ∷ bytes_at buf (off + 1) n

abbrev pub macros_at : List ℕ → ℕ → ℕ → List ℕ
macros_at buf i zero = []
macros_at buf i (suc n) = value_at buf (9 + i * 2) ∷ macros_at buf (i + 1) n

abbrev pub strip_at : ℕ → ℕ → Option (ℕ × ℕ)
strip_at pos prs = if prs == 0 then none else some (pos, prs)

abbrev pub report_at : List ℕ → ControlsReport
report_at buf = record {
  buttons = from_le_bytes (bytes_at buf 1 8);
  macros = macros_at buf 0 macro_encoder_count;
  master = value_at buf 25;
  touch_strip = strip_at (value_at buf 27) (value_at buf 29);
  mic_gain = value_at buf 31;
  headphones = value_at buf 33;
  master_vol = value_at buf 35;
}

read_u16_ok :
    (buf : List ℕ) (off : ℕ)
    → off + 1 < length buf
    → read_u16 buf off ≡ ok (u16_le (byte_at buf off) (byte_at buf (off + 1)))
unfolding read_u16
read_u16_ok buf off h = rw (read_ok buf off 0 (omega arith), read_ok buf (off + 1) 0 (omega arith))

read_bytes_ok :
    (buf : List ℕ) (n off : ℕ)
    → off + n ≤ length buf
    → read_bytes buf off n ≡ ok (bytes_at buf off n)
unfolding read_bytes
read_bytes_ok buf zero off h = refl
read_bytes_ok buf (suc n) off h =
    rw (read_ok buf off 0 (omega arith), read_bytes_ok buf n (off + 1) (omega arith))

read_macros_ok :
    (buf : List ℕ) (n i : ℕ)
    → 9 + (i + n) * 2 ≤ length buf
    → read_macros buf i n ≡ ok (macros_at buf i n)
unfolding read_macros
read_macros_ok buf zero i h = refl
read_macros_ok buf (suc n) i h =
    rw (read_u16_ok buf (9 + i * 2) (omega arith), read_macros_ok buf n (i + 1) (omega arith))

-- On a buffer of 37 bytes or more the parser reads in bounds, and this is its report.
pub parse_controls-report_at :
    (buf : List ℕ) → min_len ≤ length buf → parse_controls buf ≡ ok (report_at buf)
unfolding parse_controls
parse_controls-report_at buf h = rw (
  le→ltb (length buf) min_len h,
  read_bytes_ok buf 8 1 (omega arith),
  read_macros_ok buf 8 0 (omega arith),
  read_u16_ok buf 25 (omega arith),
  read_u16_ok buf 27 (omega arith),
  read_u16_ok buf 29 (omega arith),
  read_u16_ok buf 31 (omega arith),
  read_u16_ok buf 33 (omega arith),
  read_u16_ok buf 35 (omega arith),
)
