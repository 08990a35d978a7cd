-- ===== src/Proto/HidIn.antt =====
-- crates/maschine-proto/src/hid_in.rs: the parsers of HID IN reports. A `u8` buffer is a list of
-- numbers below 256.
pub mod Buttons
pub mod Encoder
pub mod Controls
pub mod Layout
pub mod WellFormed
pub mod Pads
use openmk.Prelude.{
  ℕ, zero, suc, ◌+◌, ◌-◌, ◌*◌, ◌%◌, ◌^◌, bit_and, bit_xor, Bool, not, ◌&&◌, Option, none, some,
  List, [], ◌∷◌, length, ltb, leb, ◌==◌, if◌then◌else◌, Outcome, ok, err, panic, ◌>>=◌, map_ok,
  read, from_le_bytes, shl, ℤ, sub_ℕ, replicate,
}
use openmk.Proto.Types.{ProtoError, short, unknown_report, bad_pad}
use openmk.Proto.Types.{report_in_controls, report_in_pads, pad_count, macro_encoder_count}

pub record ControlsReport : Type 0 where
  pub buttons : ℕ
  pub macros : List ℕ
  pub master : ℕ
  pub touch_strip : Option (ℕ × ℕ)
  pub mic_gain : ℕ
  pub headphones : ℕ
  pub master_vol : ℕ

-- `ControlsReport::default()`
abbrev pub ControlsReport_default : ControlsReport
ControlsReport_default = record {
  buttons = 0;
  macros = replicate macro_encoder_count 0;
  master = 0;
  touch_strip = none;
  mic_gain = 0;
  headphones = 0;
  master_vol = 0;
}

-- `(first .. first + n).filter_map(…)`
unfoldable pub diff_from : ℕ → ℕ → ℕ → ℕ → List (ℕ × Bool)
diff_from changed now first zero = []
diff_from changed now first (suc n) =
    let mask = shl 64 1 first in
    let rest = diff_from changed now (first + 1) n in
    if bit_and changed mask == 0 then rest else (first, not (bit_and now mask == 0)) ∷ rest

-- The buttons whose state differs from `prev`, each with its new state.
unfoldable pub buttons_diff : ControlsReport → ℕ → List (ℕ × Bool)
buttons_diff c prev = diff_from (bit_xor c.buttons prev) c.buttons 0 64

-- The difference of the two `i32` is masked as a bit pattern.
unfoldable pub encoder_delta : ℕ → ℕ → ℤ
encoder_delta prev now =
    let raw = bit_and ((now + 2 ^ 32 - prev) % 2 ^ 32) 0x3ff in
    if ltb 0x200 raw then sub_ℕ raw 0x400 else sub_ℕ raw 0

pub record PadSample : Type 0 where
  pub pad : ℕ
  pub pressure : ℕ

pub record PadsReport : Type 0 where
  pub samples : List PadSample

pub data InReport : Type 0 where
  controls : ControlsReport → InReport
  pads : PadsReport → InReport

abbrev pub u16_le : ℕ → ℕ → ℕ
u16_le hi lo = from_le_bytes (hi ∷ lo ∷ [])

-- `u16_le(buf[off], buf[off + 1])`
unfoldable pub read_u16 : List ℕ → ℕ → Outcome ProtoError ℕ
read_u16 buf off = do lo ← read buf off; hi ← read buf (off + 1); ok (u16_le lo hi)

-- The loop over `macros`, from index `i` on.
unfoldable pub read_macros : List ℕ → ℕ → ℕ → Outcome ProtoError (List ℕ)
read_macros buf i zero = ok []
read_macros buf i (suc n) = do
  m ← read_u16 buf (9 + i * 2)
  ms ← read_macros buf (i + 1) n
  ok (bit_and m 0x3ff ∷ ms)

-- `u64::from_le_bytes(buf[off .. off + n])`
unfoldable pub read_bytes : List ℕ → ℕ → ℕ → Outcome ProtoError (List ℕ)
read_bytes buf off zero = ok []
read_bytes buf off (suc n) = do b ← read buf off; bs ← read_bytes buf (off + 1) n; ok (b ∷ bs)

abbrev pub min_len : ℕ
min_len = 1 + 8 + 2 * 9 + 4 + 6

unfoldable pub parse_controls : List ℕ → Outcome ProtoError ControlsReport
parse_controls buf = if ltb (length buf) min_len then err (short min_len (length buf)) else do
  btn ← read_bytes buf 1 8
  macros ← read_macros buf 0 macro_encoder_count
  master ← read_u16 buf 25
  strip_pos ← read_u16 buf 27
  strip_prs ← read_u16 buf 29
  mic_gain ← read_u16 buf 31
  headphones ← read_u16 buf 33
  master_vol ← read_u16 buf 35
  let pos = bit_and strip_pos 0x3ff
  let prs = bit_and strip_prs 0x3ff
  ok (record {
    buttons = from_le_bytes btn;
    macros = macros;
    master = bit_and master 0x3ff;
    touch_strip = if prs == 0 then none else some (pos, prs);
    mic_gain = bit_and mic_gain 0x3ff;
    headphones = bit_and headphones 0x3ff;
    master_vol = bit_and master_vol 0x3ff;
  })

-- The loop over `body.chunks_exact(3)`: an incomplete last chunk is not visited.
unfoldable pub parse_chunks : List ℕ → Outcome ProtoError (List PadSample)
parse_chunks (pad ∷ lo ∷ hi ∷ body) =
    let pressure = u16_le lo hi in
    let rest = parse_chunks body in
    if (pad == 0) && (pressure == 0)
    then rest
    else if leb pad_count pad
    then err (bad_pad pad)
    else map_ok (◌∷◌ (record { pad = pad; pressure = pressure })) rest
parse_chunks _ = ok []

-- `&buf[1..]` panics on an empty buffer.
unfoldable pub parse_pads : List ℕ → Outcome ProtoError PadsReport
parse_pads [] = panic
parse_pads (id ∷ body) = map_ok (λ samples. record { samples = samples }) (parse_chunks body)

-- The `match buf[0]`.
unfoldable pub dispatch : ℕ → List ℕ → Outcome ProtoError InReport
dispatch id buf =
    if id == report_in_controls
    then map_ok controls (parse_controls buf)
    else if id == report_in_pads
    then map_ok pads (parse_pads buf)
    else err (unknown_report id)

unfoldable pub parse : List ℕ → Outcome ProtoError InReport
parse [] = err (short 1 0)
parse (id ∷ body) = dispatch id (id ∷ body)
