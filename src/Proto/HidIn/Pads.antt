-- ===== src/Proto/HidIn/Pads.antt =====
-- `parse_pads` on the documented layout of a pad report: slots of three bytes.
use openmk.Prelude.{
  ℕ, ◌/◌, ◌%◌, ◌≤◌, ◌<◌, ◌≡◌, refl, ap, ◌∙◌, Option, none, some, List, [], ◌∷◌, ◌++◌, length, All,
  leb, ◌&&◌, ◌==◌, false, le→leb, Outcome, ok, err, panic, map_ok, arith, append-nil,
}
use openmk.Proto.Types.{ProtoError, bad_pad, pad_count, report_in_pads}
use openmk.Proto.HidIn.{PadSample, pads, u16_le, parse_chunks, parse_pads, dispatch, parse}
use openmk.Proto.HidIn.WellFormed.{IsSample}

-- A slot holds a sample, or is empty: three zeros.
abbrev pub slot_bytes : Option PadSample → List ℕ
slot_bytes none = 0 ∷ 0 ∷ 0 ∷ []
slot_bytes (some s) = s.pad ∷ (s.pressure % 256) ∷ (s.pressure / 256) ∷ []

abbrev pub slots_bytes : List (Option PadSample) → List ℕ
slots_bytes [] = []
slots_bytes (slot ∷ slots) = slot_bytes slot ++ slots_bytes slots

abbrev pub filled : List (Option PadSample) → List PadSample
filled [] = []
filled (none ∷ slots) = filled slots
filled (some s ∷ slots) = s ∷ filled slots

abbrev pub IsSlot : Option PadSample → Type 0
IsSlot none = Unit
IsSlot (some s) = IsSample s

parse_chunks-sample :
    (s : PadSample) (rest : List ℕ)
    → IsSample s
    → parse_chunks (slot_bytes (some s) ++ rest) ≡ map_ok (◌∷◌ s) (parse_chunks rest)
unfolding parse_chunks
parse_chunks-sample s rest h = rw (whole, occupied, in_range)
  where
    whole : u16_le (s.pressure % 256) (s.pressure / 256) ≡ s.pressure
    whole = omega arith

    occupied : ((s.pad == 0) && (s.pressure == 0)) ≡ false
    occupied = ground arith

    in_range : leb pad_count s.pad ≡ false
    in_range = ground arith

parse_chunks_empty : (rest : List ℕ) → parse_chunks (slot_bytes none ++ rest) ≡ parse_chunks rest
unfolding parse_chunks
parse_chunks_empty rest = refl

map_ok-map_ok :
    (s : PadSample) (ss : List PadSample) (o : Outcome ProtoError (List PadSample))
    → map_ok (◌∷◌ s) (map_ok (λ ys. ss ++ ys) o) ≡ map_ok (λ ys. s ∷ ss ++ ys) o
map_ok-map_ok s ss (ok a) = refl
map_ok-map_ok s ss (err e) = refl
map_ok-map_ok s ss panic = refl

parse_chunks-slots :
    (slots : List (Option PadSample)) (rest : List ℕ)
    → All IsSlot slots
    → parse_chunks (slots_bytes slots ++ rest)
      ≡ map_ok (λ ys. filled slots ++ ys) (parse_chunks rest)
parse_chunks-slots [] rest h = unchanged (parse_chunks rest)
  where
    unchanged : (o : Outcome ProtoError (List PadSample)) → o ≡ map_ok (λ ys. ys) o
    unchanged (ok a) = refl
    unchanged (err e) = refl
    unchanged panic = refl
parse_chunks-slots (none ∷ slots) rest h =
    parse_chunks_empty (slots_bytes slots ++ rest) ∙ parse_chunks-slots slots rest h.1
parse_chunks-slots (some s ∷ slots) rest h =
    parse_chunks-sample s (slots_bytes slots ++ rest) h.0
    ∙ ap (map_ok (◌∷◌ s)) (parse_chunks-slots slots rest h.1)
    ∙ map_ok-map_ok s (filled slots) (parse_chunks rest)

parse_chunks_short : (tail : List ℕ) → length tail < 3 → parse_chunks tail ≡ ok []
unfolding parse_chunks
parse_chunks_short [] h = refl
parse_chunks_short (a ∷ []) h = refl
parse_chunks_short (a ∷ b ∷ []) h = refl
parse_chunks_short (a ∷ b ∷ c ∷ tail) h = absurd (omega arith)

-- A pad report made of slots, each empty or with a valid sample, and of fewer than three further
-- bytes, parses to the samples of the filled slots, in order.
pub parse-slots :
    (slots : List (Option PadSample)) (tail : List ℕ)
    → All IsSlot slots
    → length tail < 3
    → parse (report_in_pads ∷ slots_bytes slots ++ tail)
      ≡ ok (pads (record { samples = filled slots }))
unfolding parse dispatch parse_pads
parse-slots slots tail h few =
    rw (parse_chunks-slots slots tail h, parse_chunks_short tail few, append-nil)

-- After any valid slots, a chunk with a pad index of 16 or more is refused with that index, also
-- where its pressure is 0 and whatever follows it.
pub parse_bad_pad :
    (slots : List (Option PadSample)) (pad lo hi : ℕ) (rest : List ℕ)
    → All IsSlot slots
    → pad_count ≤ pad
    → parse (report_in_pads ∷ slots_bytes slots ++ pad ∷ lo ∷ hi ∷ rest) ≡ err (bad_pad pad)
unfolding parse dispatch parse_pads
parse_bad_pad slots pad lo hi rest h out_of_range =
    rw (parse_chunks-slots slots (pad ∷ lo ∷ hi ∷ rest) h, refused)
  where
    occupied : ((pad == 0) && (u16_le lo hi == 0)) ≡ false
    occupied = ground arith

    refused : parse_chunks (pad ∷ lo ∷ hi ∷ rest) ≡ err (bad_pad pad)
    refused = unfold parse_chunks in rw (occupied, le→leb pad_count pad out_of_range)
