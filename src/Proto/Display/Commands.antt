-- ===== src/Proto/Display/Commands.antt =====
-- The bytes of the header and of each command.
use openmk.Prelude.{
  ℕ, ◌/◌, ◌%◌, ◌≤◌, ◌≡◌, List, [], ◌∷◌, ◌++◌, length, drop, replicate, lt→ltb, le→ltb, ltb, ltb→le,
  if◌then◌else◌, Bool-cases, inl, inr, ok, err, overwrite_lem, fill_lem, bit_and_mask, to_be_bytes,
  arith,
}
use openmk.Proto.Types.{DisplayId, as_byte, output_too_small}
use openmk.Proto.Writer.{Writes, Writes-intro}
use openmk.Proto.Display.{
  Rect, display_header_len, encode_header, write_cmd, encode_blit_cmd, encode_repeat_cmd,
  encode_flush_cmd, encode_end_cmd,
}

-- 24 bits, the highest byte first.
abbrev pub count_bytes : ℕ → List ℕ
count_bytes n = (n / 65536 % 256) ∷ (n / 256 % 256) ∷ (n % 256) ∷ []

abbrev pub blit_bytes : ℕ → List ℕ
blit_bytes count = 0x00 ∷ count_bytes count ++ replicate 4 0

abbrev pub repeat_bytes : ℕ → ℕ → ℕ → ℕ → ℕ → List ℕ
repeat_bytes count a b c d = 0x01 ∷ count_bytes count ++ a ∷ b ∷ c ∷ d ∷ []

abbrev pub flush_bytes : List ℕ
flush_bytes = 0x03 ∷ replicate 7 0

abbrev pub end_bytes : List ℕ
end_bytes = 0x40 ∷ replicate 7 0

abbrev pub header_bytes : DisplayId → Rect → List ℕ
header_bytes display rect =
    0x84 ∷ 0 ∷ as_byte display ∷ 0x60 ∷ replicate 12 0
    ++ to_be_bytes rect.x
    ++ to_be_bytes rect.y
    ++ to_be_bytes rect.w
    ++ to_be_bytes rect.h
    ++ replicate 8 0

write_cmd_lem :
    (opcode count a b c d : ℕ) (out : List ℕ)
    → 8 ≤ length out
    → write_cmd opcode count (a ∷ b ∷ c ∷ d ∷ []) out
      ≡ ok (8, (opcode ∷ count_bytes count ++ a ∷ b ∷ c ∷ d ∷ []) ++ drop 8 out)
unfolding write_cmd
write_cmd_lem opcode count a b c d (o1 ∷ o2 ∷ o3 ∷ o4 ∷ o5 ∷ o6 ∷ o7 ∷ o8 ∷ out) h = rw (
  bit_and_mask 8 (count / 65536),
  bit_and_mask 8 (count / 256),
  bit_and_mask 8 count,
  byte (count / 65536),
  byte (count / 256),
  byte count,
)
  where
    byte : (n : ℕ) → n % 256 % 256 ≡ n % 256
    byte n = omega arith
write_cmd_lem opcode count a b c d out h = absurd (omega arith)

-- A blit command is its opcode, the low 24 bits of the count and four zeros; a buffer of fewer than
-- eight bytes is refused.
pub encode_blit_cmd-Writes :
    (count : ℕ) (out : List ℕ) → Writes (blit_bytes count) (encode_blit_cmd count) out
unfolding encode_blit_cmd
encode_blit_cmd-Writes count out =
    Writes-intro (blit_bytes count) (encode_blit_cmd count) out (λ h. rw (lt→ltb (length out) 8 h))
      (λ h. rw (le→ltb (length out) 8 h) (write_cmd_lem 0 count 0 0 0 0 out h))

-- A repeat command is its opcode, the low 24 bits of the count and the pixel pair; a buffer of fewer
-- than eight bytes is refused.
pub encode_repeat_cmd-Writes :
    (count a b c d : ℕ) (out : List ℕ)
    → Writes (repeat_bytes count a b c d) (encode_repeat_cmd count (a ∷ b ∷ c ∷ d ∷ [])) out
unfolding encode_repeat_cmd
encode_repeat_cmd-Writes count a b c d out =
    Writes-intro (repeat_bytes count a b c d) (encode_repeat_cmd count (a ∷ b ∷ c ∷ d ∷ [])) out
      (λ h. rw (lt→ltb (length out) 8 h))
      (λ h. rw (le→ltb (length out) 8 h) (write_cmd_lem 1 count a b c d out h))

pub encode_flush_cmd-Writes : (out : List ℕ) → Writes flush_bytes encode_flush_cmd out
unfolding encode_flush_cmd
encode_flush_cmd-Writes out =
    Writes-intro flush_bytes encode_flush_cmd out (λ h. rw (lt→ltb (length out) 8 h))
      (λ h. rw (le→ltb (length out) 8 h, overwrite_lem flush_bytes out h))

pub encode_end_cmd-Writes : (out : List ℕ) → Writes end_bytes encode_end_cmd out
unfolding encode_end_cmd
encode_end_cmd-Writes out =
    Writes-intro end_bytes encode_end_cmd out (λ h. rw (lt→ltb (length out) 8 h))
      (λ h. rw (le→ltb (length out) 8 h, overwrite_lem end_bytes out h))

pub encode_header_enough :
    (display : DisplayId) (rect : Rect) (out : List ℕ)
    → display_header_len ≤ length out
    → encode_header display rect out ≡ ok (header_bytes display rect ++ drop display_header_len out)
unfolding encode_header
encode_header_enough display rect out h =
    rw (le→ltb (length out) display_header_len h, fill_lem display_header_len 0 out h)

-- The header encoder refuses a buffer of fewer than 32 bytes, and else writes the header to the front
-- and leaves the rest alone.
pub encode_header_lem :
    (display : DisplayId) (rect : Rect) (out : List ℕ)
    → encode_header display rect out ≡ (
        if ltb (length out) display_header_len
        then err (output_too_small display_header_len (length out))
        else ok (header_bytes display rect ++ drop display_header_len out))
encode_header_lem display rect out = elim (Bool-cases (ltb (length out) display_header_len)) [
  | inl h ↦ rw h (unfold encode_header in rw h)
  | inr h ↦ rw h (encode_header_enough display rect out (ltb→le _ _ h))
]
