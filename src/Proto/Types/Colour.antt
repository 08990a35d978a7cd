-- ===== src/Proto/Types/Colour.antt =====
-- What `Rgb::to_rgb565` keeps of a colour.
use openmk.Prelude.{
  ◌+◌, ◌*◌, ◌/◌, ◌^◌, ◌<◌, ◌≡◌, ◌↔◌, arith, bit_and_mask, bit_or_disjoint, bit_or-lt, shr,
}
use openmk.Proto.Types.{Rgb, to_rgb565}

abbrev pub IsColour : Rgb → Type 0
IsColour c = (c.r < 256) × (c.g < 256) × (c.b < 256)

-- The packed word as a sum of its fields.
pub to_rgb565_sum : (c : Rgb) → IsColour c → to_rgb565 c ≡ c.r / 8 * 2048 + c.g / 4 * 32 + c.b / 8
unfolding to_rgb565
to_rgb565_sum c h = ground (
  arith,
  bit_and_mask 5 (c.r / 8),
  bit_and_mask 6 (c.g / 4),
  bit_and_mask 5 (c.b / 8),
  bit_or_disjoint 11 (c.r / 8) (c.g / 4 * 32),
  bit_or_disjoint 5 (c.r / 8 * 64 + c.g / 4) (c.b / 8),
)

-- The packed word of a colour with byte channels fits 16 bits.
pub to_rgb565-lt : (c : Rgb) → IsColour c → to_rgb565 c < 2 ^ 16
to_rgb565-lt c h = omega (arith, to_rgb565_sum c h)

-- Two colours with byte channels pack to the same word exactly when they agree in the five high
-- bits of red, the six of green and the five of blue.
pub to_rgb565-eq_iff :
    (c d : Rgb)
    → IsColour c
    → IsColour d
    → (to_rgb565 c ≡ to_rgb565 d)
      ↔ ((c.r / 8 ≡ d.r / 8) × (c.g / 4 ≡ d.g / 4) × (c.b / 8 ≡ d.b / 8))
to_rgb565-eq_iff c d hc hd = (
  λ e. omega (arith, to_rgb565_sum c hc, to_rgb565_sum d hd),
  λ e. omega (arith, to_rgb565_sum c hc, to_rgb565_sum d hd),
)

-- The packed word of any colour fits 16 bits.
pub to_rgb565-lt_word : (c : Rgb) → to_rgb565 c < 2 ^ 16
unfolding to_rgb565
to_rgb565-lt_word c =
    bit_or-lt 16 _ _ (bit_or-lt 16 _ _ (omega arith) (omega arith))
      (omega (arith, bit_and_mask 5 (shr c.b 3)))
