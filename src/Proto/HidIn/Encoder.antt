-- ===== src/Proto/HidIn/Encoder.antt =====
-- `ControlsReport::encoder_delta`: the short way around the 10-bit circle.
use openmk.Prelude.{
  ℕ, ◌+◌, ◌-◌, ◌%◌, ◌^◌, ◌≤◌, ◌<◌, ◌≡◌, ◌↔◌, bit_and_mask, ℤ, pos, negsuc, pos_part, neg_part,
  arith,
}
use openmk.Proto.HidIn.{encoder_delta}

-- Going `d` ticks from `prev` ends at `now`, and `d` is more than -512 and at most 512.
abbrev pub IsShortWay : ℕ → ℕ → ℤ → Type 0
IsShortWay prev now d =
    (pos_part d ≤ 0x200)
    × (neg_part d < 0x200)
    × ((prev + pos_part d + 0x400 - neg_part d) % 0x400 ≡ now)

pub encoder_delta-IsShortWay :
    (prev now : ℕ) → prev < 0x400 → now < 0x400 → IsShortWay prev now (encoder_delta prev now)
unfolding encoder_delta
encoder_delta-IsShortWay prev now p n =
    ground (arith, bit_and_mask 10 ((now + 2 ^ 32 - prev) % 2 ^ 32))

short_way_unique :
    (prev now : ℕ) (d : ℤ)
    → prev < 0x400
    → now < 0x400
    → IsShortWay prev now d
    → d ≡ encoder_delta prev now
unfolding encoder_delta
short_way_unique prev now (pos k) p n w =
    ground (arith, bit_and_mask 10 ((now + 2 ^ 32 - prev) % 2 ^ 32))
short_way_unique prev now (negsuc k) p n w =
    ground (arith, bit_and_mask 10 ((now + 2 ^ 32 - prev) % 2 ^ 32))

-- Between two 10-bit positions the delta is the one signed number, more than -512 and at most 512,
-- that leads from the first position to the second modulo 1024.
pub encoder_delta_iff :
    (prev now : ℕ) (d : ℤ)
    → prev < 0x400
    → now < 0x400
    → (d ≡ encoder_delta prev now) ↔ IsShortWay prev now d
encoder_delta_iff prev now d p n =
    (λ e. rw e (encoder_delta-IsShortWay prev now p n), short_way_unique prev now d p n)
