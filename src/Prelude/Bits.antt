-- ===== src/Prelude/Bits.antt =====
-- Binary digits of machine words: the native bit operations digit by digit, masks, single bits.
use Prim.Native.Nat.{
  ℕ, zero, suc, ◌+◌, ◌-◌, ◌*◌, ◌/◌, ◌%◌, ◌^◌, ◌≤◌, ◌<◌, min, max, bit_and, bit_or, bit_xor, digits,
  bitwise, differ, bit_and-bitwise, bit_or-bitwise, bit_xor-bitwise,
}
use mathlib.Core.Path.{◌≡◌, refl, sym, ◌∙◌, ap}
use mathlib.Core.Logic.{◌≢◌}
use native.Mathlib.Nat.{pow-suc, pow-succ', one-le-pow, div-div-eq-div-mul}
use native.Mathlib.Omega.{arith}

-- Digit `k` of `x`, the lowest being digit 0.
abbrev pub bit : ℕ → ℕ → ℕ
bit x zero = x % 2
bit x (suc k) = bit (x / 2) k

-- What holds of every operation that works digit by digit.
module _ (z : ℕ → ℕ) (f : ℕ → ℕ → ℕ) where
  enough_digits : (m n a b : ℕ) → a ≤ m → a ≤ n → digits z f m a b ≡ digits z f n a b
  enough_digits zero zero a b p q = refl
  enough_digits zero (suc n) zero b p q = refl
  enough_digits zero (suc n) (suc a) b p q = absurd (omega arith)
  enough_digits (suc m) zero zero b p q = refl
  enough_digits (suc m) zero (suc a) b p q = absurd (omega arith)
  enough_digits (suc m) (suc n) zero b p q = refl
  enough_digits (suc m) (suc n) (suc a) b p q =
      ap (λ (t : ℕ). t * 2 + f (suc a % 2) (b % 2))
        (enough_digits m n (suc a / 2) (b / 2) (omega arith) (omega arith))

  bitwise-halves :
      ((b : ℕ) → z b ≡ z (b / 2) * 2 + f 0 (b % 2))
      → (a b : ℕ) → bitwise z f a b ≡ bitwise z f (a / 2) (b / 2) * 2 + f (a % 2) (b % 2)
  bitwise-halves low zero b = low b
  bitwise-halves low (suc a) b =
      ap (λ (t : ℕ). t * 2 + f (suc a % 2) (b % 2))
        (enough_digits a (suc a / 2) (suc a / 2) (b / 2) (omega arith) (omega arith))

pub bit_and-halves : (a b : ℕ) → bit_and a b ≡ bit_and (a / 2) (b / 2) * 2 + min (a % 2) (b % 2)
bit_and-halves a b = simp bit_and-bitwise (bitwise-halves (λ _. 0) min (λ b. omega arith) a b)

pub bit_or-halves : (a b : ℕ) → bit_or a b ≡ bit_or (a / 2) (b / 2) * 2 + max (a % 2) (b % 2)
bit_or-halves a b = simp bit_or-bitwise (bitwise-halves (λ b. b) max (λ b. omega arith) a b)

differ_low : (b : ℕ) → differ 0 b ≡ b
differ_low zero = refl
differ_low (suc b) = refl

pub bit_xor-halves : (a b : ℕ) → bit_xor a b ≡ bit_xor (a / 2) (b / 2) * 2 + differ (a % 2) (b % 2)
bit_xor-halves a b =
    simp bit_xor-bitwise
      (bitwise-halves (λ b. b) differ (λ b. omega (arith, differ_low (b % 2))) a b)

pub differ-lt-two : (a b : ℕ) → a < 2 → b < 2 → differ a b < 2
differ-lt-two zero b p q = q
differ-lt-two (suc zero) zero p q = p
differ-lt-two (suc zero) (suc b) p q = omega arith
differ-lt-two (suc (suc a)) b p q = absurd (omega arith)

pub bit-lt-two : (x k : ℕ) → bit x k < 2
bit-lt-two x zero = omega arith
bit-lt-two x (suc k) = bit-lt-two (x / 2) k

-- An operation that works digit by digit commutes with `bit`.
module _ (op f : ℕ → ℕ → ℕ)
    (halves : (a b : ℕ) → op a b ≡ op (a / 2) (b / 2) * 2 + f (a % 2) (b % 2))
    (small : (a b : ℕ) → a < 2 → b < 2 → f a b < 2) where
  pub bit-op : (k a b : ℕ) → bit (op a b) k ≡ f (bit a k) (bit b k)
  bit-op zero a b = omega (arith, halves a b, small (a % 2) (b % 2) (omega arith) (omega arith))
  bit-op (suc k) a b =
      ap (λ (t : ℕ). bit t k)
        (omega (arith, halves a b, small (a % 2) (b % 2) (omega arith) (omega arith)))
      ∙ bit-op k (a / 2) (b / 2)

pub bit-bit_and : (k a b : ℕ) → bit (bit_and a b) k ≡ min (bit a k) (bit b k)
bit-bit_and = bit-op bit_and min bit_and-halves (λ a b p q. omega arith)

pub bit-bit_or : (k a b : ℕ) → bit (bit_or a b) k ≡ max (bit a k) (bit b k)
bit-bit_or = bit-op bit_or max bit_or-halves (λ a b p q. omega arith)

pub bit-bit_xor : (k a b : ℕ) → bit (bit_xor a b) k ≡ differ (bit a k) (bit b k)
bit-bit_xor = bit-op bit_xor differ bit_xor-halves differ-lt-two

pub bit-zero : (k : ℕ) → bit 0 k ≡ 0
bit-zero zero = refl
bit-zero (suc k) = bit-zero k

-- The digits of a power of two.
pub bit-pow_self : (k : ℕ) → bit (2 ^ k) k ≡ 1
bit-pow_self zero = refl
bit-pow_self (suc k) = ap (λ (t : ℕ). bit t k) (omega (arith, pow-suc 2 k)) ∙ bit-pow_self k

pub bit-pow_ne : (j k : ℕ) → j ≢ k → bit (2 ^ j) k ≡ 0
bit-pow_ne zero zero h = absurd (h refl)
bit-pow_ne zero (suc k) h = bit-zero k
bit-pow_ne (suc j) zero h = omega (arith, pow-suc 2 j)
bit-pow_ne (suc j) (suc k) h =
    ap (λ (t : ℕ). bit t k) (omega (arith, pow-suc 2 j)) ∙ bit-pow_ne j k (λ e. h (ap suc e))

bit_and-zero : (n a : ℕ) → a ≤ n → bit_and a 0 ≡ 0
bit_and-zero n zero h = bit_and-bitwise 0 0
bit_and-zero zero (suc a) h = absurd (omega arith)
bit_and-zero (suc n) (suc a) h =
    omega (arith, bit_and-halves (suc a) 0, bit_and-zero n (suc a / 2) (omega arith))

-- `a & (1 << k)` keeps digit `k` in its place.
pub bit_and-pow : (k a : ℕ) → bit_and a (2 ^ k) ≡ bit a k * 2 ^ k
bit_and-pow zero a = omega (arith, bit_and-halves a 1, bit_and-zero (a / 2) (a / 2) (omega arith))
bit_and-pow (suc k) a =
    bit_and-halves a (2 ^ suc k)
    ∙ rw (doubled, half, odd)
        (omega (arith, bit_and-pow k (a / 2), ap (λ (t : ℕ). bit (a / 2) k * t) doubled))
  where
    doubled : 2 ^ suc k ≡ 2 ^ k * 2
    doubled = pow-suc 2 k

    half : 2 ^ k * 2 / 2 ≡ 2 ^ k
    half = omega arith

    odd : 2 ^ k * 2 % 2 ≡ 0
    odd = omega arith

-- A remainder by `2 * m` is a remainder by `m` of the half, and the lowest digit.
mod_double : (m a : ℕ) → 0 < m → a % (m * 2) ≡ a / 2 % m * 2 + a % 2
mod_double m a h = grind arith

-- A mask of the `k` lowest digits takes the remainder by `2 ^ k`.
pub bit_and_mask : (k a : ℕ) → bit_and a (2 ^ k - 1) ≡ a % 2 ^ k
bit_and_mask zero a = bit_and-zero a a (omega arith) ∙ omega arith
bit_and_mask (suc k) a = ground (
  arith,
  bit_and-halves a (2 ^ suc k - 1),
  pow-suc 2 k,
  one-le-pow k 2,
  bit_and_mask k (a / 2),
  mod_double (2 ^ k) a,
)

-- Digit `k` as it is read by a shift.
pub bit-shift : (k x : ℕ) → bit x k ≡ x / 2 ^ k % 2
bit-shift zero x = omega arith
bit-shift (suc k) x =
    bit-shift k (x / 2)
    ∙ ap (λ (t : ℕ). t % 2)
        (div-div-eq-div-mul x 2 (2 ^ k) ∙ ap (λ (t : ℕ). x / t) (sym (pow-succ' 2 k)))

-- A word of `w` bits with every digit 0 is 0.
pub zero_of_bits : (w x : ℕ) → x < 2 ^ w → ((k : ℕ) → k < w → bit x k ≡ 0) → x ≡ 0
zero_of_bits zero x h none_set = omega arith
zero_of_bits (suc w) x h none_set =
    let half : x / 2 ≡ 0 =
      zero_of_bits w (x / 2) (omega (arith, pow-suc 2 w)) (λ k p. none_set (suc k) (omega arith)) in
    omega (arith, none_set 0 (omega arith))

-- The operations keep a word within its width.
pub bit_or-lt : (w a b : ℕ) → a < 2 ^ w → b < 2 ^ w → bit_or a b < 2 ^ w
bit_or-lt zero a b p q = omega (arith, bit_or_zeros a b (omega arith) (omega arith))
  where
    bit_or_zeros : (a b : ℕ) → a ≡ 0 → b ≡ 0 → bit_or a b ≡ 0
    bit_or_zeros a b p q = rw (p, q) (bit_or-bitwise 0 0)
bit_or-lt (suc w) a b p q = omega (
  arith,
  bit_or-halves a b,
  pow-suc 2 w,
  bit_or-lt w (a / 2) (b / 2) (omega (arith, pow-suc 2 w)) (omega (arith, pow-suc 2 w)),
)

-- The digits of a mask of `n` ones.
pub bit_mask_in : (n k : ℕ) → k < n → bit (2 ^ n - 1) k ≡ 1
bit_mask_in zero k h = absurd (omega arith)
bit_mask_in (suc n) zero h = omega (arith, pow-suc 2 n, one-le-pow n 2)
bit_mask_in (suc n) (suc k) h =
    ap (λ (t : ℕ). bit t k) (omega (arith, pow-suc 2 n, one-le-pow n 2))
    ∙ bit_mask_in n k (omega arith)

bit_or-zero_fuel : (n a : ℕ) → a ≤ n → bit_or a 0 ≡ a
bit_or-zero_fuel n zero h = bit_or-bitwise 0 0
bit_or-zero_fuel zero (suc a) h = absurd (omega arith)
bit_or-zero_fuel (suc n) (suc a) h =
    omega (arith, bit_or-halves (suc a) 0, bit_or-zero_fuel n (suc a / 2) (omega arith))

bit_or-zero : (a : ℕ) → bit_or a 0 ≡ a
bit_or-zero a = bit_or-zero_fuel a a (omega arith)

-- Disjoint fields: `(q << k) | r` is a sum when `r` fits in `k` digits.
pub bit_or_disjoint : (k q r : ℕ) → r < 2 ^ k → bit_or (q * 2 ^ k) r ≡ q * 2 ^ k + r
bit_or_disjoint zero q r h = rw (zero_of_lt_one h) (bit_or-zero (q * 1) ∙ omega arith)
  where
    zero_of_lt_one : r < 1 → r ≡ 0
    zero_of_lt_one p = omega arith
bit_or_disjoint (suc k) q r h = ground (
  arith,
  bit_or-halves (q * 2 ^ suc k) r,
  pow-suc 2 k,
  ap (λ (t : ℕ). q * t) (pow-suc 2 k),
  bit_or_disjoint k q (r / 2) (omega (arith, pow-suc 2 k)),
)

-- A word of `w` bits has no digit from `w` on.
pub bit_high : (w x k : ℕ) → x < 2 ^ w → w ≤ k → bit x k ≡ 0
bit_high zero x k h p = ap (λ (t : ℕ). bit t k) (omega arith) ∙ bit-zero k
bit_high (suc w) x zero h p = absurd (omega arith)
bit_high (suc w) x (suc k) h p = bit_high w (x / 2) k (omega (arith, pow-suc 2 w)) (omega arith)
