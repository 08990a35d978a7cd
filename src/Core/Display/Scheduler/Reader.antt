-- ===== src/Core/Display/Scheduler/Reader.antt =====
-- A reading of transfers, independent of the encoder: what a display shows after the bytes of one.
use openmk.Prelude.{
  ℕ, zero, suc, ◌+◌, ◌-◌, ◌*◌, ◌/◌, ◌%◌, ◌^◌, ◌<◌, ◌≡◌, refl, ap, sym, true, List, [], ◌∷◌, ◌++◌,
  length, get_or, replicate, drop, ◌==◌, if◌then◌else◌, arith,
}
use openmk.Proto.Display.Frames.{high, low, be_bytes}
use openmk.Proto.Display.Commands.{repeat_bytes, blit_bytes}
use openmk.Core.Display.Framebuffer.Pixels.{in_rect}
use openmk.Core.Display.Encoder.{all_are, is_solid}

-- The pixel at column `i` and row `j`.
abbrev pub Screen : Type 0
Screen = ℕ → ℕ → ℕ

-- Two bytes from place `k` on, the higher first.
abbrev pub word_at : List ℕ → ℕ → ℕ
word_at bytes k = get_or bytes k 0 * 256 + get_or bytes (k + 1) 0

-- `n` pairs of pixels.
abbrev pub pairs : ℕ → ℕ → ℕ → List ℕ
pairs zero p q = []
pairs (suc n) p q = p ∷ (q ∷ pairs n p q)

-- The first `n` words.
abbrev pub words : ℕ → List ℕ → List ℕ
words zero bytes = []
words (suc n) bytes = word_at bytes 0 ∷ words n (drop 2 bytes)

-- The pair count of a command.
abbrev pub pair_count : List ℕ → ℕ
pair_count cmd = get_or cmd 1 0 * 65536 + get_or cmd 2 0 * 256 + get_or cmd 3 0

-- The pixels that a command and what follows it give: a repeated pair, or the words that follow.
unfoldable pub command_pixels : List ℕ → List ℕ
command_pixels cmd =
    if get_or cmd 0 0 == 1
    then pairs (pair_count cmd) (word_at cmd 4) (word_at cmd 6)
    else words (pair_count cmd * 2) (drop 8 cmd)

unfoldable pub after_command : List ℕ → List ℕ
after_command cmd =
    if get_or cmd 0 0 == 1 then drop 8 cmd else drop (pair_count cmd * 4) (drop 8 cmd)

-- Pixels fill a rectangle row by row.
abbrev pub paint : ℕ → ℕ → ℕ → ℕ → List ℕ → Screen → Screen
paint x y w h pixels s i j =
    if in_rect x y w h i j then get_or pixels ((j - y) * w + (i - x)) 0 else s i j

-- A header has a rectangle, and one command follows it; anything else ends the drawing.
unfoldable pub show_transfer : ℕ → List ℕ → Screen → Screen
show_transfer zero bytes s = s
show_transfer (suc fuel) bytes s =
    let cmd = drop 32 bytes in
    let rest = show_transfer fuel (after_command cmd) (
      paint (word_at bytes 16) (word_at bytes 18) (word_at bytes 20) (word_at bytes 22)
        (command_pixels cmd) s) in
    if get_or bytes 0 0 == 0x84 then rest else s

abbrev pub AreWords : List ℕ → Type 0
AreWords ws = (k : ℕ) → get_or ws k 0 < 65536

pub zeros-AreWords : (n : ℕ) → AreWords (replicate n 0)
zeros-AreWords zero k = omega arith
zeros-AreWords (suc n) zero = omega arith
zeros-AreWords (suc n) (suc k) = zeros-AreWords n k

pub whole : (w : ℕ) → w < 65536 → high w * 256 + low w ≡ w
whole w h = omega arith

pub words-be_bytes : (ws rest : List ℕ) → AreWords ws → words (length ws) (be_bytes ws ++ rest) ≡ ws
words-be_bytes [] rest v = refl
words-be_bytes (w ∷ ws) rest v = rw (whole w (v 0), words-be_bytes ws rest (λ k. v (suc k))) refl

pub drop-be_bytes :
    (ws rest : List ℕ) (n : ℕ) → n ≡ length ws * 2 → drop n (be_bytes ws ++ rest) ≡ rest
drop-be_bytes [] rest n e = let e' : n ≡ 0 = omega arith in ap (λ k. drop k rest) e'
drop-be_bytes (w ∷ ws) rest n e =
    let e' : n ≡ suc (suc (length ws * 2)) = omega arith in
    rw e' (drop-be_bytes ws rest (length ws * 2) refl)

-- A list of one value throughout is pairs of it.
all_pairs :
    (n p : ℕ) (ws : List ℕ)
    → ((k : ℕ) → k < length ws → get_or ws k 0 ≡ p)
    → length ws ≡ n * 2
    → pairs n p p ≡ ws
all_pairs zero p [] h e = refl
all_pairs zero p (v ∷ ws) h e = absurd (omega arith)
all_pairs (suc n) p [] h e = absurd (omega arith)
all_pairs (suc n) p (v ∷ []) h e = absurd (omega arith)
all_pairs (suc n) p (v ∷ (w ∷ ws)) h e =
    let e' : length ws ≡ n * 2 = omega arith in
    let first : v ≡ p = h 0 (omega arith) in
    let second : w ≡ p = h 1 (omega arith) in
    rw (first, second, all_pairs n p ws (λ k q. h (suc (suc k)) (omega arith)) e') refl

count_lem : (n : ℕ) → n < 2 ^ 24 → n / 65536 % 256 * 65536 + n / 256 % 256 * 256 + n % 256 ≡ n
count_lem n h = omega arith

all_are-get_or :
    (p : ℕ) (ws : List ℕ) → all_are p ws ≡ true → (k : ℕ) → k < length ws → get_or ws k 0 ≡ p
all_are-get_or p [] h k q = absurd (omega arith)
all_are-get_or p (w ∷ ws) h zero q = ground arith
all_are-get_or p (w ∷ ws) h (suc k) q = all_are-get_or p ws (ground arith) k (omega arith)

solid-get_or :
    (ws : List ℕ) → is_solid ws ≡ true → (k : ℕ) → k < length ws → get_or ws k 0 ≡ get_or ws 0 0
unfolding is_solid
solid-get_or [] h k q = absurd (omega arith)
solid-get_or (w ∷ ws) h k q = all_are-get_or w (w ∷ ws) h k q

-- What the encoder writes for the pixels of a run is read back as those pixels.
abbrev pub Reads : List ℕ → List ℕ → List ℕ → Type 0
Reads cmd native rest = (command_pixels cmd ≡ native) × (after_command cmd ≡ rest)

pub repeat-Reads :
    (native rest : List ℕ) (n : ℕ)
    → AreWords native
    → length native ≡ n * 2
    → n < 2 ^ 24
    → is_solid native ≡ true
    → let p = get_or native 0 0 in
      Reads (repeat_bytes n (high p) (low p) (high p) (low p) ++ rest) native rest
unfolding command_pixels after_command
repeat-Reads native rest n v e h solid =
    let p : ℕ = get_or native 0 0 in
    (rw (count_lem n h, whole p (v 0)) (all_pairs n p native (solid-get_or native solid) e), refl)

pub blit-Reads :
    (native rest : List ℕ) (n : ℕ)
    → AreWords native
    → length native ≡ n * 2
    → n < 2 ^ 24
    → Reads (blit_bytes n ++ (be_bytes native ++ rest)) native rest
unfolding command_pixels after_command
blit-Reads native rest n v e h = (
  rw (count_lem n h) (rw (sym e) (words-be_bytes native rest v)),
  rw (count_lem n h) (drop-be_bytes native rest (n * 4) (omega arith)),
)
