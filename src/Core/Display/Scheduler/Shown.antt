-- ===== src/Core/Display/Scheduler/Shown.antt =====
-- After a flush the display shows the framebuffer.
use openmk.Prelude.{
  ℕ, ok, zero, suc, ◌+◌, ◌-◌, ◌*◌, ◌/◌, ◌^◌, ◌≤◌, ◌<◌, ◌≡◌, ◌∙◌, refl, ap, sym, subst, inl, inr,
  Bool, true, false, ◌&&◌, ◌||◌, List, [], ◌∷◌, ◌++◌, append_assoc, length, length-append, get_or,
  leb, ◌==◌, if◌then◌else◌, Bool-cases, arith,
}
use openmk.Proto.Types.{DisplayId, width, height}
use openmk.Proto.Display.Frames.{high, low, be_bytes}
use openmk.Proto.Display.Commands.{header_bytes, blit_bytes, flush_bytes, end_bytes}
use openmk.Core.Display.Dirty.{DirtyTracker_new, is_tile_dirty, runs, rows, cols}
use openmk.Core.Display.Dirty.Runs.{covered, covered-runs}
use openmk.Core.Display.Dirty.Apart.{AreApart, runs-AreApart}
use openmk.Core.Display.Framebuffer.{Framebuffer}
use openmk.Core.Display.Framebuffer.Pixels.{in_rect, pixel_at}
use openmk.Core.Display.Encoder.{is_solid, encode_frame}
use openmk.Core.Display.Encoder.Area.{area}
use openmk.Core.Display.Encoder.Frame.{encode_frame_lem, payload, run_bytes, runs_bytes}
use openmk.Core.Display.Scheduler.{DisplayHandle}
use openmk.Core.Display.Scheduler.Flushes.{transfer}
use openmk.Core.Display.Scheduler.Places.{get_or-area, length-area_eq, AreWords-area}
use openmk.Core.Display.Scheduler.Reader.{
  Screen, AreWords, Reads, repeat-Reads, blit-Reads, whole, command_pixels, after_command, paint,
  show_transfer,
}

payload-Reads :
    (native rest : List ℕ) (n : ℕ)
    → AreWords native
    → length native ≡ n * 2
    → n < 2 ^ 24
    → Reads (payload native ++ rest) native rest
payload-Reads native rest n v e h =
    let half : length native / 2 ≡ n = omega arith in
    elim (Bool-cases (is_solid native)) [
      | inl solid ↦ rw (solid, half) (repeat-Reads native rest n v e h solid)
      | inr mixed ↦
          rw (mixed, half)
            (subst (λ cmd. Reads cmd native rest)
              (sym (append_assoc (blit_bytes n) (be_bytes native) rest))
              (blit-Reads native rest n v e h))
    ]

-- The pixels of a framebuffer on the screen, by place.
abbrev place : List ℕ → Screen
place px i j = get_or px (j * width + i) 0

-- A rectangle, read back.
rect_paints :
    (id : DisplayId) (x y w : ℕ) (native pl rest : List ℕ) (fuel : ℕ) (s : Screen)
    → x < 65536
    → y < 65536
    → w < 65536
    → Reads (pl ++ rest) native rest
    → show_transfer
        (suc fuel)
        ((header_bytes id (record { x = x; y = y; w = w; h = 16 }) ++ pl) ++ rest)
        s
      ≡ show_transfer fuel rest (paint x y w 16 native s)
unfolding show_transfer
rect_paints id x y w native pl rest fuel s h k l (pixels, left_over) =
    ap
      (λ p.
        show_transfer fuel (after_command (pl ++ rest)) (
          paint p (high y * 256 + low y) (high w * 256 + low w) 16 (command_pixels (pl ++ rest)) s))
      (whole x h)
    ∙ ap
        (λ p.
          show_transfer fuel (after_command (pl ++ rest))
            (paint x p (high w * 256 + low w) 16 (command_pixels (pl ++ rest)) s))
        (whole y k)
    ∙ ap
        (λ p.
          show_transfer fuel (after_command (pl ++ rest))
            (paint x y p 16 (command_pixels (pl ++ rest)) s))
        (whole w l)
    ∙ ap (λ ps. show_transfer fuel (after_command (pl ++ rest)) (paint x y w 16 ps s)) pixels
    ∙ ap (λ bs. show_transfer fuel bs (paint x y w 16 native s)) left_over

-- The rectangle of a run, read back.
run_paints :
    (id : DisplayId) (px rest : List ℕ) (r a b fuel : ℕ) (s : Screen)
    → AreWords px
    → r < rows
    → a ≤ b
    → b < cols
    → show_transfer (suc fuel) (run_bytes id px (r, a, b) ++ rest) s
      ≡ show_transfer fuel rest (
          paint
            (a * 16)
            (r * 16)
            ((b + 1 - a) * 16)
            16
            (area px (r * 16) 16 (a * 16) ((b + 1 - a) * 16))
            s)
run_paints id px rest r a b fuel s v h k l =
    rect_paints id (a * 16) (r * 16) ((b + 1 - a) * 16)
      (area px (r * 16) 16 (a * 16) ((b + 1 - a) * 16))
      (payload (area px (r * 16) 16 (a * 16) ((b + 1 - a) * 16))) rest fuel s (omega arith)
      (omega arith) (omega arith)
      (payload-Reads (area px (r * 16) 16 (a * 16) ((b + 1 - a) * 16)) rest (8 * ((b + 1 - a) * 16))
        (AreWords-area px (r * 16) 16 (a * 16) ((b + 1 - a) * 16) v)
        (length-area_eq px (r * 16) 16 (a * 16) ((b + 1 - a) * 16) ∙ omega arith) (omega arith))

-- A painted rectangle shows the pixels of the framebuffer.
paint-area :
    (px : List ℕ) (r a b i j : ℕ) (s : Screen)
    → a ≤ b
    → paint
        (a * 16)
        (r * 16)
        ((b + 1 - a) * 16)
        16
        (area px (r * 16) 16 (a * 16) ((b + 1 - a) * 16))
        s
        i
        j
      ≡ (if (r == j / 16) && leb a (i / 16) && leb (i / 16) b then place px i j else s i j)
paint-area px r a b i j s h =
    elim (Bool-cases (in_rect (a * 16) (r * 16) ((b + 1 - a) * 16) 16 i j)) [
      | inl within ↦
          let tile : ((r == j / 16) && leb a (i / 16) && leb (i / 16) b) ≡ true = ground arith in
          rw (within, tile)
            (get_or-area px (r * 16) 16 (a * 16) ((b + 1 - a) * 16) (j - r * 16) (i - a * 16)
                (ground arith) (ground arith)
              ∙ ap (λ n. get_or px n 0) (ground arith))
      | inr outside ↦
          let tile : ((r == j / 16) && leb a (i / 16) && leb (i / 16) b) ≡ false = ground arith in
          rw (outside, tile) refl
    ]

ended : (fuel : ℕ) (s : Screen) → show_transfer fuel (flush_bytes ++ end_bytes) s ≡ s
unfolding show_transfer
ended zero s = refl
ended (suc fuel) s = refl

either :
    (c d : Bool) (a p : ℕ) → (if d then a else (if c then a else p)) ≡ (if c || d then a else p)
either true true a p = refl
either true false a p = refl
either false true a p = refl
either false false a p = refl

runs_paint :
    (id : DisplayId) (px : List ℕ) (row lo : ℕ) (rs : List (ℕ × ℕ × ℕ)) (fuel i j : ℕ) (s : Screen)
    → AreWords px
    → AreApart row lo rs
    → length rs ≤ fuel
    → show_transfer fuel (runs_bytes id px rs ++ (flush_bytes ++ end_bytes)) s i j
      ≡ (if covered rs (i / 16) (j / 16) then place px i j else s i j)
runs_paint id px row lo [] fuel i j s v h e = ap (λ t. t i j) (ended fuel s)
runs_paint id px row lo (run ∷ rs) zero i j s v h e = absurd (omega arith)
runs_paint id px row lo ((r, a, b) ∷ rs) (suc fuel) i j s v h e =
    ap (λ bs. show_transfer (suc fuel) bs s i j)
      (append_assoc (run_bytes id px (r, a, b)) (runs_bytes id px rs) (flush_bytes ++ end_bytes))
    ∙ ap (λ t. t i j)
        (run_paints id px (runs_bytes id px rs ++ (flush_bytes ++ end_bytes)) r a b fuel s v h.1 h.2
          h.3)
    ∙ runs_paint id px r (b + 2) rs fuel i j
        (paint (a * 16) (r * 16) ((b + 1 - a) * 16) 16
          (area px (r * 16) 16 (a * 16) ((b + 1 - a) * 16)) s)
        v h.4 (omega arith)
    ∙ ap (λ p. if covered rs (i / 16) (j / 16) then place px i j else p)
        (paint-area px r a b i j s h.2)
    ∙ either _ (covered rs (i / 16) (j / 16)) (place px i j) (s i j)

length-header_bytes :
    (id : DisplayId) (x y w : ℕ) (pl later tail : List ℕ) (n : ℕ)
    → n ≤ length (later ++ tail)
    → suc n
      ≤ length (((header_bytes id (record { x = x; y = y; w = w; h = 16 }) ++ pl) ++ later) ++ tail)
length-header_bytes id x y w pl later tail n h =
    let a = length-append (pl ++ later) tail in
    let b = length-append pl later in let c = length-append later tail in omega arith

length-runs_bytes :
    (id : DisplayId) (px : List ℕ) (rs : List (ℕ × ℕ × ℕ)) (tail : List ℕ)
    → length rs ≤ length (runs_bytes id px rs ++ tail)
length-runs_bytes id px [] tail = omega arith
length-runs_bytes id px ((r, a, b) ∷ rs) tail =
    length-header_bytes id (a * 16) (r * 16) ((b + 1 - a) * 16)
      (payload (area px (r * 16) 16 (a * 16) ((b + 1 - a) * 16))) (runs_bytes id px rs) tail
      (length rs) (length-runs_bytes id px rs tail)

-- What a display that showed `s` shows after a transfer.
unfoldable pub shown : List ℕ → Screen → Screen
shown bytes s = show_transfer (length bytes) bytes s

-- A display that reads the bytes of a flush shows the framebuffer's pixels in the dirty tiles.
pub shown-transfer :
    (h : DisplayHandle) (s : Screen) (i j : ℕ)
    → AreWords h.fb.pixels
    → shown (transfer h) s i j
      ≡ (if is_tile_dirty h.fb.dirty (i / 16) (j / 16) then pixel_at h.fb i j else s i j)
unfolding shown
shown-transfer h s i j v =
    runs_paint h.id h.fb.pixels 0 0 (runs h.fb.dirty) (length (transfer h)) i j s v
      (runs-AreApart h.fb.dirty)
      (length-runs_bytes h.id h.fb.pixels (runs h.fb.dirty) (flush_bytes ++ end_bytes))
    ∙ ap (λ (c : Bool). if c then pixel_at h.fb i j else s i j)
        (covered-runs h.fb.dirty (i / 16) (j / 16))

-- Encoding a frame does not panic, and a display that reads the bytes as they are laid out (a header has
-- a rectangle, a command a repeated pair or the words that follow it) shows afterwards the framebuffer's
-- pixels in the tiles that were dirty, and what it showed before elsewhere; the pixels stay and no tile
-- is dirty. Conditions: the framebuffer has a pixel for each place of the screen, and pixels have 16 bits.
pub shown-encode_frame :
    (id : DisplayId) (fb : Framebuffer) (s : Screen)
    → length fb.pixels ≡ width * height
    → AreWords fb.pixels
    → (bytes : List ℕ) × (encode_frame id fb ≡ ok (bytes, record fb { dirty = DirtyTracker_new }))
      × ((i j : ℕ)
          → shown bytes s i j
            ≡ (if is_tile_dirty fb.dirty (i / 16) (j / 16) then pixel_at fb i j else s i j))
shown-encode_frame id fb s sized v = (
  transfer (record { id = id; fb = fb; notify = false }),
  encode_frame_lem id fb sized,
  λ i j. shown-transfer (record { id = id; fb = fb; notify = false }) s i j v,
)
