-- ===== src/Core/Display/Encoder/Frame.antt =====
-- The bytes of a transfer, run by run.
use openmk.Prelude.{
  ℕ, zero, suc, ◌+◌, ◌-◌, ◌*◌, ◌/◌, ◌%◌, ◌^◌, ◌≤◌, ◌<◌, ◌≡◌, ◌∙◌, refl, ap, min, true, inl, inr,
  List, [], ◌∷◌, ◌++◌, append-nil, append_assoc, length, length-replicate, get_or, drop, replicate,
  ok, on_rest-append, if◌then◌else◌, Bool-cases, Outcome, ◌==◌, arith,
}
use openmk.Proto.Types.{DisplayId, width, height}
use openmk.Proto.Display.{Rect, pack_rgb565_be, encode_header}
use openmk.Proto.Writer.{on_tail-Writes}
use openmk.Proto.Display.{encode_flush_cmd, encode_end_cmd}
use openmk.Proto.Display.Commands.{
  header_bytes, repeat_bytes, blit_bytes, flush_bytes, end_bytes, encode_header_enough,
  encode_repeat_cmd-Writes, encode_blit_cmd-Writes, encode_flush_cmd-Writes, encode_end_cmd-Writes,
}
use openmk.Proto.Display.Frames.{high, low, be_bytes, pack_rgb565_be_lem}
use openmk.Core.Display.Dirty.{DirtyTracker_new, clear, runs}
use openmk.Core.Display.Dirty.Apart.{AreApart, runs-AreApart}
use openmk.Core.Display.Framebuffer.{Framebuffer}
use openmk.Core.Display.Encoder.{
  is_solid, encode_solid_run, encode_blit_run, encode_run, encode_runs, encode_frame,
}
use openmk.Core.Display.Encoder.Area.{
  area, gather-area, length-area_even, length-area_lt, length-area_pos,
}

-- What follows the header of a rectangle: one repeat if all pixels are equal, else a blit and the
-- pixels.
abbrev pub payload : List ℕ → List ℕ
payload native =
    let p = get_or native 0 0 in
    if is_solid native
    then repeat_bytes (length native / 2) (high p) (low p) (high p) (low p)
    else blit_bytes (length native / 2) ++ be_bytes native

abbrev pub run_bytes : DisplayId → List ℕ → ℕ × ℕ × ℕ → List ℕ
run_bytes id pixels (row, c0, c1) =
    let x = c0 * 16 in
    let y = row * 16 in
    let w = (c1 + 1 - c0) * 16 in
    header_bytes id (record { x = x; y = y; w = w; h = 16 }) ++ payload (area pixels y 16 x w)

abbrev pub runs_bytes : DisplayId → List ℕ → List (ℕ × ℕ × ℕ) → List ℕ
runs_bytes id pixels [] = []
runs_bytes id pixels (run ∷ later) = run_bytes id pixels run ++ runs_bytes id pixels later

length-be_bytes : (ws : List ℕ) → length (be_bytes ws) ≡ length ws * 2
length-be_bytes [] = refl
length-be_bytes (w ∷ ws) = omega (arith, length-be_bytes ws)

drop-replicate : (m n : ℕ) → n ≡ m → drop {A = ℕ} n (replicate m 0) ≡ []
drop-replicate zero zero e = refl
drop-replicate zero (suc n) e = refl
drop-replicate (suc m) zero e = absurd (omega arith)
drop-replicate (suc m) (suc n) e = drop-replicate m n (omega arith)

packed :
    (native : List ℕ)
    → pack_rgb565_be native (replicate (length native * 2) 0) ≡ ok (be_bytes native)
packed native =
    pack_rgb565_be_lem native (replicate (length native * 2) 0)
      (omega (arith, length-be_bytes native, length-replicate {A = ℕ} (length native * 2) 0))
    ∙ rw (
      drop-replicate (length native * 2) (length (be_bytes native)) (length-be_bytes native),
      append-nil,
    )

encode_solid_run_lem :
    (p : ℕ) (native out : List ℕ)
    → length (p ∷ native) < 2 ^ 32
    → encode_solid_run (p ∷ native) out
      ≡ ok (out ++ repeat_bytes (length (p ∷ native) / 2) (high p) (low p) (high p) (low p))
unfolding encode_solid_run
encode_solid_run_lem p native out h = rw (
  small,
  encode_repeat_cmd-Writes (length (p ∷ native) / 2) (high p) (low p) (high p) (low p)
      (replicate 8 0),
)
  where
    small : length (p ∷ native) / 2 % 2 ^ 32 ≡ length (p ∷ native) / 2
    small = omega arith

encode_blit_run_lem :
    (native out : List ℕ)
    → length native < 2 ^ 32
    → length native % 4 ≡ 0
    → encode_blit_run native out ≡ ok (out ++ (blit_bytes (length native / 2) ++ be_bytes native))
unfolding encode_blit_run
encode_blit_run_lem native out h e = rw (
  small,
  encode_blit_cmd-Writes (length native / 2) (replicate 8 0),
  on_rest-append (pack_rgb565_be native) (out ++ blit_bytes (length native / 2))
      (replicate (length native * 2) 0),
  packed native,
  framed,
  append_assoc out (blit_bytes (length native / 2)) (be_bytes native),
)
  where
    small : length native / 2 % 2 ^ 32 ≡ length native / 2
    small = omega arith

    framed : (length native * 2 % 8 == 0) ≡ true
    framed = ground arith

-- The branch on `is_solid`.
payload_lem :
    (native out : List ℕ)
    → 0 < length native
    → length native < 2 ^ 32
    → length native % 4 ≡ 0
    → (if is_solid native then encode_solid_run native out else encode_blit_run native out)
      ≡ ok (out ++ payload native)
payload_lem [] out some_pixel h e = absurd (omega arith)
payload_lem (p ∷ native) out some_pixel h e = elim (Bool-cases (is_solid (p ∷ native))) [
  | inl solid ↦ rw solid (encode_solid_run_lem p native out h)
  | inr mixed ↦ rw mixed (encode_blit_run_lem (p ∷ native) out h e)
]

encode_run_lem :
    (id : DisplayId) (fb : Framebuffer) (x y w : ℕ) (out : List ℕ)
    → length fb.pixels ≡ width * height
    → 0 < w
    → w % 4 ≡ 0
    → x + w ≤ width
    → y + 16 ≤ height
    → encode_run id fb x y w 16 out
      ≡ ok (
          out
          ++ (header_bytes id (record { x = x; y = y; w = w; h = 16 })
              ++ payload (area fb.pixels y 16 x w)))
unfolding encode_run
encode_run_lem id fb x y w out v some_pixel even p q =
    rw
      (
        word x (omega arith),
        word y (omega arith),
        word w (omega arith),
        on_rest-append (encode_header id rect) out (replicate 32 0),
        encode_header_enough id rect (replicate 32 0) (omega arith),
        gather-area fb.pixels y 16 x w v p q,
      )
      (payload_lem native (out ++ header_bytes id rect)
          (length-area_pos fb.pixels y 15 x w some_pixel)
          (length-area_lt fb.pixels y 16 x w (omega arith) (omega arith))
          (length-area_even fb.pixels y 16 x w even)
        ∙ ap {B = Outcome ⊥ (List ℕ)} (λ (bs : List ℕ). ok bs)
            (append_assoc out (header_bytes id rect) (payload native)))
  where
    word : (n : ℕ) → n < 2 ^ 16 → n % 2 ^ 16 ≡ n
    word n h = omega arith

    rect : Rect
    rect = record { x = x; y = y; w = w; h = 16 }

    native : List ℕ
    native = area fb.pixels y 16 x w

encode_runs_lem :
    (id : DisplayId) (fb : Framebuffer) (rs : List (ℕ × ℕ × ℕ)) (row lo : ℕ) (out : List ℕ)
    → length fb.pixels ≡ width * height
    → AreApart row lo rs
    → encode_runs id fb rs out ≡ ok (out ++ runs_bytes id fb.pixels rs)
unfolding encode_runs
encode_runs_lem id fb [] row lo out v h = rw append-nil
encode_runs_lem id fb ((r, a, b) ∷ later) row lo out v (first, in_rows, ordered, in_cols, rest) =
    rw (
      tall,
      wide,
      encode_run_lem id fb (a * 16) (r * 16) ((b + 1 - a) * 16) out v (omega arith) (omega arith)
          (omega arith) (omega arith),
      encode_runs_lem id fb later r (b + 2) (out ++ run_bytes id fb.pixels (r, a, b)) v rest,
      append_assoc out (run_bytes id fb.pixels (r, a, b)) (runs_bytes id fb.pixels later),
    )
  where
    tall : min 16 (272 - r * 16) ≡ 16
    tall = omega arith

    wide : min ((b - a + 1) * 16) (480 - a * 16) ≡ (b + 1 - a) * 16
    wide = omega arith

-- On a framebuffer with a pixel for each place of the screen, encoding a frame does not panic. It
-- sends, for each run of dirty tiles in order, the header of the run's rectangle of 16 rows and then
-- either one repeat of the pixel that all of the rectangle has, for half as many pairs, or a blit of
-- as many pairs and the pixels row by row, high byte first; then the flush and the end command. It
-- changes no pixel and clears the tracker.
pub encode_frame_lem :
    (id : DisplayId) (fb : Framebuffer)
    → length fb.pixels ≡ width * height
    → encode_frame id fb
      ≡ ok (
        runs_bytes id fb.pixels (runs fb.dirty) ++ (flush_bytes ++ end_bytes),
        record fb { dirty = DirtyTracker_new },
      )
unfolding encode_frame clear
encode_frame_lem id fb v = rw (
  encode_runs_lem id fb (runs fb.dirty) 0 0 [] v (runs-AreApart fb.dirty),
  on_tail-Writes flush_bytes [] (replicate 16 0) encode_flush_cmd 0
      (encode_flush_cmd-Writes (replicate 16 0)) refl (omega arith),
  on_tail-Writes end_bytes flush_bytes (replicate 8 0) encode_end_cmd 8
      (encode_end_cmd-Writes (replicate 8 0)) refl (omega arith),
)
