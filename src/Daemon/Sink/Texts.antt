-- ===== src/Daemon/Sink/Texts.antt =====
-- The pixels of a text.
use openmk.Prelude.{
  ℕ, zero, suc, ◌+◌, ◌-◌, ◌*◌, ◌/◌, ◌%◌, ◌<◌, ◌≡◌, ◌∙◌, refl, inl, inr, Bool, true, false, ◌&&◌,
  ◌||◌, ◌≤◌, List, [], ◌∷◌, length, get_or, ltb, leb, ◌==◌, if◌then◌else◌, Bool-cases, ltb→le, shr,
  as_u8, as_u16, arith,
}
use openmk.Proto.Types.{Rgb, to_rgb565, width, height}
use openmk.Core.Display.Framebuffer.{Framebuffer, set_pixel}
use openmk.Core.Display.Framebuffer.Pixels.{pixel_at, pixel_at-set_pixel}
use openmk.Ui.Font.{char_h, missing, font, glyph}
use openmk.Ui.Render.{draw_column, draw_glyph, draw_text}
use openmk.Daemon.Sink.{fb_sink}
use openmk.Daemon.Sink.Rectangles.{AreSized, set_pixel-AreSized}

-- Row `r` of a column of a glyph is set.
abbrev pub ink : ℕ → ℕ → Bool
ink bits r = shr bits r % 2 == 1

-- Place (i, j) is in the `n` columns from `x` on and the `m` rows from `y` on.
abbrev inside : ℕ → ℕ → ℕ → ℕ → ℕ → ℕ → Bool
inside x n y m i j = leb x i && ltb i (x + n) && leb y j && ltb j (y + m)

column_step :
    (a p x y row n i j bits : ℕ)
    → (if (x == i) && leb (y + (row + 1)) j && ltb j (y + (row + 1) + n) && ink bits (j - y)
        then a
        else (if ink bits row then (if (x == i) && (y + row == j) then a else p) else p))
      ≡ (if (x == i) && leb (y + row) j && ltb j (y + row + suc n) && ink bits (j - y)
          then a
          else p)
column_step a p x y row n i j bits = elim (Bool-cases (y + row == j)) [
  | inl here ↦ let e : j - y ≡ row = ground arith in rw e (ground arith)
  | inr other ↦ rw other (ground arith)
]

pixel_at-if :
    (b : Bool) (fb : Framebuffer) (x y : ℕ) (c : Rgb) (i j : ℕ)
    → AreSized fb
    → i < width
    → j < height
    → pixel_at (if b then set_pixel fb x y c else fb) i j ≡ (
        if b
        then (if (x == i) && (y == j) then to_rgb565 c else pixel_at fb i j)
        else pixel_at fb i j)
pixel_at-if true fb x y c i j v p q = pixel_at-set_pixel fb x y c i j v.0 p q
pixel_at-if false fb x y c i j v p q = refl

if-AreSized :
    (b : Bool) (fb : Framebuffer) (x y : ℕ) (c : Rgb)
    → AreSized fb
    → AreSized (if b then set_pixel fb x y c else fb)
if-AreSized true fb x y c v = set_pixel-AreSized fb x y c v
if-AreSized false fb x y c v = v

u16_id : (x : ℕ) → x < 65536 → as_u16 x ≡ x
u16_id x h = ground arith

-- A drawing that paints the places that a test holds at, and no others.
pub record Paints (test : ℕ → ℕ → Bool) (c : Rgb) (fb fb' : Framebuffer) : Type 0 where
  pub sized : AreSized fb'
  pub paints :
      (i j : ℕ)
      → i < width
      → j < height
      → pixel_at fb' i j ≡ (if test i j then to_rgb565 c else pixel_at fb i j)

draw_column-Paints :
    (fb : Framebuffer) (x y bits row n : ℕ) (c : Rgb)
    → AreSized fb
    → y + row + n < 65536
    → Paints
        (λ i j. (x == i) && leb (y + row) j && ltb j (y + row + n) && ink bits (j - y))
        c
        fb
        (draw_column fb_sink fb x y bits row n c)
unfolding draw_column fb_sink
draw_column-Paints fb x y bits row zero c v h = record {
  sized = v;
  paints = λ i j p q. ground arith;
}
draw_column-Paints fb x y bits row (suc n) c v h =
    let e : as_u16 (y + row) ≡ y + row = u16_id (y + row) (omega arith) in
    let later =
      draw_column-Paints (if ink bits row then set_pixel fb x (as_u16 (y + row)) c else fb) x y bits
        (row + 1) n c (if-AreSized (ink bits row) fb x (as_u16 (y + row)) c v) (omega arith) in
    record {
      sized = later.sized;
      paints = λ i j p q.
          later.paints i j p q
          ∙ rw (pixel_at-if (ink bits row) fb x (as_u16 (y + row)) c i j v p q)
              (rw e (column_step (to_rgb565 c) (pixel_at fb i j) x y row n i j bits));
    }

glyph_step :
    (a p x y col i j bits : ℕ) (g : List ℕ)
    → (if inside (x + (col + 1)) (length g) y 8 i j
          && ink (get_or g (i - (x + (col + 1))) 0) (j - y)
        then a
        else (if (x + col == i) && leb (y + 0) j && ltb j (y + 0 + 8) && ink bits (j - y)
            then a
            else p))
      ≡ (if inside (x + col) (suc (length g)) y 8 i j
            && ink (get_or (bits ∷ g) (i - (x + col)) 0) (j - y)
          then a
          else p)
glyph_step a p x y col i j bits g = elim (Bool-cases (x + col == i)) [
  | inl here ↦ let e : i - (x + col) ≡ 0 = ground arith in rw (e, here) (ground arith)
  | inr other ↦ elim (Bool-cases (ltb i (x + col))) [
    | inl before ↦ rw other (ground arith)
    | inr after ↦
        let e : i - (x + col) ≡ suc (i - (x + (col + 1))) = ground arith in
        rw (e, other) (ground arith)
  ]
]

draw_glyph-Paints :
    (fb : Framebuffer) (x y col : ℕ) (g : List ℕ) (c : Rgb)
    → AreSized fb
    → x + col + length g < 65536
    → y + 8 < 65536
    → Paints
        (λ i j. inside (x + col) (length g) y 8 i j && ink (get_or g (i - (x + col)) 0) (j - y))
        c
        fb
        (draw_glyph fb_sink fb x y col g c)
unfolding draw_glyph
draw_glyph-Paints fb x y col [] c v h k = record { sized = v; paints = λ i j p q. ground arith }
draw_glyph-Paints fb x y col (bits ∷ g) c v h k =
    let e : as_u16 (x + col) ≡ x + col = u16_id (x + col) (omega arith) in
    let first = draw_column-Paints fb (as_u16 (x + col)) y bits 0 char_h c v (omega arith) in
    let later =
      draw_glyph-Paints (draw_column fb_sink fb (as_u16 (x + col)) y bits 0 char_h c) x y (col + 1)
        g c first.sized (omega arith) k in
    record {
      sized = later.sized;
      paints = λ i j p q.
          later.paints i j p q
          ∙ rw (first.paints i j p q)
              (rw e (glyph_step (to_rgb565 c) (pixel_at fb i j) x y col i j bits g));
    }

-- Every glyph has six columns.
all_six : List (List ℕ) → Bool
all_six [] = true
all_six (g ∷ gs) = (length g == 6) && all_six gs

length-get_or : (gs : List (List ℕ)) (k : ℕ) → all_six gs ≡ true → length (get_or gs k missing) ≡ 6
unfolding all_six
length-get_or [] k h = refl
length-get_or (g ∷ gs) zero h = ground arith
length-get_or (g ∷ gs) (suc k) h = length-get_or gs k (ground arith)

font_six : all_six font ≡ true
unfolding all_six font
font_six = refl

if_six : (b : Bool) (g h : List ℕ) → length g ≡ 6 → length h ≡ 6 → length (if b then g else h) ≡ 6
if_six true g h p q = p
if_six false g h p q = q

pub length-glyph : (c : ℕ) → length (glyph c) ≡ 6
unfolding glyph
length-glyph c = if_six (leb 128 c) missing _ refl (
    if_six (ltb (as_u8 c) 0x20 || ltb 0x7e (as_u8 c)) missing (get_or font (as_u8 c - 0x20) missing)
      refl (length-get_or font (as_u8 c - 0x20) font_six))

-- The pixel that a text of whole characters of 6 by 8 pixels has at a place: `k` is the character
-- there, which is drawn only if it ends on the screen.
abbrev pub text_ink : ℕ → ℕ → List ℕ → ℕ → ℕ → Bool
text_ink x y text i j =
    let k = (i - x) / 6 in
    leb x i
    && ltb k (length text)
    && leb (x + 6 * k + 6) width
    && leb y j
    && ltb j (y + 8)
    && ink (get_or (glyph (get_or text k 0)) ((i - x) % 6) 0) (j - y)

text_here :
    (x y ch i j : ℕ) (text : List ℕ)
    → x + 6 ≤ width
    → i < x + 6
    → text_ink x y (ch ∷ text) i j
      ≡ (inside x 6 y 8 i j && ink (get_or (glyph ch) (i - x) 0) (j - y))
text_here x y ch i j text fits h =
    let k : (i - x) / 6 ≡ 0 = omega arith in
    let col : (i - x) % 6 ≡ i - x = omega arith in rw (k, col) (ground arith)

text_after :
    (x y ch i j : ℕ) (text : List ℕ)
    → x + 6 ≤ i
    → text_ink x y (ch ∷ text) i j ≡ text_ink (x + 6) y text i j
text_after x y ch i j text h =
    let k : (i - x) / 6 ≡ suc ((i - (x + 6)) / 6) = omega arith in
    let col : (i - x) % 6 ≡ (i - (x + 6)) % 6 = omega arith in rw (k, col) (ground arith)

text_before : (x y i j : ℕ) (text : List ℕ) → i < x → text_ink x y text i j ≡ false
text_before x y i j text h = ground arith

text_step :
    (a p x y ch i j : ℕ) (text : List ℕ)
    → x + 6 ≤ width
    → (if text_ink (x + 6) y text i j
        then a
        else (if inside x 6 y 8 i j && ink (get_or (glyph ch) (i - x) 0) (j - y) then a else p))
      ≡ (if text_ink x y (ch ∷ text) i j then a else p)
text_step a p x y ch i j text fits = elim (Bool-cases (ltb i (x + 6))) [
  | inl here ↦
      rw
        (
          text_here x y ch i j text fits (ground arith),
          text_before (x + 6) y i j text (ground arith),
        )
        refl
  | inr after ↦ rw (text_after x y ch i j text (ground arith)) (ground arith)
]

text_stop : (x y i j : ℕ) (text : List ℕ) → width < x + 6 → text_ink x y text i j ≡ false
text_stop x y i j text h = ground arith

plus_zero : (x : ℕ) → x + 0 ≡ x
plus_zero x = omega arith

char-Paints :
    (fb fb' : Framebuffer) (x y ch : ℕ) (text : List ℕ) (c : Rgb)
    → AreSized fb
    → x + 6 ≤ width
    → y + 8 < 65536
    → Paints (text_ink (x + 6) y text) c (draw_glyph fb_sink fb x y 0 (glyph ch) c) fb'
    → Paints (text_ink x y (ch ∷ text)) c fb fb'
char-Paints fb fb' x y ch text c v h k later =
    let first = draw_glyph-Paints fb x y 0 (glyph ch) c v (omega (arith, length-glyph ch)) k in
    record {
      sized = later.sized;
      paints = λ i j p q.
          later.paints i j p q
          ∙ rw (first.paints i j p q) (
              rw (length-glyph ch, plus_zero x)
                (text_step (to_rgb565 c) (pixel_at fb i j) x y ch i j text h));
    }

draw_text-Paints :
    (fb : Framebuffer) (x y : ℕ) (text : List ℕ) (c : Rgb)
    → AreSized fb
    → x + 6 < 65536
    → y + 8 < 65536
    → Paints (text_ink x y text) c fb (draw_text fb_sink fb x y text c).1
unfolding draw_text fb_sink
draw_text-Paints fb x y [] c v h k = record { sized = v; paints = λ i j p q. ground arith }
draw_text-Paints fb x y (ch ∷ text) c v h k =
    rw (u16_id (x + 6) h) (elim (Bool-cases (ltb width (x + 6))) [
      | inl stop ↦ rw stop (record {
        sized = v;
        paints = λ i j p q. rw (text_stop x y i j (ch ∷ text) (ground arith)) refl;
      })
      | inr go ↦
          let fits = ltb→le width (x + 6) go in
          rw go (
            char-Paints fb _ x y ch text c v fits k (
              draw_text-Paints (draw_glyph fb_sink fb x y 0 (glyph ch) c) (x + 6) y text c
                (draw_glyph-Paints fb x y 0 (glyph ch) c v (omega (arith, length-glyph ch)) k).sized
                (omega arith) k))
    ])

-- A text drawn through the adapter paints, in rows of 6 by 8 pixels, the pixels of the characters'
-- glyphs: of the characters that end on the screen, and no others. The rest of the screen stays.
-- Condition: the text begins at least 6 columns and 8 rows below 2 ^ 16.
pub pixel_at-draw_text :
    (fb : Framebuffer) (x y : ℕ) (text : List ℕ) (c : Rgb) (i j : ℕ)
    → AreSized fb
    → x + 6 < 65536
    → y + 8 < 65536
    → i < width
    → j < height
    → pixel_at (draw_text fb_sink fb x y text c).1 i j
      ≡ (if text_ink x y text i j then to_rgb565 c else pixel_at fb i j)
pixel_at-draw_text fb x y text c i j v h k p q =
    (draw_text-Paints fb x y text c v h k).paints i j p q
