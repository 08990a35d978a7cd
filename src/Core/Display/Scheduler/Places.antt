-- ===== src/Core/Display/Scheduler/Places.antt =====
-- The pixels of a rectangle of the framebuffer, by place.
use native.Mathlib.Nat.{suc-mul}
use openmk.Prelude.{
  ℕ, zero, suc, ◌+◌, ◌*◌, ◌<◌, ◌≡◌, ◌∙◌, refl, ap, List, [], ◌∷◌, ◌++◌, length, length-append,
  get_or, arith,
}
use openmk.Proto.Types.{width}
use openmk.Core.Display.Encoder.Area.{span, area}
use openmk.Core.Display.Scheduler.Reader.{AreWords}

get_or-append_left :
    (xs ys : List ℕ) (k : ℕ) → k < length xs → get_or (xs ++ ys) k 0 ≡ get_or xs k 0
get_or-append_left [] ys k h = absurd (omega arith)
get_or-append_left (x ∷ xs) ys zero h = refl
get_or-append_left (x ∷ xs) ys (suc k) h = get_or-append_left xs ys k (omega arith)

get_or-append_right :
    (xs ys : List ℕ) (k j : ℕ) → k ≡ length xs + j → get_or (xs ++ ys) k 0 ≡ get_or ys j 0
get_or-append_right [] ys k j e = ap (λ n. get_or ys n 0) (omega arith)
get_or-append_right (x ∷ xs) ys k j e =
    let e' : k ≡ suc (length xs + j) = omega arith in
    rw e' (get_or-append_right xs ys (length xs + j) j refl)

length-span : (px : List ℕ) (i n : ℕ) → length (span px i n) ≡ n
length-span px i zero = refl
length-span px i (suc n) = ap suc (length-span px (suc i) n)

get_or-span : (px : List ℕ) (i n k : ℕ) → k < n → get_or (span px i n) k 0 ≡ get_or px (i + k) 0
get_or-span px i zero k h = absurd (omega arith)
get_or-span px i (suc n) zero h = ap (λ m. get_or px m 0) (omega arith)
get_or-span px i (suc n) (suc k) h =
    get_or-span px (suc i) n k (omega arith) ∙ ap (λ m. get_or px m 0) (omega arith)

pub get_or-area :
    (px : List ℕ) (y m x w r c : ℕ)
    → r < m
    → c < w
    → get_or (area px y m x w) (r * w + c) 0 ≡ get_or px ((y + r) * width + (x + c)) 0
get_or-area px y zero x w r c h k = absurd (omega arith)
get_or-area px y (suc m) x w zero c h k =
    ap (λ n. get_or (area px y (suc m) x w) n 0) {x = 0 * w + c} {y = c} (omega arith)
    ∙ get_or-append_left (span px (y * width + x) w) _ c
        (omega (arith, length-span px (y * width + x) w))
    ∙ get_or-span px (y * width + x) w c k
    ∙ ap (λ n. get_or px n 0) (omega arith)
get_or-area px y (suc m) x w (suc r) c h k =
    get_or-append_right (span px (y * width + x) w) _ (suc r * w + c) (r * w + c)
      (omega (arith, length-span px (y * width + x) w, suc-mul r w))
    ∙ get_or-area px (y + 1) m x w r c (omega arith) k
    ∙ ap (λ n. get_or px n 0) (omega arith)

pub length-area_eq : (px : List ℕ) (y m x w : ℕ) → length (area px y m x w) ≡ m * w
length-area_eq px y zero x w = omega arith
length-area_eq px y (suc m) x w = omega (
  arith,
  suc-mul m w,
  length-append (span px (y * width + x) w) (area px (y + 1) m x w),
  length-span px (y * width + x) w,
  length-area_eq px (y + 1) m x w,
)

AreWords-span : (px : List ℕ) (i n : ℕ) → AreWords px → AreWords (span px i n)
AreWords-span px i zero v k = omega arith
AreWords-span px i (suc n) v zero = v i
AreWords-span px i (suc n) v (suc k) = AreWords-span px (suc i) n v k

AreWords-append : (xs ys : List ℕ) → AreWords xs → AreWords ys → AreWords (xs ++ ys)
AreWords-append [] ys v w k = w k
AreWords-append (x ∷ xs) ys v w zero = v 0
AreWords-append (x ∷ xs) ys v w (suc k) = AreWords-append xs ys (λ j. v (suc j)) w k

pub AreWords-area : (px : List ℕ) (y m x w : ℕ) → AreWords px → AreWords (area px y m x w)
AreWords-area px y zero x w v = λ k. omega arith
AreWords-area px y (suc m) x w v =
    AreWords-append (span px (y * width + x) w) (area px (y + 1) m x w) (AreWords-span px _ w v)
      (AreWords-area px (y + 1) m x w v)
