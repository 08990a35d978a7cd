-- ===== src/Registry/Au/Trim.antt =====
-- `str::trim`, of a line that ends in a text that is not blank.
use openmk.Prelude.{
  ℕ, ◌≡◌, ◌∙◌, refl, ap, sym, inl, inr, Bool, true, false, List, [], ◌∷◌, ◌++◌, Bool-cases,
  if◌then◌else◌, is_whitespace, trim_start, cons_trimmed, trim_end, trim,
}

-- Trimming the end of a text that ends in a text that is not blank.
cons_trimmed-append :
    (c : ℕ) (s : List ℕ) (d : ℕ) (ds : List ℕ) → cons_trimmed c (s ++ d ∷ ds) ≡ c ∷ (s ++ d ∷ ds)
cons_trimmed-append c [] d ds = refl
cons_trimmed-append c (x ∷ s) d ds = refl

pub trim_end-append :
    (s t : List ℕ) (d : ℕ) (ds : List ℕ) → trim_end t ≡ d ∷ ds → trim_end (s ++ t) ≡ s ++ trim_end t
unfolding trim_end
trim_end-append [] t d ds e = refl
trim_end-append (c ∷ s) t d ds e =
    ap (cons_trimmed c) (trim_end-append s t d ds e ∙ ap (λ u. s ++ u) e)
    ∙ cons_trimmed-append c s d ds
    ∙ ap (λ u. c ∷ (s ++ u)) (sym e)

cons_trimmed_blank :
    (c : ℕ) (s : List ℕ) → is_whitespace c ≡ true → trim_start (cons_trimmed c s) ≡ trim_start s
unfolding trim_start
cons_trimmed_blank c [] h = rw h refl
cons_trimmed_blank c (d ∷ s) h = rw h refl

cons_trimmed_printed :
    (c : ℕ) (s : List ℕ)
    → is_whitespace c ≡ false
    → trim_start (cons_trimmed c s) ≡ cons_trimmed c s
unfolding trim_start
cons_trimmed_printed c [] h = rw h (rw h refl)
cons_trimmed_printed c (d ∷ s) h = rw h refl

trim_start-trim_end : (s : List ℕ) → trim_start (trim_end s) ≡ trim_end (trim_start s)
unfolding trim_start trim_end
trim_start-trim_end [] = refl
trim_start-trim_end (c ∷ s) = elim (Bool-cases (is_whitespace c)) [
  | inl blank ↦
      cons_trimmed_blank c (trim_end s) blank
      ∙ trim_start-trim_end s
      ∙ ap (λ (b : Bool). trim_end (if b then trim_start s else c ∷ s)) (sym blank)
  | inr printed ↦
      cons_trimmed_printed c (trim_end s) printed
      ∙ ap (λ (b : Bool). trim_end (if b then trim_start s else c ∷ s)) (sym printed)
]

trim_end_kept :
    (c : ℕ) (s : List ℕ) → trim_end s ≡ s → trim_end (cons_trimmed c s) ≡ cons_trimmed c s
unfolding trim_end
trim_end_kept c [] e = elim (Bool-cases (is_whitespace c)) [
  | inl blank ↦ rw blank refl
  | inr printed ↦ rw printed (rw printed refl)
]
trim_end_kept c (d ∷ s) e = ap (cons_trimmed c) e

trim_end-trim_end : (s : List ℕ) → trim_end (trim_end s) ≡ trim_end s
unfolding trim_end
trim_end-trim_end [] = refl
trim_end-trim_end (c ∷ s) = trim_end_kept c (trim_end s) (trim_end-trim_end s)

pub trim-trim_end : (s : List ℕ) → trim (trim_end s) ≡ trim s
unfolding trim
trim-trim_end s = ap trim_end (trim_start-trim_end s) ∙ trim_end-trim_end (trim_start s)
