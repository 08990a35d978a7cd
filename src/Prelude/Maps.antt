-- ===== src/Prelude/Maps.antt =====
-- Hash maps as association lists with one entry for a key; `same` compares keys.
use Prim.Native.Nat.{ℕ, zero, suc, ◌+◌}
use mathlib.Core.Path.{◌≡◌, refl, sym, ap, subst, ◌∙◌}
use mathlib.Core.Bool.{Bool, true, false}
use mathlib.Core.Option.{Option, none, some, none-ne-some, some-injective}
use mathlib.Core.List.{List, [], ◌∷◌, ◌++◌}
use mathlib.Core.Logic.{◌⊎◌, inl, inr}
use native.Mathlib.Omega.{arith}
use openmk.Prelude.Lists.{All, get_elem?}
use openmk.Prelude.Tests.{if◌then◌else◌, ◌==◌, Bool-cases}

module _ {ℓ κ} {K : Type ℓ} {V : Type κ} (same : K → K → Bool) where
  abbrev pub map_get : K → List (K × V) → Option V
  map_get k [] = none
  map_get k ((j, v) ∷ m) = if same j k then some v else map_get k m

  abbrev pub map_remove : K → List (K × V) → List (K × V)
  map_remove k [] = []
  map_remove k ((j, v) ∷ m) = if same j k then map_remove k m else (j, v) ∷ map_remove k m

  abbrev pub map_insert : K → V → List (K × V) → List (K × V)
  map_insert k v m = (k, v) ∷ map_remove k m

module _ {ℓ} {A : Type ℓ} where
  abbrev add_back : A → Option (A × List A) → Option (A × List A)
  add_back x none = none
  add_back x (some (y, ys)) = some (y, x ∷ ys)

  -- The `i`-th element and the others.
  abbrev pub pick : ℕ → List A → Option (A × List A)
  pick i [] = none
  pick zero (x ∷ xs) = some (x, xs)
  pick (suc i) (x ∷ xs) = add_back x (pick i xs)

  -- How many elements have the number `n`.
  abbrev pub count_by : (A → ℕ) → ℕ → List A → ℕ
  count_by f n [] = 0
  count_by f n (x ∷ xs) = (if f x == n then 1 else 0) + count_by f n xs

  pub count_by-append :
      (f : A → ℕ) (n : ℕ) (xs ys : List A)
      → count_by f n (xs ++ ys) ≡ count_by f n xs + count_by f n ys
  count_by-append f n [] ys = omega arith
  count_by-append f n (x ∷ xs) ys = omega (arith, count_by-append f n xs ys)

  pub All-append {κ} : (P : A → Type κ) (xs ys : List A) → All P xs → All P ys → All P (xs ++ ys)
  All-append P [] ys p q = q
  All-append P (x ∷ xs) ys (p, ps) q = (p, All-append P xs ys ps q)

  -- What `pick` takes out, it takes out once.
  pub pick-cases {κ} :
      (P : A → Type κ) (f : A → ℕ) (i : ℕ) (xs : List A)
      → All P xs
      → (pick i xs ≡ none)
        ⊎ ((x : A) × (ys : List A) × (pick i xs ≡ some (x, ys))
            × P x
            × All P ys
            × ((n : ℕ) → count_by f n xs ≡ (if f x == n then 1 else 0) + count_by f n ys))
  pick-cases P f i [] p = inl refl
  pick-cases P f zero (x ∷ xs) (p, ps) = inr (x, xs, refl, p, ps, λ n. refl)
  pick-cases P f (suc i) (x ∷ xs) (p, ps) = elim (pick-cases P f i xs ps) [
    | inl e ↦ inl (ap (add_back x) e)
    | inr (y, ys, e, q, qs, h) ↦
        inr (y, x ∷ ys, ap (add_back x) e, q, (p, qs), λ n. omega (arith, h n))
  ]

pub All-get_elem? {ℓ κ} :
    {A : Type ℓ} (P : A → Type κ) (i : ℕ) (x : A) (xs : List A)
    → All P xs
    → get_elem? xs i ≡ some x
    → P x
All-get_elem? P i x [] p e = absurd (none-ne-some x e)
All-get_elem? P zero x (y ∷ xs) (p, ps) e = subst P (some-injective y x e) p
All-get_elem? P (suc i) x (y ∷ xs) (p, ps) e = All-get_elem? P i x xs ps e

module _ {ℓ} {K : Type ℓ} (same : K → K → Bool) (same_refl : (a : K) → same a a ≡ true)
    (same_sym : (a b : K) → same a b ≡ true → same b a ≡ true)
    (same_trans : (a b c : K) → same a b ≡ true → same b c ≡ true → same a c ≡ true) where
  same_agree : (a b c : K) → same a b ≡ true → same c a ≡ same c b
  same_agree a b c h = elim (Bool-cases (same c a)) [
    | inl agrees ↦ agrees ∙ sym (same_trans c a b agrees h)
    | inr differs ↦ elim (Bool-cases (same c b)) [
      | inl other ↦ absurd (ground (arith, differs, same_trans c b a other (same_sym a b h)))
      | inr neither ↦ differs ∙ sym neither
    ]
  ]

module _ {ℓ κ} {K : Type ℓ} {V : Type κ} (same : K → K → Bool)
    (same_refl : (a : K) → same a a ≡ true)
    (same_sym : (a b : K) → same a b ≡ true → same b a ≡ true)
    (same_trans : (a b c : K) → same a b ≡ true → same b c ≡ true → same a c ≡ true) where
  pub get_same :
      (a b : K) (m : List (K × V)) → same a b ≡ true → map_get same a m ≡ map_get same b m
  get_same a b [] h = refl
  get_same a b ((c, v) ∷ m) h =
      rw (same_agree same same_refl same_sym same_trans a b c h, get_same a b m h) refl

  pub get_removed :
      (a b : K) (m : List (K × V))
      → same b a ≡ false
      → map_get same a (map_remove same b m) ≡ map_get same a m
  get_removed a b [] h = refl
  get_removed a b ((c, v) ∷ m) h = elim (Bool-cases (same c b)) [
    | inl gone ↦
        let other : same c a ≡ false = elim (Bool-cases (same c a)) [
          | inl agrees ↦ absurd (ground (arith, h, same_trans b c a (same_sym c b gone) agrees))
          | inr differs ↦ differs
        ] in
        rw (gone, other) (get_removed a b m h)
    | inr kept ↦ rw (kept, get_removed a b m h) refl
  ]

module _ {ℓ κ} {K : Type ℓ} {V : Type κ} (same : K → K → Bool) where
  pub get-map_remove_self : (a : K) (m : List (K × V)) → map_get same a (map_remove same a m) ≡ none
  get-map_remove_self a [] = refl
  get-map_remove_self a ((c, v) ∷ m) = elim (Bool-cases (same c a)) [
    | inl gone ↦ rw gone (get-map_remove_self a m)
    | inr kept ↦ rw (kept, kept) (get-map_remove_self a m)
  ]

  -- No key has two entries.
  abbrev pub AreDistinct : List (K × V) → Type (ℓ ⊔ κ)
  AreDistinct [] = Unit
  AreDistinct ((k, v) ∷ m) = (map_get same k m ≡ none) × AreDistinct m
