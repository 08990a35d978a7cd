-- ===== src/Prelude/Slices.antt =====
-- What a Rust call comes to: `Ok`, `Err`, or a panic (an index out of range, a failed `unwrap`).
-- Reads and writes of slices panic as in Rust.
use Prim.Native.Nat.{ℕ, zero, suc, ◌+◌, ◌≤◌, ◌<◌}
use mathlib.Core.Path.{◌≡◌, refl, ap, ◌∙◌}
use mathlib.Core.List.{List, [], ◌∷◌, ◌++◌}
use native.Mathlib.Omega.{arith}
use openmk.Prelude.Lists.{length, get_or, set, drop, take, replicate, length-append}
use openmk.Prelude.Lists.{drop-length_append, take-length_append}
use openmk.Prelude.Tests.{leb, le→leb, if◌then◌else◌}

pub data Outcome {ℓ κ} (E : Type ℓ) (A : Type κ) : Type (ℓ ⊔ κ) where
  ok : A → Outcome E A
  err : E → Outcome E A
  panic : Outcome E A

infixl 5 ◌>>=◌ ◌>>◌
abbrev pub ◌>>=◌ {ℓ κ μ} :
    {E : Type ℓ} {A : Type κ} {B : Type μ} → Outcome E A → (A → Outcome E B) → Outcome E B
ok a >>= f = f a
err e >>= f = err e
panic >>= f = panic

abbrev pub ◌>>◌ {ℓ κ} : {E : Type ℓ} {B : Type κ} → Outcome E (Unit {0}) → Outcome E B → Outcome E B
m >> k = m >>= λ _. k

-- `?.map(f)`
abbrev pub map_ok {ℓ κ μ} :
    {E : Type ℓ} {A : Type κ} {B : Type μ} → (A → B) → Outcome E A → Outcome E B
map_ok f (ok a) = ok (f a)
map_ok f (err e) = err e
map_ok f panic = panic

-- `.unwrap()` and `.expect(…)`
abbrev pub unwrap {ℓ κ μ} : {E : Type ℓ} {F : Type κ} {A : Type μ} → Outcome E A → Outcome F A
unwrap (ok a) = ok a
unwrap (err e) = panic
unwrap panic = panic

module _ {ℓ κ} {E : Type ℓ} {A : Type κ} where
  -- `xs[i]`
  abbrev pub read : List A → ℕ → Outcome E A
  read [] i = panic
  read (x ∷ xs) zero = ok x
  read (x ∷ xs) (suc i) = read xs i

  -- `out[i] = v`
  abbrev pub store : ℕ → A → List A → Outcome E (List A)
  store i v [] = panic
  store zero v (x ∷ xs) = ok (v ∷ xs)
  store (suc i) v (x ∷ xs) = map_ok (◌∷◌ x) (store i v xs)

  -- `out[.. src.len()].copy_from_slice(src)`
  abbrev pub overwrite : List A → List A → Outcome E (List A)
  overwrite [] out = ok out
  overwrite (s ∷ src) [] = panic
  overwrite (s ∷ src) (x ∷ out) = map_ok (◌∷◌ s) (overwrite src out)

  -- `for b in &mut out[.. n] { *b = v; }`
  abbrev pub fill : ℕ → A → List A → Outcome E (List A)
  fill zero v out = ok out
  fill (suc n) v [] = panic
  fill (suc n) v (x ∷ out) = map_ok (◌∷◌ v) (fill n v out)

  -- `out[i .. i + src.len()].copy_from_slice(src)`
  abbrev pub copy_at : ℕ → List A → List A → Outcome E (List A)
  copy_at zero src out = overwrite src out
  copy_at (suc i) src [] = panic
  copy_at (suc i) src (x ∷ out) = map_ok (◌∷◌ x) (copy_at i src out)

  -- `f(&mut out[off..])`, for a writer that returns a count: the part before `off` stays.
  pub on_tail : ℕ → (List A → Outcome E (ℕ × List A)) → List A → Outcome E (ℕ × List A)
  on_tail off f out =
      if leb off (length out)
      then map_ok (λ r. (r.0, take off out ++ r.1)) (f (drop off out))
      else panic

  pub read_ok : (xs : List A) (i : ℕ) (d : A) → i < length xs → read xs i ≡ ok (get_or xs i d)
  read_ok [] i d h = absurd (omega arith)
  read_ok (x ∷ xs) zero d h = refl
  read_ok (x ∷ xs) (suc i) d h = read_ok xs i d (omega arith)

  pub store_ok : (xs : List A) (i : ℕ) (v : A) → i < length xs → store i v xs ≡ ok (set xs i v)
  store_ok [] i v h = absurd (omega arith)
  store_ok (x ∷ xs) zero v h = refl
  store_ok (x ∷ xs) (suc i) v h = ap (map_ok (◌∷◌ x)) (store_ok xs i v (omega arith))

  pub overwrite_lem :
      (src out : List A)
      → length src ≤ length out
      → overwrite src out ≡ ok (src ++ drop (length src) out)
  overwrite_lem [] out h = refl
  overwrite_lem (s ∷ src) [] h = absurd (omega arith)
  overwrite_lem (s ∷ src) (x ∷ out) h = ap (map_ok (◌∷◌ s)) (overwrite_lem src out (omega arith))

  pub fill_lem :
      (n : ℕ) (v : A) (out : List A)
      → n ≤ length out
      → fill n v out ≡ ok (replicate n v ++ drop n out)
  fill_lem zero v out h = refl
  fill_lem (suc n) v [] h = absurd (omega arith)
  fill_lem (suc n) v (x ∷ out) h = ap (map_ok (◌∷◌ v)) (fill_lem n v out (omega arith))

  map_ok-map_ok :
      (pre : List A) (x : A) (o : Outcome E (List A))
      → map_ok (◌∷◌ x) (map_ok (λ ys. pre ++ ys) o) ≡ map_ok (λ ys. x ∷ pre ++ ys) o
  map_ok-map_ok pre x (ok a) = refl
  map_ok-map_ok pre x (err e) = refl
  map_ok-map_ok pre x panic = refl

  map_ok_id : (o : Outcome E (List A)) → o ≡ map_ok (λ ys. ys) o
  map_ok_id (ok a) = refl
  map_ok_id (err e) = refl
  map_ok_id panic = refl

  -- A write past a prefix leaves the prefix alone.
  pub store-append :
      (pre rest : List A) (i k : ℕ) (v : A)
      → i ≡ length pre + k
      → store i v (pre ++ rest) ≡ map_ok (λ ys. pre ++ ys) (store k v rest)
  store-append [] rest i k v e = let e' : i ≡ k = omega arith in rw e' (map_ok_id (store k v rest))
  store-append (x ∷ pre) rest zero k v e = absurd (omega arith)
  store-append (x ∷ pre) rest (suc i) k v e =
      ap (map_ok (◌∷◌ x)) (store-append pre rest i k v (omega arith))
      ∙ map_ok-map_ok pre x (store k v rest)

  -- A writer called on the part behind a prefix.
  pub on_tail-append :
      (f : List A → Outcome E (ℕ × List A)) (pre rest : List A) (off : ℕ)
      → off ≡ length pre
      → on_tail off f (pre ++ rest) ≡ map_ok (λ r. (r.0, pre ++ r.1)) (f rest)
  unfolding on_tail
  on_tail-append f pre rest off e =
      rw (e, le→leb _ _ (fits pre rest), take-length_append pre rest, drop-length_append pre rest)
    where
      fits : (xs ys : List A) → length xs ≤ length (xs ++ ys)
      fits xs ys = omega (arith, length-append xs ys)

module _ {ℓ κ} {E : Type ℓ} {A : Type κ} where
  -- `&xs[off .. off + n]`
  abbrev pub slice : ℕ → ℕ → List A → Outcome E (List A)
  slice off n xs = if leb (off + n) (length xs) then ok (take n (drop off xs)) else panic

  -- `f(&mut out[off..])`, for a writer that returns no count.
  abbrev pub on_rest : ℕ → (List A → Outcome E (List A)) → List A → Outcome E (List A)
  on_rest off f out =
      if leb off (length out) then map_ok (λ ys. take off out ++ ys) (f (drop off out)) else panic

  pub slice_ok :
      (off n : ℕ) (xs : List A) → off + n ≤ length xs → slice off n xs ≡ ok (take n (drop off xs))
  slice_ok off n xs h = rw (le→leb _ _ h)

  pub on_rest-append :
      (f : List A → Outcome E (List A)) (pre rest : List A)
      → on_rest (length pre) f (pre ++ rest) ≡ map_ok (λ ys. pre ++ ys) (f rest)
  on_rest-append f pre rest = rw (
    le→leb (length pre) (length (pre ++ rest)) (omega (arith, length-append pre rest)),
    take-length_append pre rest,
    drop-length_append pre rest,
  )

-- `Q` holds of the value of a call that returns one; the call does not panic.
abbrev pub Returns {ℓ κ} : {E : Type ℓ} {A : Type κ} → (A → Type 0) → Outcome E A → Type 0
Returns Q (ok a) = Q a
Returns Q (err e) = Unit
Returns Q panic = ⊥

pub Returns-map_ok {ℓ κ μ} :
    {E : Type ℓ} {A : Type κ} {B : Type μ} (P : A → Type 0) (Q : B → Type 0) (f : A → B)
    (o : Outcome E A)
    → ((a : A) → P a → Q (f a))
    → Returns P o
    → Returns Q (map_ok f o)
Returns-map_ok P Q f (ok a) keep h = keep a h
Returns-map_ok P Q f (err e) keep h = tt
Returns-map_ok P Q f panic keep h = h

pub Returns-bind {ℓ κ μ} :
    {E : Type ℓ} {A : Type κ} {B : Type μ} (P : A → Type 0) (Q : B → Type 0) (o : Outcome E A)
    (f : A → Outcome E B)
    → ((a : A) → P a → Returns Q (f a))
    → Returns P o
    → Returns Q (o >>= f)
Returns-bind P Q (ok a) f keep h = keep a h
Returns-bind P Q (err e) f keep h = tt
Returns-bind P Q panic f keep h = absurd h

pub Returns-weaken {ℓ κ} :
    {E : Type ℓ} {A : Type κ} (P Q : A → Type 0) (o : Outcome E A)
    → ((a : A) → P a → Q a)
    → Returns P o
    → Returns Q o
Returns-weaken P Q (ok a) keep h = keep a h
Returns-weaken P Q (err e) keep h = tt
Returns-weaken P Q panic keep h = h
