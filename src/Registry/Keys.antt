-- ===== src/Registry/Keys.antt =====
-- Plug-in keys are as good as the numbers in them.
use openmk.Prelude.{
  ℕ, ◌/◌, ◌%◌, ◌^◌, ◌<◌, ◌≡◌, ◌∙◌, refl, ap, inl, inr, Bool, true, ◌&&◌, Option, none, some, List,
  [], ◌∷◌, ◌++◌, drop, All, ◌==◌, if◌then◌else◌, Bool-cases, arith,
}
use openmk.Nks.Plid.{Str, audio_unit}
use openmk.Nks.Riff.{same_bytes}
use openmk.Registry.{
  Vst3Plugin, AuPlugin, PluginEntry, audio_unit_entry, hex_digit, hex8, from_au, Registry, get,
  insert_vst3s, insert_aus, scan, resolve,
}

hex_digit-inj : (d e : ℕ) → d < 16 → e < 16 → hex_digit d ≡ hex_digit e → d ≡ e
hex_digit-inj d e p q h = ground arith

same_bytes-cons :
    (x y : ℕ) (xs ys : List ℕ)
    → same_bytes (x ∷ xs) (y ∷ ys) ≡ true
    → (x ≡ y) × (same_bytes xs ys ≡ true)
same_bytes-cons x y xs ys h = (ground arith, ground arith)

-- The same digit at some place.
same_digit :
    (d e : ℕ) (xs ys : List ℕ)
    → same_bytes (hex_digit (d % 16) ∷ xs) (hex_digit (e % 16) ∷ ys) ≡ true
    → (d % 16 ≡ e % 16) × (same_bytes xs ys ≡ true)
same_digit d e xs ys h =
    let (same, rest) = same_bytes-cons (hex_digit (d % 16)) (hex_digit (e % 16)) xs ys h in
    (hex_digit-inj (d % 16) (e % 16) (omega arith) (omega arith) same, rest)

-- Texts that begin with the digits of two words are the same only if the words are.
pub same_word :
    (x y : ℕ) (xs ys : List ℕ)
    → x < 2 ^ 32
    → y < 2 ^ 32
    → same_bytes (hex8 x ++ xs) (hex8 y ++ ys) ≡ true
    → (x ≡ y) × (same_bytes xs ys ≡ true)
same_word x y xs ys p q h =
    let (d7, h₁) =
      same_digit (x / 268435456) (y / 268435456) (drop 1 (hex8 x ++ xs)) (drop 1 (hex8 y ++ ys))
        h in
    let (d6, h₂) =
      same_digit (x / 16777216) (y / 16777216) (drop 2 (hex8 x ++ xs)) (drop 2 (hex8 y ++ ys)) h₁ in
    let (d5, h₃) =
      same_digit (x / 1048576) (y / 1048576) (drop 3 (hex8 x ++ xs)) (drop 3 (hex8 y ++ ys)) h₂ in
    let (d4, h₄) =
      same_digit (x / 65536) (y / 65536) (drop 4 (hex8 x ++ xs)) (drop 4 (hex8 y ++ ys)) h₃ in
    let (d3, h₅) =
      same_digit (x / 4096) (y / 4096) (drop 5 (hex8 x ++ xs)) (drop 5 (hex8 y ++ ys)) h₄ in
    let (d2, h₆) =
      same_digit (x / 256) (y / 256) (drop 6 (hex8 x ++ xs)) (drop 6 (hex8 y ++ ys)) h₅ in
    let (d1, h₇) =
      same_digit (x / 16) (y / 16) (drop 7 (hex8 x ++ xs)) (drop 7 (hex8 y ++ ys)) h₆ in
    let (d0, h₈) = same_digit x y (drop 8 (hex8 x ++ xs)) (drop 8 (hex8 y ++ ys)) h₇ in
    (omega arith, h₈)

abbrev pub AreWords : AuPlugin → Type 0
AreWords a = (a.ty < 2 ^ 32) × (a.subtype < 2 ^ 32) × (a.manufacturer < 2 ^ 32)

-- The last of the audio units that has the three numbers, or `before` if there is none.
abbrev pub last_au : ℕ → ℕ → ℕ → Option PluginEntry → List AuPlugin → Option PluginEntry
last_au t s m before [] = before
last_au t s m before (a ∷ aus) =
    last_au t s m
      (if (a.ty == t) && (a.subtype == s) && (a.manufacturer == m)
        then some (audio_unit_entry a)
        else before)
      aus

pub same_bytes_refl : (xs : List ℕ) → same_bytes xs xs ≡ true
same_bytes_refl [] = refl
same_bytes_refl (x ∷ xs) = rw (same_bytes_refl xs) (ground arith)

same_numbers :
    (u v w t s m : ℕ) → u ≡ t → v ≡ s → w ≡ m → same_bytes (from_au u v w) (from_au t s m) ≡ true
same_numbers u v w t s m e f g =
    ap (λ key. same_bytes key (from_au t s m))
      (ap (λ n. from_au n v w) e ∙ ap (λ n. from_au t n w) f ∙ ap (λ n. from_au t s n) g)
    ∙ same_bytes_refl (from_au t s m)

numbers_agree :
    (u v w t s m : ℕ) → ((u == t) && (v == s) && (w == m)) ≡ true → (u ≡ t) × (v ≡ s) × (w ≡ m)
numbers_agree u v w t s m h = (ground arith, ground arith, ground arith)

agree_numbers :
    (u v w t s m : ℕ) → u ≡ t → v ≡ s → w ≡ m → true ≡ ((u == t) && (v == s) && (w == m))
agree_numbers u v w t s m e f g = ground arith

-- The keys of audio units differ unless the three numbers agree.
same_bytes-from_au :
    (a : AuPlugin) (t s m : ℕ)
    → AreWords a
    → t < 2 ^ 32
    → s < 2 ^ 32
    → m < 2 ^ 32
    → same_bytes (from_au a.ty a.subtype a.manufacturer) (from_au t s m)
      ≡ ((a.ty == t) && (a.subtype == s) && (a.manufacturer == m))
same_bytes-from_au a t s m h p q r =
    elim (Bool-cases (same_bytes (from_au a.ty a.subtype a.manufacturer) (from_au t s m))) [
      | inl same ↦
          let (ty, h₁) =
            same_word a.ty t (0x3a ∷ hex8 a.subtype ++ (0x3a ∷ hex8 a.manufacturer))
              (0x3a ∷ hex8 s ++ (0x3a ∷ hex8 m)) h.0 p same in
          let (subtype, h₂) =
            same_word a.subtype s (0x3a ∷ hex8 a.manufacturer) (0x3a ∷ hex8 m) h.1 q h₁ in
          let (manufacturer, h₃) = same_word a.manufacturer m [] [] h.2 r h₂ in
          rw same (agree_numbers a.ty a.subtype a.manufacturer t s m ty subtype manufacturer)
      | inr differ ↦ elim (Bool-cases ((a.ty == t) && (a.subtype == s) && (a.manufacturer == m))) [
        | inl equal ↦
            let (ty, subtype, manufacturer) =
              numbers_agree a.ty a.subtype a.manufacturer t s m equal in
            rw equal (same_numbers a.ty a.subtype a.manufacturer t s m ty subtype manufacturer)
        | inr other ↦ rw (differ, other) refl
      ]
    ]

get-insert_vst3s :
    (vst3s : List Vst3Plugin) (by_key : Registry) (t s m : ℕ)
    → get (from_au t s m) (insert_vst3s vst3s by_key) ≡ get (from_au t s m) by_key
unfolding get insert_vst3s
get-insert_vst3s [] by_key t s m = refl
get-insert_vst3s (v ∷ vst3s) by_key t s m = get-insert_vst3s vst3s _ t s m

get-insert_aus :
    (aus : List AuPlugin) (by_key : Registry) (t s m : ℕ)
    → All AreWords aus
    → t < 2 ^ 32
    → s < 2 ^ 32
    → m < 2 ^ 32
    → get (from_au t s m) (insert_aus aus by_key) ≡ last_au t s m (get (from_au t s m) by_key) aus
unfolding get insert_aus
get-insert_aus [] by_key t s m h p q r = refl
get-insert_aus (a ∷ aus) by_key t s m h p q r =
    get-insert_aus aus ((from_au a.ty a.subtype a.manufacturer, audio_unit_entry a) ∷ by_key) t s m
      h.1 p q r
    ∙ ap
        (λ (b : Bool).
          last_au t s m (if b then some (audio_unit_entry a) else get (from_au t s m) by_key) aus)
        (same_bytes-from_au a t s m h.0 p q r)

-- A registry of any VST 3 plug-ins and of audio units with 32-bit numbers resolves an audio unit id
-- to the last of the audio units that has its three numbers, whatever the name in the id is, and to
-- nothing if there is none. Keys of VST 3 plug-ins do not interfere.
resolve-scan :
    (vst3s : List Vst3Plugin) (aus : List AuPlugin) (t s m : ℕ) (name : Option Str)
    → All AreWords aus
    → t < 2 ^ 32
    → s < 2 ^ 32
    → m < 2 ^ 32
    → resolve (scan vst3s aus) (audio_unit t s m name) ≡ last_au t s m none aus
unfolding resolve scan
resolve-scan vst3s aus t s m name h p q r =
    get-insert_aus aus (insert_vst3s vst3s []) t s m h p q r
    ∙ ap (λ o. last_au t s m o aus) (get-insert_vst3s vst3s [] t s m ∙ unfold get in refl)
