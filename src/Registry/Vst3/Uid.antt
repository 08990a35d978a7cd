-- ===== src/Registry/Vst3/Uid.antt =====
-- Class ids, from their text in a bundle to the plug-in that an id resolves to.
use openmk.Prelude.{
  ℕ, zero, suc, ◌+◌, ◌*◌, ◌/◌, ◌%◌, ◌^◌, ◌<◌, ◌≡◌, ◌∙◌, refl, ap, Bool, true, false, ◌&&◌, Option,
  some, List, [], ◌∷◌, ◌++◌, drop, ltb, leb, ◌==◌, Outcome, ok, arith,
}
use openmk.Registry.{hex_digit, hex8}
use openmk.Registry.Vst3.{
  hex_value, add_digit, or_none, hex_digits, from_str_radix_16, trim_0x, is_char_boundary,
  str_slice, cid_word, parse_cid,
}

-- The text of a class id, behind any number of prefixes `0x`.
abbrev pub uid_text : ℕ → ℕ → ℕ → ℕ → List ℕ
uid_text a b c d = hex8 a ++ (hex8 b ++ (hex8 c ++ hex8 d))

abbrev pub prefixed : ℕ → List ℕ → List ℕ
prefixed zero s = s
prefixed (suc n) s = 0x30 ∷ (0x78 ∷ prefixed n s)

hex_value-hex_digit : (d : ℕ) → d < 16 → hex_value (hex_digit d) ≡ some d
unfolding hex_value
hex_value-hex_digit d h = ground arith

hex_digits-cons :
    (d acc : ℕ) (cs : List ℕ)
    → d < 16
    → acc * 16 + d < 4294967296
    → hex_digits (hex_digit d ∷ cs) acc ≡ hex_digits cs (acc * 16 + d)
unfolding hex_digits
hex_digits-cons d acc cs h k =
    let small : ltb (acc * 16 + d) 4294967296 ≡ true = ground arith in
    rw (hex_value-hex_digit d h) (unfold add_digit in rw small refl)

hex_digits-hex8 : (w : ℕ) → w < 2 ^ 32 → hex_digits (hex8 w) 0 ≡ some w
hex_digits-hex8 w h =
    hex_digits-cons (w / 268435456 % 16) 0 (drop 1 (hex8 w)) (omega arith) (omega arith)
    ∙ hex_digits-cons (w / 16777216 % 16) _ (drop 2 (hex8 w)) (omega arith) (omega arith)
    ∙ hex_digits-cons (w / 1048576 % 16) _ (drop 3 (hex8 w)) (omega arith) (omega arith)
    ∙ hex_digits-cons (w / 65536 % 16) _ (drop 4 (hex8 w)) (omega arith) (omega arith)
    ∙ hex_digits-cons (w / 4096 % 16) _ (drop 5 (hex8 w)) (omega arith) (omega arith)
    ∙ hex_digits-cons (w / 256 % 16) _ (drop 6 (hex8 w)) (omega arith) (omega arith)
    ∙ hex_digits-cons (w / 16 % 16) _ (drop 7 (hex8 w)) (omega arith) (omega arith)
    ∙ hex_digits-cons (w % 16) _ [] (omega arith) (omega arith)
    ∙ (unfold hex_digits in ap some (omega arith))

no_plus : (d : ℕ) → d < 16 → (hex_digit d == 0x2b) ≡ false
no_plus d h = ground arith

from_str_radix_16-hex8 : (w : ℕ) → w < 2 ^ 32 → from_str_radix_16 (hex8 w) ≡ some w
unfolding from_str_radix_16
from_str_radix_16-hex8 w h = rw (no_plus (w / 268435456 % 16) (omega arith)) (hex_digits-hex8 w h)

trim_0x-prefixed : (n : ℕ) (s : List ℕ) → trim_0x (prefixed n s) ≡ trim_0x s
unfolding trim_0x
trim_0x-prefixed zero s = refl
trim_0x-prefixed (suc n) s = trim_0x-prefixed n s

no_x : (d : ℕ) → d < 16 → (hex_digit d == 0x78) ≡ false
no_x d h = ground arith

and_false : (b : Bool) → (b && false) ≡ false
and_false true = refl
and_false false = refl

trim_0x-hex8 : (w : ℕ) (rest : List ℕ) → trim_0x (hex8 w ++ rest) ≡ hex8 w ++ rest
unfolding trim_0x
trim_0x-hex8 w rest =
    rw (no_x (w / 16777216 % 16) (omega arith), and_false (hex_digit (w / 268435456 % 16) == 0x30))
      refl

ascii_digit : (d : ℕ) → d < 16 → leb 0x80 (hex_digit d) ≡ false
ascii_digit d h = ground arith

cid_word-hex8 :
    {A : Type 0} (s : List ℕ) (from w : ℕ) (next : ℕ → Outcome ⊥ (Option A))
    → str_slice s from (from + 8) ≡ ok (hex8 w)
    → w < 2 ^ 32
    → cid_word s from next ≡ next w
unfolding cid_word
cid_word-hex8 s from w next e h = rw e (rw (from_str_radix_16-hex8 w h) (unfold or_none in refl))

pub parse_cid-uid_text :
    (n a b c d : ℕ)
    → a < 2 ^ 32
    → b < 2 ^ 32
    → c < 2 ^ 32
    → d < 2 ^ 32
    → parse_cid (prefixed n (uid_text a b c d)) ≡ ok (some (a, b, c, d))
unfolding parse_cid
parse_cid-uid_text n a b c d h k l m =
    rw (trim_0x-prefixed n (uid_text a b c d), trim_0x-hex8 a (hex8 b ++ (hex8 c ++ hex8 d)))
      (cid_word-hex8 (uid_text a b c d) 0 a _ first h
        ∙ cid_word-hex8 (uid_text a b c d) 8 b _ second k
        ∙ cid_word-hex8 (uid_text a b c d) 16 c _ third l
        ∙ cid_word-hex8 (uid_text a b c d) 24 d _ fourth m)
  where
    a_ascii : leb 0x80 (hex_digit (a / 268435456 % 16)) ≡ false
    a_ascii = ascii_digit (a / 268435456 % 16) (omega arith)

    b_ascii : leb 0x80 (hex_digit (b / 268435456 % 16)) ≡ false
    b_ascii = ascii_digit (b / 268435456 % 16) (omega arith)

    c_ascii : leb 0x80 (hex_digit (c / 268435456 % 16)) ≡ false
    c_ascii = ascii_digit (c / 268435456 % 16) (omega arith)

    d_ascii : leb 0x80 (hex_digit (d / 268435456 % 16)) ≡ false
    d_ascii = ascii_digit (d / 268435456 % 16) (omega arith)

    first : str_slice (uid_text a b c d) 0 8 ≡ ok (hex8 a)
    first = unfold str_slice is_char_boundary in rw (a_ascii, b_ascii) refl

    second : str_slice (uid_text a b c d) 8 16 ≡ ok (hex8 b)
    second = unfold str_slice is_char_boundary in rw (b_ascii, c_ascii) refl

    third : str_slice (uid_text a b c d) 16 24 ≡ ok (hex8 c)
    third = unfold str_slice is_char_boundary in rw (c_ascii, d_ascii) refl

    fourth : str_slice (uid_text a b c d) 24 32 ≡ ok (hex8 d)
    fourth = unfold str_slice is_char_boundary in rw d_ascii refl
