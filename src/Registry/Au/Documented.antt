-- ===== src/Registry/Au/Documented.antt =====
-- What the parser makes of a line in the form that its comment gives.
use openmk.Prelude.{
  ℕ, suc, ◌+◌, ◌*◌, ◌<◌, ◌≡◌, ◌∙◌, refl, ap, Bool, false, ◌||◌, some, [], ◌∷◌, ◌++◌, All, ◌==◌,
  if◌then◌else◌, lt→ltb, codes, is_whitespace, trim, trim_start, trim_end, append_assoc, List, sym,
  arith,
}
use openmk.Nks.Plid.{Str}
use openmk.Registry.Au.Trim.{trim_end-append, trim-trim_end}
use openmk.Registry.Au.{
  utf8, as_bytes, be_word, fourcc, words_from, split_whitespace, splitn_nth, split_once, line_names,
  with_codes, with_words, is_dashed, is_blank, parse_line, parse_lines,
}

-- A code of four characters.
abbrev pub Code : Type 0
Code = ℕ × ℕ × ℕ × ℕ

abbrev pub code_text : Code → Str
code_text (a, b, c, d) = a ∷ (b ∷ (c ∷ (d ∷ [])))

abbrev pub code_word : Code → ℕ
code_word (a, b, c, d) = a * 16777216 + b * 65536 + c * 256 + d

-- An ASCII character that is no white space.
abbrev pub IsPrinted : ℕ → Type 0
IsPrinted c = (c < 0x80) × (is_whitespace c ≡ false)

abbrev pub IsCode : Code → Type 0
IsCode (a, b, c, d) = IsPrinted a × IsPrinted b × IsPrinted c × IsPrinted d

abbrev pub NoColon : Str → Type 0
NoColon s = All (λ c. (c == 0x3a) ≡ false) s

-- Three codes, a dash, the manufacturer, a colon and the name; all but the last with two spaces between.
abbrev pub names_part : Str → Str → Str
names_part maker name = codes "  -  " ++ (maker ++ (codes ": " ++ name))

abbrev pub documented : Code → Code → Code → Str → Str → Str
documented ty subty manu maker name =
    code_text ty
    ++ (codes "  "
        ++ (code_text subty ++ (codes "  " ++ (code_text manu ++ names_part maker name))))

fourcc-code_text : (k : Code) → IsCode k → fourcc (code_text k) ≡ some (code_word k)
unfolding fourcc as_bytes utf8 be_word
fourcc-code_text (a, b, c, d) h =
    rw (lt→ltb a 0x80 h.0.0, lt→ltb b 0x80 h.1.0, lt→ltb c 0x80 h.2.0, lt→ltb d 0x80 h.3.0) refl

words_from-code_text :
    (k : Code) (s : Str)
    → IsCode k
    → words_from [] (code_text k ++ (codes "  " ++ s)) ≡ code_text k ∷ words_from [] s
unfolding words_from
words_from-code_text (a, b, c, d) s h = rw (h.0.1, h.1.1, h.2.1, h.3.1) refl

splitn_nth-cons :
    (n c : ℕ) (s : Str)
    → is_whitespace c ≡ false
    → splitn_nth (suc n) (c ∷ s) ≡ splitn_nth (suc n) s
unfolding splitn_nth
splitn_nth-cons n c s h = ap (λ (b : Bool). splitn_nth (if b then n else suc n) s) h

splitn_nth-code_text :
    (n : ℕ) (k : Code) (s : Str)
    → IsCode k
    → splitn_nth (suc n) (code_text k ++ s) ≡ splitn_nth (suc n) s
splitn_nth-code_text n (a, b, c, d) s h =
    splitn_nth-cons n a (b ∷ (c ∷ (d ∷ s))) h.0.1
    ∙ splitn_nth-cons n b (c ∷ (d ∷ s)) h.1.1
    ∙ splitn_nth-cons n c (d ∷ s) h.2.1
    ∙ splitn_nth-cons n d s h.3.1

split_once-append : (s n : Str) → NoColon s → split_once (s ++ (codes ": " ++ n)) ≡ some (s, n)
unfolding split_once
split_once-append [] n h = refl
split_once-append (c ∷ []) n h = rw h.0 refl
split_once-append (c ∷ (d ∷ s)) n h = rw (h.0, split_once-append (d ∷ s) n h.1) refl

NoColon-append : (s t : Str) → NoColon s → NoColon t → NoColon (s ++ t)
NoColon-append [] t h k = k
NoColon-append (c ∷ s) t h k = (h.0, NoColon-append s t h.1 k)

not_dashed :
    (k : Code) (s : Str)
    → (k.0 == 0x2d) ≡ false
    → (is_blank (code_text k ++ s) || is_dashed (code_text k ++ s)) ≡ false
not_dashed (a, b, c, d) s h = rw h refl

-- What stands behind the third space of a documented line.
rest_of : Code → Str → Str → Str
rest_of manu maker name = codes " " ++ (code_text manu ++ names_part maker name)

splitn_nth-documented :
    (ty subty manu : Code) (maker name : Str)
    → IsCode ty
    → IsCode subty
    → splitn_nth 3 (documented ty subty manu maker name) ≡ some (rest_of manu maker name)
unfolding rest_of
splitn_nth-documented ty subty manu maker name h k =
    let behind : Str = codes "  " ++ (code_text manu ++ names_part maker name) in
    let first : splitn_nth 3 (codes "  " ++ (code_text subty ++ behind))
        ≡ splitn_nth 1 (code_text subty ++ behind) =
      unfold splitn_nth in refl in
    let last : splitn_nth 1 behind ≡ some (codes " " ++ (code_text manu ++ names_part maker name)) =
      unfold splitn_nth in refl in
    splitn_nth-code_text 2 ty (codes "  " ++ (code_text subty ++ behind)) h
    ∙ first
    ∙ splitn_nth-code_text 0 subty behind k
    ∙ last

split_whitespace-documented :
    (ty subty manu : Code) (maker name : Str)
    → IsCode ty
    → IsCode subty
    → IsCode manu
    → split_whitespace (documented ty subty manu maker name)
      ≡ code_text ty
        ∷ (code_text subty
            ∷ (code_text manu
                ∷ (codes "-" ∷ words_from [] (codes " " ++ (maker ++ (codes ": " ++ name))))))
unfolding split_whitespace
split_whitespace-documented ty subty manu maker name h k l =
    words_from-code_text ty _ h
    ∙ ap (λ ws. code_text ty ∷ ws)
        (words_from-code_text subty _ k
          ∙ ap (λ ws. code_text subty ∷ ws)
              (words_from-code_text manu _ l
                ∙ ap (λ ws. code_text manu ∷ ws) (unfold words_from in refl)))

split_once-rest_of :
    (manu : Code) (maker name : Str)
    → NoColon (code_text manu)
    → NoColon maker
    → split_once (rest_of manu maker name)
      ≡ some (codes " " ++ (code_text manu ++ (codes "  -  " ++ maker)), name)
unfolding rest_of
split_once-rest_of (a, b, c, d) maker name h k =
    split_once-append (codes " " ++ (code_text (a, b, c, d) ++ (codes "  -  " ++ maker))) name
      (refl, (h.0, (h.1.0, (h.1.1.0, (h.1.1.1.0, (refl, (refl, (refl, (refl, (refl, k))))))))))

-- What is made of a line that is trimmed already.
parse_line-documented :
    (ty subty manu : Code) (maker name : Str)
    → IsCode ty
    → IsCode subty
    → IsCode manu
    → (ty.0 == 0x2d) ≡ false
    → NoColon (code_text manu)
    → NoColon maker
    → parse_line (documented ty subty manu maker name)
      ≡ some (record {
        ty = code_word ty;
        subtype = code_word subty;
        manufacturer = code_word manu;
        name = trim name;
        manufacturer_name = trim (codes " " ++ (code_text manu ++ (codes "  -  " ++ maker)));
      })
unfolding parse_line
parse_line-documented ty subty manu maker name h k l dash manu_plain maker_plain =
    rw
      (
        not_dashed ty
            (codes "  "
              ++ (code_text subty ++ (codes "  " ++ (code_text manu ++ names_part maker name))))
            dash,
        split_whitespace-documented ty subty manu maker name h k l,
      )
      (unfold with_words in
        rw (fourcc-code_text ty h, fourcc-code_text subty k, fourcc-code_text manu l)
          (unfold with_codes in
            rw (splitn_nth-documented ty subty manu maker name h k) (
              rw (split_once-rest_of manu maker name manu_plain maker_plain)
                (unfold line_names in refl))))

trim-documented :
    (ty subty manu : Code) (maker name : Str) (d : ℕ) (ds : Str)
    → IsCode ty
    → trim_end name ≡ d ∷ ds
    → trim (documented ty subty manu maker name) ≡ documented ty subty manu maker (trim_end name)
trim-documented ty subty manu maker name d ds h e =
    let front : Str =
      code_text ty
      ++ (codes "  "
          ++ (code_text subty
              ++ (codes "  " ++ (code_text manu ++ (codes "  -  " ++ (maker ++ codes ": ")))))) in
    let joined : (n : Str) → front ++ n ≡ documented ty subty manu maker n = λ n.
      ap
        (λ u.
          code_text ty
          ++ (codes "  "
              ++ (code_text subty ++ (codes "  " ++ (code_text manu ++ (codes "  -  " ++ u))))))
        (append_assoc maker (codes ": ") n) in
    unfold trim trim_start in
    rw h.0.1
      (ap trim_end (sym (joined name)) ∙ trim_end-append front name d ds e ∙ joined (trim_end name))

nonblank : (s : Str) → is_blank s ≡ false → (d : ℕ) × (ds : Str) × (s ≡ d ∷ ds)
nonblank [] h = absurd (ground (arith, h))
nonblank (c ∷ s) h = (c, s, refl)

-- A line in the documented form gives an audio unit with the three codes as big-endian words and the
-- trimmed name, before those of the lines that follow; but as the manufacturer's name it gives all that
-- stands between the line's third space, which is the first of the two behind the second code, and the
-- colon: the code of the manufacturer, the dash and then the manufacturer's name, trimmed. Conditions: the
-- codes are ASCII with no white space, the first does not begin with a dash, there is no colon before the
-- one that ends the manufacturer's name, and the name is not blank.
pub parse_lines-documented :
    (ty subty manu : Code) (maker name : Str) (ls : List Str)
    → IsCode ty
    → IsCode subty
    → IsCode manu
    → (ty.0 == 0x2d) ≡ false
    → NoColon (code_text manu)
    → NoColon maker
    → is_blank (trim_end name) ≡ false
    → parse_lines (documented ty subty manu maker name ∷ ls)
      ≡ record {
        ty = code_word ty;
        subtype = code_word subty;
        manufacturer = code_word manu;
        name = trim name;
        manufacturer_name = trim (codes " " ++ (code_text manu ++ (codes "  -  " ++ maker)));
      }
        ∷ parse_lines ls
unfolding parse_lines
parse_lines-documented ty subty manu maker name ls h k l dash manu_plain maker_plain filled =
    let (d, ds, e) = nonblank (trim_end name) filled in
    rw (trim-documented ty subty manu maker name d ds h e) (
      rw
        (parse_line-documented ty subty manu maker (trim_end name) h k l dash manu_plain
          maker_plain)
        (rw (trim-trim_end name) refl))
