-- ===== src/Registry/Au.antt =====
-- crates/plugin-registry/src/au.rs: audio units, from the output of `auval -a`. A text is its characters.
pub mod Trim
pub mod Documented
use openmk.Prelude.{
  ℕ, zero, suc, ◌+◌, ◌-◌, ◌*◌, ◌/◌, ◌%◌, ◌≡◌, Bool, true, false, not, ◌&&◌, ◌||◌, Option, none,
  some, List, [], ◌∷◌, ◌++◌, length, take, ltb, leb, ◌==◌, if◌then◌else◌, codes, is_whitespace,
  trim,
}
use openmk.Nks.Plid.{Str}
use openmk.Nks.Riff.{same_bytes}
use openmk.Registry.{AuPlugin}

-- The bytes of a character in UTF-8.
unfoldable pub utf8 : ℕ → List ℕ
utf8 c =
    if ltb c 0x80
    then c ∷ []
    else if ltb c 0x800
    then (0xc0 + c / 64) ∷ ((0x80 + c % 64) ∷ [])
    else if ltb c 0x10000
    then (0xe0 + c / 4096) ∷ ((0x80 + c / 64 % 64) ∷ ((0x80 + c % 64) ∷ []))
    else (0xf0 + c / 262144)
      ∷ ((0x80 + c / 4096 % 64) ∷ ((0x80 + c / 64 % 64) ∷ ((0x80 + c % 64) ∷ [])))

-- `as_bytes`
unfoldable pub as_bytes : Str → List ℕ
as_bytes [] = []
as_bytes (c ∷ s) = utf8 c ++ as_bytes s

unfoldable pub be_word : List ℕ → Option ℕ
be_word (a ∷ (b ∷ (c ∷ (d ∷ [])))) = some (a * 16777216 + b * 65536 + c * 256 + d)
be_word _ = none

unfoldable pub fourcc : Str → Option ℕ
fourcc s = be_word (as_bytes s)

-- `lines`: what ends a line is no part of it, and no line follows the last end.
abbrev pub cut_cr : Str → Str
cut_cr [] = []
cut_cr (c ∷ []) = if c == 13 then [] else c ∷ []
cut_cr (c ∷ (d ∷ s)) = c ∷ cut_cr (d ∷ s)

abbrev pub last_line : Str → List Str
last_line [] = []
last_line (c ∷ s) = (c ∷ s) ∷ []

unfoldable pub lines_from : Str → Str → List Str
lines_from line [] = last_line line
lines_from line (c ∷ s) =
    let more = lines_from [] s in
    let longer = lines_from (line ++ c ∷ []) s in if c == 10 then cut_cr line ∷ more else longer

unfoldable pub lines : Str → List Str
lines text = lines_from [] text

abbrev pub push_word : Str → List Str → List Str
push_word [] words = words
push_word (c ∷ w) words = (c ∷ w) ∷ words

-- `split_whitespace`, behind the characters of the word that is being read.
unfoldable pub words_from : Str → Str → List Str
words_from word [] = push_word word []
words_from word (c ∷ s) =
    let next = words_from [] s in
    let longer = words_from (word ++ c ∷ []) s in
    if is_whitespace c then push_word word next else longer

unfoldable pub split_whitespace : Str → List Str
split_whitespace s = words_from [] s

-- `splitn(n + 1, char::is_whitespace).nth(n)`
unfoldable pub splitn_nth : ℕ → Str → Option Str
splitn_nth zero s = some s
splitn_nth (suc n) [] = none
splitn_nth (suc n) (c ∷ s) = splitn_nth (if is_whitespace c then n else suc n) s

-- `split_once(": ")`
abbrev pub before_colon : ℕ → Option (Str × Str) → Option (Str × Str)
before_colon c none = none
before_colon c (some (m, n)) = some (c ∷ m, n)

unfoldable pub split_once : Str → Option (Str × Str)
split_once [] = none
split_once (c ∷ []) = none
split_once (c ∷ (d ∷ s)) =
    let later = split_once (d ∷ s) in
    if (c == 0x3a) && (d == 32) then some ([], s) else before_colon c later

-- The names in the rest of a line: of the manufacturer, and of the plug-in.
unfoldable pub line_names : Str → Option (Str × Str) → Str × Str
line_names rest none = ([], trim rest)
line_names rest (some (m, n)) = (trim m, trim n)

abbrev pub rest_or_empty : Option Str → Str
rest_or_empty none = []
rest_or_empty (some s) = s

unfoldable pub with_codes : Str → Option ℕ → Option ℕ → Option ℕ → Option AuPlugin
with_codes line (some ty) (some subty) (some manu) =
    let rest = rest_or_empty (splitn_nth 3 line) in
    let (manufacturer_name, name) = line_names rest (split_once rest) in
    some (record {
      ty = ty;
      subtype = subty;
      manufacturer = manu;
      name = name;
      manufacturer_name = manufacturer_name;
    })
with_codes line _ _ _ = none

-- A line with its words, of which four are wanted.
unfoldable pub with_words : Str → List Str → Option AuPlugin
with_words line (a ∷ (b ∷ (c ∷ (d ∷ words)))) = with_codes line (fourcc a) (fourcc b) (fourcc c)
with_words line _ = none

abbrev pub is_dashed : Str → Bool
is_dashed line = same_bytes (take 2 line) (codes "--")

abbrev pub is_blank : Str → Bool
is_blank [] = true
is_blank (c ∷ s) = false

-- The body of the loop over the lines, on the trimmed line.
unfoldable pub parse_line : Str → Option AuPlugin
parse_line line =
    if is_blank line || is_dashed line then none else with_words line (split_whitespace line)

abbrev pub push_au : Option AuPlugin → List AuPlugin → List AuPlugin
push_au none out = out
push_au (some a) out = a ∷ out

unfoldable pub parse_lines : List Str → List AuPlugin
parse_lines [] = []
parse_lines (l ∷ ls) = push_au (parse_line (trim l)) (parse_lines ls)

unfoldable pub parse_auval : Str → List AuPlugin
parse_auval text = parse_lines (lines text)

-- `scan_macos` on what `auval -a` prints, if it can be run.
unfoldable pub scan_macos : Option Str → List AuPlugin
scan_macos none = []
scan_macos (some text) = parse_auval text
