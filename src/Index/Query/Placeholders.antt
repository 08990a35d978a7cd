-- ===== src/Index/Query/Placeholders.antt =====
-- The arguments of a statement.
use openmk.Prelude.{
  ℕ, ◌+◌, ◌≡◌, refl, Option, none, some, List, [], ◌∷◌, ◌++◌, codes, digits, decimal,
}
use openmk.Nks.Plid.{Str}
use openmk.Index.Query.{Query, new_statement, add_filter, add_type, add_text, add_vendor, filters}

-- The filters that a query sets, each with the clause without its number and with its argument.
abbrev type_column : Option Str → List (Str × Str)
type_column none = []
type_column (some t) = (codes "pt.type = ?", t) ∷ []

abbrev text_column : Option Str → List (Str × Str)
text_column none = []
text_column (some []) = []
text_column (some (c ∷ text)) = (codes "presets_fts MATCH ?", c ∷ text) ∷ []

abbrev vendor_column : Option Str → List (Str × Str)
vendor_column none = []
vendor_column (some v) = (codes "p.vendor = ?", v) ∷ []

abbrev pub columns : Query → List (Str × Str)
columns q = type_column q.type_filter ++ (text_column q.text ++ vendor_column q.vendor)

-- The clauses, numbered from `i` on.
abbrev pub numbered : ℕ → List (Str × Str) → List Str
numbered i [] = []
numbered i ((clause, arg) ∷ later) = (clause ++ decimal i) ∷ numbered (i + 1) later

abbrev pub arguments : List (Str × Str) → List Str
arguments [] = []
arguments ((clause, arg) ∷ later) = arg ∷ arguments later

-- Each filter that a query sets, an empty text not, has one clause and one argument, in the same order,
-- and the number in a clause is the place of its argument, from 1 on.
pub filters_lem :
    (q : Query)
    → ((filters q).where_clauses ≡ numbered 1 (columns q))
      × ((filters q).args ≡ arguments (columns q))
unfolding filters add_type add_text add_vendor add_filter new_statement decimal digits
filters_lem q = by_filters q.type_filter q.text q.vendor
  where
    by_filters :
        (t text v : Option Str)
        → ((add_vendor v (add_text text (add_type t new_statement))).where_clauses
            ≡ numbered 1 (type_column t ++ (text_column text ++ vendor_column v)))
          × ((add_vendor v (add_text text (add_type t new_statement))).args
              ≡ arguments (type_column t ++ (text_column text ++ vendor_column v)))
    by_filters none none none = (refl, refl)
    by_filters none none (some v) = (refl, refl)
    by_filters none (some []) none = (refl, refl)
    by_filters none (some []) (some v) = (refl, refl)
    by_filters none (some (c ∷ text)) none = (refl, refl)
    by_filters none (some (c ∷ text)) (some v) = (refl, refl)
    by_filters (some t) none none = (refl, refl)
    by_filters (some t) none (some v) = (refl, refl)
    by_filters (some t) (some []) none = (refl, refl)
    by_filters (some t) (some []) (some v) = (refl, refl)
    by_filters (some t) (some (c ∷ text)) none = (refl, refl)
    by_filters (some t) (some (c ∷ text)) (some v) = (refl, refl)
