-- ===== src/Index/Store/Tags.antt =====
-- What writing the types and the modes of a preset leaves in its tables.
use openmk.Prelude.{
  ℕ, ◌==◌, ◌≡◌, ◌∙◌, refl, ap, sym, Bool, true, false, List, [], ◌∷◌, ◌++◌, append-nil,
  append_assoc, map, if◌then◌else◌, ok,
}
use openmk.Nks.Plid.{Str}
use openmk.Index.Store.{
  NksSummary, delete_types, delete_modes, insert_type, insert_mode, Connection, or_blank, or_nil,
  first, second, insert_types, insert_modes, write_tags,
}
use openmk.Index.Store.Tables.{Views, IsSqlite, IsRow, KeepsIds}

-- The rows of a preset's types.
abbrev pub type_row : List Str → Str × Str
type_row pair = (or_blank (first pair), or_blank (second pair))

abbrev appended : {A : Type 0} → Bool → List A → List A → List A
appended b xs ys = if b then xs ++ ys else xs

appended-cons :
    {A : Type 0} (b : Bool) (xs ys : List A) (y : A)
    → appended b (if b then xs ++ y ∷ [] else xs) ys ≡ appended b xs (y ∷ ys)
appended-cons true xs ys y = append_assoc xs (y ∷ []) ys
appended-cons false xs ys y = refl

appended-nil : {A : Type 0} (b : Bool) (xs : List A) → xs ≡ appended b xs []
appended-nil true xs = sym (append-nil xs)
appended-nil false xs = refl

appended_empty :
    {A : Type 0} (b : Bool) (xs ys : List A)
    → appended b (if b then [] else xs) ys ≡ (if b then ys else xs)
appended_empty true xs ys = refl
appended_empty false xs ys = refl

module _ {Db Error : Type 0} (conn : Connection Db ℕ Error) (v : Views Db)
    (laws : IsSqlite conn v) where
  IsRow-Keeps : (i : ℕ) (db db' : Db) → KeepsIds v db db' → IsRow v i db → IsRow v i db'
  IsRow-Keeps i db db' k (p, e) = (p, k p i e)

  insert_types_lem :
      (i : ℕ) (types : List (List Str)) (db : Db)
      → IsRow v i db
      → (db' : Db) × (insert_types conn i types db ≡ ok db')
        × ((j : ℕ) → v.types_of j db' ≡ appended (i == j) (v.types_of j db) (map type_row types))
        × ((j : ℕ) → v.modes_of j db' ≡ v.modes_of j db)
        × ((j : ℕ) → v.has_text j db' ≡ v.has_text j db)
        × KeepsIds v db db'
  unfolding insert_types
  insert_types_lem i [] db row =
      (db, refl, λ j. appended-nil (i == j) (v.types_of j db), λ j. refl, λ j. refl, λ p k e. e)
  insert_types_lem i (pair ∷ types) db row =
      let w = insert_type i (or_blank (first pair)) (or_blank (second pair)) in
      let (db₁, e₁, (t₁, m₁, x₁, p₁)) = laws.executes w db row in
      let (db₂, e₂, t₂, m₂, x₂, p₂) = insert_types_lem i types db₁ (IsRow-Keeps i db db₁ p₁ row) in
      (
        db₂,
        rw e₁ e₂,
        λ j.
            t₂ j
            ∙ ap (λ rows. appended (i == j) rows (map type_row types)) (t₁ j)
            ∙ appended-cons (i == j) (v.types_of j db) (map type_row types) (type_row pair),
        λ j. m₂ j ∙ m₁ j,
        λ j. x₂ j ∙ x₁ j,
        λ p k e. p₂ p k (p₁ p k e),
      )

  insert_modes_lem :
      (i : ℕ) (modes : List Str) (db : Db)
      → IsRow v i db
      → (db' : Db) × (insert_modes conn i modes db ≡ ok db')
        × ((j : ℕ) → v.types_of j db' ≡ v.types_of j db)
        × ((j : ℕ) → v.modes_of j db' ≡ appended (i == j) (v.modes_of j db) modes)
        × ((j : ℕ) → v.has_text j db' ≡ v.has_text j db)
        × KeepsIds v db db'
  unfolding insert_modes
  insert_modes_lem i [] db row =
      (db, refl, λ j. refl, λ j. appended-nil (i == j) (v.modes_of j db), λ j. refl, λ p k e. e)
  insert_modes_lem i (m ∷ modes) db row =
      let (db₁, e₁, (t₁, m₁, x₁, p₁)) = laws.executes (insert_mode i m) db row in
      let (db₂, e₂, t₂, m₂, x₂, p₂) = insert_modes_lem i modes db₁ (IsRow-Keeps i db db₁ p₁ row) in
      (
        db₂,
        rw e₁ e₂,
        λ j. t₂ j ∙ t₁ j,
        λ j.
            m₂ j
            ∙ ap (λ rows. appended (i == j) rows modes) (m₁ j)
            ∙ appended-cons (i == j) (v.modes_of j db) modes m,
        λ j. x₂ j ∙ x₁ j,
        λ p k e. p₂ p k (p₁ p k e),
      )

  pub write_tags_lem :
      (i : ℕ) (s : NksSummary) (db : Db)
      → IsRow v i db
      → (db' : Db) × (write_tags conn i s db ≡ ok db')
        × ((j : ℕ)
            → v.types_of j db'
              ≡ (if i == j then map type_row (or_nil s.types) else v.types_of j db))
        × ((j : ℕ) → v.modes_of j db' ≡ (if i == j then or_nil s.modes else v.modes_of j db))
        × ((j : ℕ) → v.has_text j db' ≡ v.has_text j db)
        × KeepsIds v db db'
  unfolding write_tags
  write_tags_lem i s db row =
      let (db₁, e₁, (t₁, m₁, x₁, p₁)) = laws.executes (delete_types i) db tt in
      let (db₂, e₂, (t₂, m₂, x₂, p₂)) = laws.executes (delete_modes i) db₁ tt in
      let row₂ = IsRow-Keeps i db₁ db₂ p₂ (IsRow-Keeps i db db₁ p₁ row) in
      let (db₃, e₃, t₃, m₃, x₃, p₃) = insert_types_lem i (or_nil s.types) db₂ row₂ in
      let (db₄, e₄, t₄, m₄, x₄, p₄) =
        insert_modes_lem i (or_nil s.modes) db₃ (IsRow-Keeps i db₂ db₃ p₃ row₂) in
      (
        db₄,
        rw e₁ (rw e₂ (rw e₃ e₄)),
        λ j.
            t₄ j
            ∙ t₃ j
            ∙ ap (λ rows. appended (i == j) rows (map type_row (or_nil s.types))) (t₂ j ∙ t₁ j)
            ∙ appended_empty (i == j) (v.types_of j db) (map type_row (or_nil s.types)),
        λ j.
            m₄ j
            ∙ ap (λ rows. appended (i == j) rows (or_nil s.modes))
                (m₃ j ∙ m₂ j ∙ ap (λ rows. if i == j then [] else rows) (m₁ j))
            ∙ appended_empty (i == j) (v.modes_of j db) (or_nil s.modes),
        λ j. x₄ j ∙ x₃ j ∙ x₂ j ∙ x₁ j,
        λ p k e. p₄ p k (p₃ p k (p₂ p k (p₁ p k e))),
      )
