-- ===== src/Index/Store/Tests.antt =====
-- Transactions of the index on a small database, in which presets are numbered from 1 on, a new one gets the
-- next number, and a type or a mode needs its preset.
use mathlib.Core.Option.{some-injective, none-ne-some}
use openmk.Prelude.{
  ℕ, ◌+◌, ◌≤◌, ◌<◌, ◌≡◌, ◌∙◌, refl, sym, subst, inl, inr, Bool, true, ◌||◌, ◌&&◌, Option, none,
  some, List, [], ◌∷◌, ◌++◌, map, length, leb, ltb, ◌==◌, ==_iff, if◌then◌else◌, Bool-cases,
  Outcome, ok, err, panic, codes, arith,
}
use openmk.Nks.Plid.{Str, unknown}
use openmk.Nks.Riff.{NksFile, same_bytes}
use openmk.Registry.Keys.{same_bytes_refl}
use openmk.Index.Scanner.{ScanStats_default, visit_file}
use openmk.Index.Store.{
  NksSummary, Write, insert_preset, delete_types, delete_modes, insert_type, insert_mode,
  delete_fts, insert_fts, Connection, or_nil, store,
}
use openmk.Index.Store.Tables.{Views, IsSqlite, IsRow, TextsAreRows, IsAllowed, KeepsIds, Follows}
use openmk.Index.Store.Tags.{type_row}
use openmk.Index.Store.Reindex.{store_lem, visit_file_refused}

record Tables : Type 0 where
  paths : List Str
  types : ℕ → List (Str × Str)
  modes : ℕ → List Str
  texts : ℕ → Bool

-- The number of a path among paths that are numbered from `n` on.
abbrev find_path : Str → ℕ → List Str → Option ℕ
find_path p n [] = none
find_path p n (q ∷ qs) = if same_bytes p q then some n else find_path p (n + 1) qs

abbrev views : Views Tables
views = record {
  row_id = λ p db. find_path p 1 db.paths;
  types_of = λ j db. db.types j;
  modes_of = λ j db. db.modes j;
  has_text = λ j db. db.texts j;
}

abbrev insert_row : Option ℕ → Str → Tables → Tables
insert_row none p db = record db { paths = db.paths ++ p ∷ [] }
insert_row (some i) p db = db

abbrev is_row : ℕ → Tables → Bool
is_row i db = leb 1 i && ltb i (1 + length db.paths)

abbrev run_write : Write ℕ → Tables → Outcome Str Tables
run_write (insert_preset p c r s m) db = ok (insert_row (find_path p 1 db.paths) p db)
run_write (delete_types i) db = ok (record db { types = λ j. if i == j then [] else db.types j })
run_write (delete_modes i) db = ok (record db { modes = λ j. if i == j then [] else db.modes j })
run_write (insert_type i t u) db =
    if is_row i db
    then ok (record db { types = λ j. if i == j then db.types j ++ (t, u) ∷ [] else db.types j })
    else err (codes "FOREIGN KEY constraint failed")
run_write (insert_mode i m) db =
    if is_row i db
    then ok (record db { modes = λ j. if i == j then db.modes j ++ m ∷ [] else db.modes j })
    else err (codes "FOREIGN KEY constraint failed")
run_write (delete_fts i) db =
    if db.texts i then err (codes "cannot DELETE from contentless fts5 table") else ok db
run_write (insert_fts i c) db =
    if db.texts i
    then err (codes "constraint failed")
    else ok (record db { texts = λ j. (i == j) || db.texts j })

abbrev path_error : Option ℕ → Outcome Str ℕ
path_error none = err (codes "Query returned no rows")
path_error (some i) = ok i

abbrev sqlite : Connection Tables ℕ Str
sqlite = record {
  transaction = ok;
  execute = run_write;
  preset_id = λ p db. path_error (find_path p 1 db.paths);
  commit = ok;
}

find_path-bounds :
    (p : Str) (n : ℕ) (qs : List Str) (i : ℕ)
    → find_path p n qs ≡ some i
    → (n ≤ i) × (i < n + length qs)
find_path-bounds p n [] i e = absurd (none-ne-some i e)
find_path-bounds p n (q ∷ qs) i e = elim (Bool-cases (same_bytes p q)) [
  | inl same ↦
      let first : some n ≡ some i = sym (rw same refl) ∙ e in
      let at = some-injective n i first in (omega arith, omega arith)
  | inr other ↦
      let later : find_path p (n + 1) qs ≡ some i = sym (rw other refl) ∙ e in
      let (low, high) = find_path-bounds p (n + 1) qs i later in (omega arith, omega arith)
]

find_path-append :
    (p x : Str) (n : ℕ) (qs : List Str) (i : ℕ)
    → find_path p n qs ≡ some i
    → find_path p n (qs ++ x ∷ []) ≡ some i
find_path-append p x n [] i e = absurd (none-ne-some i e)
find_path-append p x n (q ∷ qs) i e = elim (Bool-cases (same_bytes p q)) [
  | inl same ↦ rw same (sym (rw same refl) ∙ e)
  | inr other ↦ rw other (find_path-append p x (n + 1) qs i (sym (rw other refl) ∙ e))
]

find_path-new :
    (p : Str) (n : ℕ) (qs : List Str)
    → find_path p n qs ≡ none
    → find_path p n (qs ++ p ∷ []) ≡ some (n + length qs)
find_path-new p n [] e = rw (same_bytes_refl p) (grind arith)
find_path-new p n (q ∷ qs) e = elim (Bool-cases (same_bytes p q)) [
  | inl same ↦ absurd (none-ne-some n (sym e ∙ rw same refl))
  | inr other ↦ rw other (find_path-new p (n + 1) qs (sym (rw other refl) ∙ e) ∙ grind arith)
]

is_row-IsRow : (i : ℕ) (db : Tables) → IsRow views i db → is_row i db ≡ true
is_row-IsRow i db (p, e) = let (low, high) = find_path-bounds p 1 db.paths i e in ground arith

insert_row-KeepsIds : (o : Option ℕ) (p : Str) (db : Tables) → KeepsIds views db (insert_row o p db)
insert_row-KeepsIds none p db q i e = find_path-append q p 1 db.paths i e
insert_row-KeepsIds (some k) p db q i e = e

executes :
    (w : Write ℕ) (db : Tables)
    → IsAllowed views w db
    → (db' : Tables) × (run_write w db ≡ ok db') × Follows views w db db'
executes (insert_preset p c r s m) db h =
    let o = find_path p 1 db.paths in
    (_, refl, (kept_types o p db, kept_modes o p db, kept_texts o p db, insert_row-KeepsIds o p db))
  where
    kept_types :
        (o : Option ℕ) (p : Str) (db : Tables) (j : ℕ) → (insert_row o p db).types j ≡ db.types j
    kept_types none p db j = refl
    kept_types (some k) p db j = refl

    kept_modes :
        (o : Option ℕ) (p : Str) (db : Tables) (j : ℕ) → (insert_row o p db).modes j ≡ db.modes j
    kept_modes none p db j = refl
    kept_modes (some k) p db j = refl

    kept_texts :
        (o : Option ℕ) (p : Str) (db : Tables) (j : ℕ) → (insert_row o p db).texts j ≡ db.texts j
    kept_texts none p db j = refl
    kept_texts (some k) p db j = refl
executes (delete_types i) db h = (_, refl, (λ j. refl, λ j. refl, λ j. refl, λ q k e. e))
executes (delete_modes i) db h = (_, refl, (λ j. refl, λ j. refl, λ j. refl, λ q k e. e))
executes (insert_type i t u) db h =
    (_, rw (is_row-IsRow i db h) refl, (λ j. refl, λ j. refl, λ j. refl, λ q k e. e))
executes (insert_mode i m) db h =
    (_, rw (is_row-IsRow i db h) refl, (λ j. refl, λ j. refl, λ j. refl, λ q k e. e))
executes (delete_fts i) db h = (db, rw h refl, (λ j. refl, λ j. refl, λ j. refl, λ q k e. e))
executes (insert_fts i c) db h = (_, rw h refl, (λ j. refl, λ j. refl, λ j. refl, λ q k e. e))

-- What holds of the tables that a statement leaves.
abbrev Leaves : (Tables → Type 0) → Outcome Str Tables → Type 0
Leaves P (ok db) = P db
Leaves P (err e) = Unit
Leaves P panic = Unit

insert_row_lem :
    (o : Option ℕ) (p : Str) (db : Tables)
    → find_path p 1 db.paths ≡ o
    → (i : ℕ) × (find_path p 1 (insert_row o p db).paths ≡ some i)
      × (IsRow views i db → find_path p 1 db.paths ≡ some i)
insert_row_lem none p db e = (
  1 + length db.paths,
  find_path-new p 1 db.paths e,
  λ r.
      let bounds = find_path-bounds r.0 1 db.paths (1 + length db.paths) r.1 in
      absurd (omega arith),
)
insert_row_lem (some k) p db e = (k, e, λ r. e)

sqlite-IsSqlite : IsSqlite sqlite views
sqlite-IsSqlite = record {
  begins = λ db. (db, refl, (λ j. refl, λ j. refl, λ j. refl, λ q. refl));
  commits = λ db. (db, refl, (λ j. refl, λ j. refl, λ j. refl, λ q. refl));
  executes = executes;
  refuses = λ i db h. (codes "cannot DELETE from contentless fts5 table", rw h refl);
  inserts = λ p c r s m db db' e.
      subst
        (Leaves (λ d.
          (i : ℕ) × (find_path p 1 d.paths ≡ some i)
          × (IsRow views i db → find_path p 1 db.paths ≡ some i)))
        e (insert_row_lem (find_path p 1 db.paths) p db refl);
  finds = λ p i db e. rw e refl;
}

abbrev bell : NksFile NksSummary
bell = record {
  summary = record {
    author = none;
    vendor = some (codes "NI");
    comment = none;
    name = some (codes "Bell");
    bankchain = none;
    types = some ((codes "Synth" ∷ (codes "Bell" ∷ [])) ∷ ((codes "Lead" ∷ []) ∷ []));
    modes = some (codes "Long" ∷ []);
    device_type = none;
    uuid = none;
  };
  plugin = unknown;
  controller = none;
  pchk_offset = 0;
  pchk_len = 0;
}

-- Preset 2 is in the full-text table, and any preset has an old type.
abbrev tables : Tables
tables = record {
  paths = codes "x" ∷ (codes "abc" ∷ []);
  types = λ j. (codes "Old", []) ∷ [];
  modes = λ j. [];
  texts = λ j. j == 2;
}

tables-TextsAreRows : TextsAreRows views tables
tables-TextsAreRows i h =
    subst (λ k. IsRow views k tables) (sym ((==_iff i 2).0 h)) (codes "abc", refl)

-- A new preset, which gets the number 3.
store_lem_example :
    (db' : Tables) × (i : ℕ) × (store sqlite (codes "ab") bell (codes "unknown") 7 8 tables
      ≡ ok db')
    × (find_path (codes "ab") 1 db'.paths ≡ some i)
    × KeepsIds views tables db'
    × ((j : ℕ)
        → db'.types j
          ≡ (if i == j then map type_row (or_nil bell.summary.types) else tables.types j))
    × ((j : ℕ) → db'.modes j ≡ (if i == j then or_nil bell.summary.modes else tables.modes j))
    × ((j : ℕ) → db'.texts j ≡ ((i == j) || tables.texts j))
    × TextsAreRows views db'
store_lem_example =
    store_lem sqlite views sqlite-IsSqlite (codes "ab") bell (codes "unknown") 7 8 tables
      tables-TextsAreRows (λ i e. absurd (none-ne-some i e))

visit_file_refused_example :
    visit_file
      (λ p. ok (8, 100))
      (λ db p. some (7, 100))
      (λ p. ok bell)
      (λ p. store sqlite p)
      (λ p. some (codes "nksf"))
      (codes "abc")
      (tables, ScanStats_default)
    ≡ (
      tables,
      record ScanStats_default {
        seen = ScanStats_default.seen + 1;
        failed = ScanStats_default.failed + 1;
      },
    )
visit_file_refused_example =
    visit_file_refused sqlite views sqlite-IsSqlite (λ p. ok (8, 100)) (λ db p. some (7, 100))
      (λ p. ok bell) (λ p. p) (λ p. some (codes "nksf")) (codes "abc") 2 8 100 bell tables
      ScanStats_default refl refl refl refl refl refl
