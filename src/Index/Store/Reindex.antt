-- ===== src/Index/Store/Reindex.antt =====
-- What the transaction leaves in the tables of a new preset, and what it comes to when a preset is indexed
-- again.
use openmk.Prelude.{
  ℕ, some, ◌==◌, ==_iff, Bool-cases, inl, inr, subst, arith, ◌+◌, ◌≡◌, ◌∙◌, refl, ap, sym, true,
  false, ◌||◌, Option, map, if◌then◌else◌, Outcome, ok, err,
}
use openmk.Nks.Plid.{Str}
use openmk.Nks.Riff.{NksFile}
use openmk.Index.Scanner.{
  ScanStats, is_nksf, unchanged, plugin_key, index_file, upsert, count_result, visit_file,
}
use openmk.Index.Store.{
  NksSummary, insert_preset, delete_fts, insert_fts, Connection, or_nil, columns_of, write_text,
  store,
}
use openmk.Index.Store.Tags.{type_row, write_tags_lem}
use openmk.Index.Store.Tables.{Views, IsSqlite, IsRow, TextsAreRows, IsUntexted, KeepsIds}

module _ {Db Error : Type 0} (conn : Connection Db ℕ Error) (v : Views Db)
    (laws : IsSqlite conn v) where
  -- The preset that the INSERT leaves at the path has no text, if only presets have texts and the path's
  -- preset, if there was one, had none.
  untexted :
      (path : Str) (i : ℕ) (db : Db)
      → (IsRow v i db → v.row_id path db ≡ some i)
      → TextsAreRows v db
      → IsUntexted v path db
      → v.has_text i db ≡ false
  untexted path i db owned rows fresh = elim (Bool-cases (v.has_text i db)) [
    | inl texted ↦ fresh i (owned (rows i texted))
    | inr none_there ↦ none_there
  ]

  texts_after :
      (path : Str) (i : ℕ) (db db' : Db)
      → TextsAreRows v db
      → KeepsIds v db db'
      → v.row_id path db' ≡ some i
      → ((j : ℕ) → v.has_text j db' ≡ ((i == j) || v.has_text j db))
      → TextsAreRows v db'
  texts_after path i db db' rows keeps found texts j h = elim (Bool-cases (i == j)) [
    | inl same ↦ subst (λ k. IsRow v k db') ((==_iff i j).0 same) (path, found)
    | inr other ↦
        let before : v.has_text j db ≡ true = ground (arith, texts j) in
        let (p, e) = rows j before in (p, keeps p j e)
  ]

  -- The transaction of a preset whose text is not in the full-text table succeeds: afterwards the path has
  -- an id, which is the one that it had before if it had one, as have all paths; the preset with that id
  -- has just the types and the modes of the file, in the order of the file, whatever it had before, and
  -- its text is in the table; no other preset's types, modes or text change. Conditions: the database
  -- does what SQLite documents, only presets have texts, which holds again afterwards, and the path's
  -- preset, if there is one, has no text yet.
  pub store_lem :
      (path : Str) (nks : NksFile NksSummary) (key : Str) (mtime_ns size : ℕ) (db : Db)
      → TextsAreRows v db
      → IsUntexted v path db
      → (db' : Db) × (i : ℕ) × (store conn path nks key mtime_ns size db ≡ ok db')
        × (v.row_id path db' ≡ some i)
        × KeepsIds v db db'
        × ((j : ℕ)
            → v.types_of j db'
              ≡ (if i == j then map type_row (or_nil nks.summary.types) else v.types_of j db))
        × ((j : ℕ)
            → v.modes_of j db' ≡ (if i == j then or_nil nks.summary.modes else v.modes_of j db))
        × ((j : ℕ) → v.has_text j db' ≡ ((i == j) || v.has_text j db))
        × TextsAreRows v db'
  unfolding store write_text
  store_lem path nks key mtime_ns size db rows fresh =
      let c = columns_of nks.summary in
      let (db₀, e₀, (t₀, m₀, x₀, p₀)) = laws.begins db in
      let (db₁, e₁, (t₁, m₁, x₁, p₁)) =
        laws.executes (insert_preset path c key size mtime_ns) db₀ tt in
      let (i, at₁, owned) = laws.inserts path c key size mtime_ns db₀ db₁ e₁ in
      let found = laws.finds path i db₁ at₁ in
      let (db₂, e₂, t₂, m₂, x₂, p₂) = write_tags_lem conn v laws i nks.summary db₁ (path, at₁) in
      let empty = untexted path i db (λ r. sym (p₀ path) ∙ owned (r.0, p₀ r.0 ∙ r.1)) rows fresh in
      let absent = x₂ i ∙ x₁ i ∙ x₀ i ∙ empty in
      let (db₃, e₃, (t₃, m₃, x₃, p₃)) = laws.executes (delete_fts i) db₂ absent in
      let (db₄, e₄, (t₄, m₄, x₄, p₄)) = laws.executes (insert_fts i c) db₃ (x₃ i ∙ absent) in
      let (db₅, e₅, (t₅, m₅, x₅, p₅)) = laws.commits db₄ in
      let later : KeepsIds v db₁ db₅ = λ p k e. p₅ p ∙ p₄ p k (p₃ p k (p₂ p k e)) in
      let keeps : KeepsIds v db db₅ = λ p k e. later p k (p₁ p k (p₀ p ∙ e)) in
      let texts : (j : ℕ) → v.has_text j db₅ ≡ ((i == j) || v.has_text j db) =
        λ j. x₅ j ∙ x₄ j ∙ ap (λ b. (i == j) || b) (x₃ j ∙ x₂ j ∙ x₁ j ∙ x₀ j) in
      (
        db₅,
        i,
        rw e₀ (rw e₁ (rw found (rw e₂ (rw e₃ (rw e₄ e₅))))),
        later path i at₁,
        keeps,
        λ j.
            t₅ j
            ∙ t₄ j
            ∙ t₃ j
            ∙ t₂ j
            ∙ ap (λ rows. if i == j then map type_row (or_nil nks.summary.types) else rows)
                (t₁ j ∙ t₀ j),
        λ j.
            m₅ j
            ∙ m₄ j
            ∙ m₃ j
            ∙ m₂ j
            ∙ ap (λ rows. if i == j then or_nil nks.summary.modes else rows) (m₁ j ∙ m₀ j),
        texts,
        texts_after path i db db₅ rows keeps (later path i at₁) texts,
      )

  -- The transaction of a preset whose text is in the full-text table fails, whatever the file holds.
  store_refused :
      (path : Str) (i : ℕ) (nks : NksFile NksSummary) (key : Str) (mtime_ns size : ℕ) (db : Db)
      → v.row_id path db ≡ some i
      → v.has_text i db ≡ true
      → (e : Error) × (store conn path nks key mtime_ns size db ≡ err e)
  unfolding store write_text
  store_refused path i nks key mtime_ns size db row indexed =
      let c = columns_of nks.summary in
      let (db₀, e₀, (t₀, m₀, x₀, p₀)) = laws.begins db in
      let (db₁, e₁, (t₁, m₁, x₁, p₁)) =
        laws.executes (insert_preset path c key size mtime_ns) db₀ tt in
      let at₁ = p₁ path i (p₀ path ∙ row) in
      let found = laws.finds path i db₁ at₁ in
      let (db₂, e₂, t₂, m₂, x₂, p₂) = write_tags_lem conn v laws i nks.summary db₁ (path, at₁) in
      let (e, refused) = laws.refuses i db₂ (x₂ i ∙ x₁ i ∙ x₀ i ∙ indexed) in
      (e, rw e₀ (rw e₁ (rw found (rw e₂ (rw refused refl)))))

  -- A preset file that has changed since it was indexed is not indexed anew: when the scan visits it, the
  -- transaction fails at the DELETE of its text, the file is counted as failed, and the database stays as
  -- it was. Conditions: the database does what SQLite documents, which refuses the DELETE of a text that
  -- a full-text table without content has; the file's time or size differs from the index's, the file can
  -- be read, and the text of the path's preset is in the table.
  pub visit_file_refused :
      {PathBuf : Type 0} (metadata : PathBuf → Outcome Error (ℕ × ℕ))
      (query_row : Db → PathBuf → Option (ℕ × ℕ))
      (scan_file : PathBuf → Outcome Error (NksFile NksSummary)) (to_string_lossy : PathBuf → Str)
      (extension : PathBuf → Option Str) (p : PathBuf) (i mtime_ns size : ℕ)
      (nks : NksFile NksSummary) (db : Db) (st : ScanStats)
      → is_nksf (extension p) ≡ true
      → metadata p ≡ ok (mtime_ns, size)
      → unchanged (query_row db p) mtime_ns size ≡ false
      → scan_file p ≡ ok nks
      → v.row_id (to_string_lossy p) db ≡ some i
      → v.has_text i db ≡ true
      → visit_file metadata query_row scan_file
          (λ path. store conn (to_string_lossy path))
          extension
          p
          (db, st)
        ≡ (db, record st { seen = st.seen + 1; failed = st.failed + 1 })
  unfolding visit_file upsert index_file count_result
  visit_file_refused metadata query_row scan_file to_string_lossy extension p i mtime_ns size nks db
        st preset read changed parsed row indexed =
      let (e, refused) =
        store_refused (to_string_lossy p) i nks (plugin_key nks.plugin) mtime_ns size db row
          indexed in
      rw (preset, read, changed, parsed) (rw refused refl)
