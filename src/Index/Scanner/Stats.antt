-- ===== src/Index/Scanner/Stats.antt =====
-- What the statistics of a scan count.
use openmk.Prelude.{
  ℕ, ◌+◌, ◌≤◌, ◌≡◌, ◌≢◌, ◌∙◌, refl, Bool, true, false, Option, List, [], ◌∷◌, Outcome, ok, err,
  panic, inl, inr, Bool-cases, if◌then◌else◌, arith,
}
use openmk.Nks.Plid.{Str, vst3, vst2, audio_unit}
use openmk.Nks.Riff.{NksFile}
use openmk.Registry.{from_vst3_uid, from_au, from_vst2}
use openmk.Index.Scanner.{
  ScanStats, ScanStats_default, ReadDir, plugin_key, count_result, is_nksf, visit_file, upsert,
  scan_root,
}
use openmk.Index.Scanner.Visits.{Below, total, walk_root-measure}

-- The key that the index keeps for a plug-in is the one that the registry looks the plug-in up with.
pub plugin_key_lem :
    (a b c d ty subtype manufacturer magic : ℕ) (name : Option Str)
    → (plugin_key (vst3 (a ∷ b ∷ c ∷ d ∷ []) name) ≡ from_vst3_uid a b c d)
      × (plugin_key (audio_unit ty subtype manufacturer name) ≡ from_au ty subtype manufacturer)
      × (plugin_key (vst2 magic) ≡ from_vst2 magic)
unfolding plugin_key
plugin_key_lem a b c d ty subtype manufacturer magic name = (refl, refl, refl)

abbrev pub outcomes : ScanStats → ℕ
outcomes st = st.added + st.updated + st.failed

-- 1 for a preset file, 0 for another.
abbrev pub is_preset : Option Str → ℕ
is_preset extension = if is_nksf extension then 1 else 0

module _ {ℓ} {PathBuf Db Summary : Type 0} {Error : Type ℓ}
    (metadata : PathBuf → Outcome Error (ℕ × ℕ)) (query_row : Db → PathBuf → Option (ℕ × ℕ))
    (scan_file : PathBuf → Outcome Error (NksFile Summary))
    (store : PathBuf → NksFile Summary → Str → ℕ → ℕ → Db → Outcome Error Db)
    (extension : PathBuf → Option Str)
    (no_panic : (p : PathBuf) (db : Db)
      → upsert metadata query_row scan_file store p db ≢ panic) where
  -- What a visit adds to a count: `k` for a preset file, whatever the result of its `upsert` is.
  result_adds :
      (o : Outcome Error (Bool × Db)) (db : Db) (st : ScanStats)
      → o ≢ panic
      → let r = (count_result metadata query_row scan_file store o (db, st)).1 in
        (r.seen ≡ st.seen) × (outcomes r ≡ outcomes st + 1) × (r.skipped ≡ st.skipped)
  unfolding count_result
  result_adds (ok (true, db₁)) db st h = (refl, omega arith, refl)
  result_adds (ok (false, db₁)) db st h = (refl, omega arith, refl)
  result_adds (err e) db st h = (refl, omega arith, refl)
  result_adds panic db st h = absurd (h refl)

  visit_adds :
      (p : PathBuf) (s : Db × ScanStats)
      → let r = (visit_file metadata query_row scan_file store extension p s).1 in
        (r.seen ≡ s.1.seen + is_preset (extension p))
        × (outcomes r ≡ outcomes s.1 + is_preset (extension p))
        × (r.skipped ≡ s.1.skipped)
  unfolding visit_file
  visit_adds p (db, st) = elim (Bool-cases (is_nksf (extension p))) [
    | inl preset ↦
        let (seen, counted, skipped) =
          result_adds (upsert metadata query_row scan_file store p db) db
            (record st { seen = st.seen + 1 }) (no_panic p db) in
        rw preset (seen, counted, skipped)
    | inr other ↦ rw other (omega arith, omega arith, refl)
  ]

  visit_keeps :
      (p : PathBuf) (s : Db × ScanStats)
      → (outcomes s.1 ≡ s.1.seen) × (s.1.skipped ≡ 0)
      → let r = (visit_file metadata query_row scan_file store extension p s).1 in
        (outcomes r ≡ r.seen) × (r.skipped ≡ 0)
  visit_keeps p s (q, k) =
      let (seen, counted, skipped) = visit_adds p s in
      (omega (arith, seen, counted, q), skipped ∙ k)

  -- The scan of a root ends with statistics in which `seen` is the number of preset files below the
  -- root, as many as are counted as added, updated or failed, and none is counted as skipped. Condition:
  -- as for the walk, and indexing a file does not panic.
  pub scan_root_lem :
      (read_dir : PathBuf → ReadDir PathBuf Error) (exists : PathBuf → Bool) (fuel : ℕ)
      (root : PathBuf) (n : ℕ) (fs : List PathBuf) (db : Db)
      → exists root ≡ true
      → Below read_dir root n fs
      → n ≤ fuel
      → (r : Db × ScanStats) × (scan_root metadata query_row scan_file store extension read_dir
            exists fuel root db
          ≡ ok r)
        × (r.1.seen ≡ total (λ p. is_preset (extension p)) fs)
        × (r.1.added + r.1.updated + r.1.failed ≡ r.1.seen)
        × (r.1.skipped ≡ 0)
  unfolding scan_root ScanStats_default
  scan_root_lem read_dir exists fuel root n fs db there b h =
      let (r, e, seen, (counted, skipped)) =
        walk_root-measure read_dir (visit_file metadata query_row scan_file store extension)
          (λ p. is_preset (extension p)) (λ s. s.1.seen) (λ p s. (visit_adds p s).0)
          (λ s. (outcomes s.1 ≡ s.1.seen) × (s.1.skipped ≡ 0)) visit_keeps exists fuel root n fs
          (db, ScanStats_default) there b h (refl, refl) in
      (r, e, omega (arith, seen), counted, skipped)
