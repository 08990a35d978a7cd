-- ===== src/Daemon/Manager/Sharing.antt =====
-- Which loads share a session.
use openmk.Prelude.{
  ℕ, ◌+◌, ◌<◌, ◌≡◌, ◌↔◌, ◌⊎◌, ◌∙◌, refl, ap, sym, inl, inr, Bool, true, false, Option, none, some,
  List, [], ◌∷◌, map_get, map_insert, get_same, get_removed, if◌then◌else◌, if_true, if_false,
  Bool-cases, Option-cases, arith,
}
use mathlib.Core.Option.{none-ne-some, some-injective}
use openmk.Daemon.Manager.{
  SessionManager, SessionManager_new, spawn_session, found_session, load_session,
}

module _ {PathBuf : Type 0} (same_path : PathBuf → PathBuf → Bool)
    (same_refl : (a : PathBuf) → same_path a a ≡ true)
    (same_sym : (a b : PathBuf) → same_path a b ≡ true → same_path b a ≡ true)
    (same_trans : (a b c : PathBuf)
      → same_path a b ≡ true
      → same_path b c ≡ true
      → same_path a c ≡ true) where
  -- The manager after loads of bundles, each with whether a host starts.
  unfoldable pub run_loads : List (Bool × PathBuf) → SessionManager PathBuf → SessionManager PathBuf
  run_loads [] m = m
  run_loads ((starts, bundle) ∷ loads) m =
      run_loads loads (load_session same_path starts bundle m).1

  abbrev session_of : SessionManager PathBuf → PathBuf → Option ℕ
  session_of m a = map_get same_path a m.by_bundle

  -- Sessions are numbers of spawned hosts, one for each bundle.
  record IsManaged (m : SessionManager PathBuf) : Type 0 where
    spawned_before : (a : PathBuf) (i : ℕ) → session_of m a ≡ some i → i < m.spawned
    one_bundle :
        (a b : PathBuf) (i : ℕ)
        → session_of m a ≡ some i
        → session_of m b ≡ some i
        → same_path a b ≡ true

  -- What a load does: the bundle has its session then, if it succeeds, and the others keep theirs.
  record Loads (bundle : PathBuf) (m : SessionManager PathBuf)
      (r : Option ℕ × SessionManager PathBuf) : Type 0 where
    managed : IsManaged r.1
    session : (i : ℕ) → r.0 ≡ some i → session_of r.1 bundle ≡ some i
    kept : (a : PathBuf) (i : ℕ) → session_of m a ≡ some i → session_of r.1 a ≡ some i

  found-Loads :
      (i : ℕ) (bundle : PathBuf) (m : SessionManager PathBuf)
      → IsManaged m
      → session_of m bundle ≡ some i
      → Loads bundle m (some i, m)
  found-Loads i bundle m v e = record {
    managed = v;
    session = λ j f. e ∙ ap some (some-injective i j f);
    kept = λ a j f. f;
  }

  -- The manager after a new host.
  abbrev with_session : PathBuf → SessionManager PathBuf → SessionManager PathBuf
  with_session bundle m = record {
    by_bundle = map_insert same_path bundle m.spawned m.by_bundle;
    spawned = m.spawned + 1;
  }

  session_of-new :
      (bundle a : PathBuf) (m : SessionManager PathBuf)
      → session_of (with_session bundle m) a
        ≡ (if same_path bundle a then some m.spawned else session_of m a)
  session_of-new bundle a m = elim (Bool-cases (same_path bundle a)) [
    | inl same ↦ rw same refl
    | inr other ↦
        rw (other, get_removed same_path same_refl same_sym same_trans a bundle m.by_bundle other)
          refl
  ]

  -- A session of the manager after a new host is the new one, or one from before.
  new_or_old :
      (bundle a : PathBuf) (i : ℕ) (m : SessionManager PathBuf)
      → session_of (with_session bundle m) a ≡ some i
      → ((same_path bundle a ≡ true) × (i ≡ m.spawned))
        ⊎ ((same_path bundle a ≡ false) × (session_of m a ≡ some i))
  new_or_old bundle a i m e = elim (Bool-cases (same_path bundle a)) [
    | inl same ↦
        inl (
          same,
          some-injective i m.spawned (sym e ∙ session_of-new bundle a m ∙ if_true _ _ _ same),
        )
    | inr other ↦ inr (other, sym (if_false _ _ _ other) ∙ sym (session_of-new bundle a m) ∙ e)
  ]

  new-IsManaged :
      (bundle : PathBuf) (m : SessionManager PathBuf)
      → IsManaged m
      → IsManaged (with_session bundle m)
  new-IsManaged bundle m v = record {
    spawned_before = λ a i e. elim (new_or_old bundle a i m e) [
      | inl (same, new) ↦ omega arith
      | inr (other, old) ↦ omega (arith, v.spawned_before a i old)
    ];
    one_bundle = λ a b i e f. elim (new_or_old bundle a i m e) [
      | inl (same, new) ↦ elim (new_or_old bundle b i m f) [
        | inl (same', new') ↦ same_trans a bundle b (same_sym bundle a same) same'
        | inr (other', old') ↦ absurd (omega (arith, new, v.spawned_before b i old'))
      ]
      | inr (other, old) ↦ elim (new_or_old bundle b i m f) [
        | inl (same', new') ↦ absurd (omega (arith, new', v.spawned_before a i old))
        | inr (other', old') ↦ v.one_bundle a b i old old'
      ]
    ];
  }

  spawn_session-Loads :
      (starts : Bool) (bundle : PathBuf) (m : SessionManager PathBuf)
      → IsManaged m
      → session_of m bundle ≡ none
      → Loads bundle m (spawn_session same_path starts bundle m)
  unfolding spawn_session
  spawn_session-Loads false bundle m v e = record {
    managed = v;
    session = λ i f. absurd (none-ne-some i f);
    kept = λ a i f. f;
  }
  spawn_session-Loads true bundle m v e = record {
    managed = new-IsManaged bundle m v;
    session = λ i f. session_of-new bundle bundle m ∙ if_true _ _ _ (same_refl bundle) ∙ f;
    kept = λ a i f. elim (Bool-cases (same_path bundle a)) [
      | inl same ↦ absurd (
          none-ne-some i (
            sym e ∙ get_same same_path same_refl same_sym same_trans bundle a m.by_bundle same ∙ f))
      | inr other ↦ session_of-new bundle a m ∙ if_false _ _ _ other ∙ f
    ];
  }

  load_session-Loads :
      (starts : Bool) (bundle : PathBuf) (m : SessionManager PathBuf)
      → IsManaged m
      → Loads bundle m (load_session same_path starts bundle m)
  unfolding load_session found_session
  load_session-Loads starts bundle m v =
      elim (Option-cases (map_get same_path bundle m.by_bundle)) [
        | inl e ↦ rw e (spawn_session-Loads starts bundle m v e)
        | inr (i, e) ↦ rw e (found-Loads i bundle m v e)
      ]

  run_loads-Loads :
      (loads : List (Bool × PathBuf)) (m : SessionManager PathBuf)
      → IsManaged m
      → IsManaged (run_loads loads m)
        × ((a : PathBuf) (i : ℕ)
            → session_of m a ≡ some i
            → session_of (run_loads loads m) a ≡ some i)
  unfolding run_loads
  run_loads-Loads [] m v = (v, λ a i e. e)
  run_loads-Loads ((starts, bundle) ∷ loads) m v =
      let r = load_session-Loads starts bundle m v in
      let (managed, kept) =
        run_loads-Loads loads (load_session same_path starts bundle m).1 r.managed in
      (managed, λ a i e. kept a i (r.kept a i e))

  SessionManager_new-IsManaged : IsManaged (SessionManager_new same_path)
  unfolding SessionManager_new
  SessionManager_new-IsManaged = record {
    spawned_before = λ a i e. absurd (none-ne-some i e);
    one_bundle = λ a b i e f. absurd (none-ne-some i e);
  }

  -- Whatever loads came before and between them, two loads that succeed get the same session exactly if
  -- their bundles are the same path. Condition: the equality of paths is an equivalence.
  pub load_session-same :
      (before between : List (Bool × PathBuf)) (starts starts' : Bool) (a b : PathBuf) (i j : ℕ)
      → (load_session same_path starts a (run_loads before (SessionManager_new same_path))).0
        ≡ some i
      → (load_session same_path starts' b (
          run_loads between
            (load_session same_path starts a
              (run_loads before (SessionManager_new same_path))).1)).0
        ≡ some j
      → (i ≡ j) ↔ (same_path a b ≡ true)
  load_session-same before between starts starts' a b i j e f =
      let m₁ : SessionManager PathBuf = run_loads before (SessionManager_new same_path) in
      let first =
        load_session-Loads starts a m₁ (run_loads-Loads before _ SessionManager_new-IsManaged).0 in
      let m₂ : SessionManager PathBuf = run_loads between (load_session same_path starts a m₁).1 in
      let (managed, kept) =
        run_loads-Loads between (load_session same_path starts a m₁).1 first.managed in
      let second = load_session-Loads starts' b m₂ managed in
      let at_a = second.kept a i (kept a i (first.session i e)) in
      let at_b = second.session j f in
      (
        λ same. second.managed.one_bundle a b j (at_a ∙ ap some same) at_b,
        λ same.
            some-injective i j
              (sym at_a ∙ get_same same_path same_refl same_sym same_trans a b _ same ∙ at_b),
      )
