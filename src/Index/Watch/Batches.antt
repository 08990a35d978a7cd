-- ===== src/Index/Watch/Batches.antt =====
-- What the batches of the watcher hold.
use openmk.Prelude.{
  ℕ, ◌≡◌, ◌∙◌, refl, ap, sym, inl, inr, ◌&&◌, not, Option, List, [], ◌∷◌, ◌++◌, append_assoc,
  append-nil, if◌then◌else◌, Bool-cases,
}
use openmk.Nks.Plid.{Str}
use openmk.Index.Watch.{
  Received, event, failed, timed_out, disconnected, Watch, is_change, is_due, is_nil,
  is_interesting, push_interesting, on_event, on_timeout, watch_loop,
}

abbrev pub joined {ℓ} : {A : Type ℓ} → List (List A) → List A
joined [] = []
joined (xs ∷ xss) = xs ++ joined xss

joined-append {ℓ} :
    {A : Type ℓ} (xss yss : List (List A)) → joined (xss ++ yss) ≡ joined xss ++ joined yss
joined-append [] yss = refl
joined-append (xs ∷ xss) yss =
    ap (λ ys. xs ++ ys) (joined-append xss yss) ∙ sym (append_assoc xs (joined xss) (joined yss))

module _ {PathBuf : Type 0} (extension : PathBuf → Option Str) where
  -- The preset files among some paths.
  abbrev pub interesting : List PathBuf → List PathBuf
  interesting [] = []
  interesting (p ∷ ps) = if is_interesting extension p then p ∷ interesting ps else interesting ps

  pub push_interesting_lem :
      (ps pending : List PathBuf)
      → push_interesting extension ps pending ≡ pending ++ interesting ps
  unfolding push_interesting
  push_interesting_lem [] pending = sym (append-nil pending)
  push_interesting_lem (p ∷ ps) pending = elim (Bool-cases (is_interesting extension p)) [
    | inl kept ↦ rw kept (
        push_interesting_lem ps (pending ++ p ∷ [])
        ∙ append_assoc pending (p ∷ []) (interesting ps))
    | inr skipped ↦ rw skipped (push_interesting_lem ps pending)
  ]

  -- The preset files that the changes report, until the channel is disconnected.
  abbrev pub reported : List (Received PathBuf × ℕ) → List PathBuf
  reported [] = []
  reported ((event kind paths, now) ∷ rs) =
      if is_change kind then interesting paths ++ reported rs else reported rs
  reported ((failed, now) ∷ rs) = reported rs
  reported ((timed_out, now) ∷ rs) = reported rs
  reported ((disconnected, now) ∷ rs) = []

  joined-on_timeout :
      (now : ℕ) (s : Watch PathBuf)
      → joined (on_timeout now s).0 ++ (on_timeout now s).1.pending ≡ s.pending
  unfolding on_timeout
  joined-on_timeout now s = elim (Bool-cases (not (is_nil s.pending) && is_due s.deadline now)) [
    | inl due ↦ rw due (append-nil (s.pending ++ []) ∙ append-nil s.pending)
    | inr not_due ↦ rw not_due refl
  ]

  -- The batches in order, and then what is pending, are what was pending and then the preset files that
  -- the changes report, each as often and in the same order: no path is lost, repeated or moved by the
  -- batching, whenever the answers come.
  pub joined-watch_loop :
      (debounce : ℕ) (rs : List (Received PathBuf × ℕ)) (s : Watch PathBuf)
      → joined (watch_loop extension debounce rs s).0
          ++ (watch_loop extension debounce rs s).1.pending
        ≡ s.pending ++ reported rs
  unfolding watch_loop
  joined-watch_loop debounce [] s = sym (append-nil s.pending)
  joined-watch_loop debounce ((event kind paths, now) ∷ rs) s =
      joined-watch_loop debounce rs (on_event extension debounce kind paths now s)
      ∙ elim (Bool-cases (is_change kind)) [
        | inl change ↦
            unfold on_event in
            rw change (
              rw (push_interesting_lem paths s.pending)
                (append_assoc s.pending (interesting paths) (reported rs)))
        | inr same ↦ unfold on_event in rw same refl
      ]
  joined-watch_loop debounce ((failed, now) ∷ rs) s = joined-watch_loop debounce rs s
  joined-watch_loop debounce ((timed_out, now) ∷ rs) s =
      let (batches, s₁) = on_timeout now s in
      ap (λ ps. ps ++ (watch_loop extension debounce rs s₁).1.pending)
        (joined-append batches (watch_loop extension debounce rs s₁).0)
      ∙ append_assoc (joined batches) (joined (watch_loop extension debounce rs s₁).0)
          (watch_loop extension debounce rs s₁).1.pending
      ∙ ap (λ ps. joined batches ++ ps) (joined-watch_loop debounce rs s₁)
      ∙ sym (append_assoc (joined batches) s₁.pending (reported rs))
      ∙ ap (λ ps. ps ++ reported rs) (joined-on_timeout now s)
  joined-watch_loop debounce ((disconnected, now) ∷ rs) s = sym (append-nil s.pending)
