-- ===== src/Index/Watch/Deadlines.antt =====
-- When the watcher hands on its batches.
use openmk.Prelude.{
  ℕ, ◌+◌, ◌-◌, ◌≤◌, ◌<◌, ◌≡◌, ◌∙◌, refl, ap, sym, subst, inl, inr, Bool, true, false, ◌&&◌, not,
  Option, some, List, [], ◌∷◌, ◌++◌, append_assoc, map, All, leb, Bool-cases, arith,
}
use openmk.Nks.Plid.{Str}
use openmk.Index.Watch.{
  EventKind, Received, event, failed, timed_out, disconnected, Watch, initial, is_change, timeout,
  is_due, is_nil, on_event, on_timeout, watch_loop,
}
use openmk.Index.Watch.Batches.{interesting, push_interesting_lem}

-- Pending files have a deadline, and it is at most `latest`.
abbrev IsArmed : {PathBuf : Type 0} → ℕ → Watch PathBuf → Type 0
IsArmed latest s = is_nil s.pending ≡ false → (d : ℕ) × (s.deadline ≡ some d) × (d ≤ latest)

-- There is a deadline, and it is at least `earliest`.
abbrev IsHeld : {PathBuf : Type 0} → ℕ → Watch PathBuf → Type 0
IsHeld earliest s = (d : ℕ) × (s.deadline ≡ some d) × (earliest ≤ d)

-- The channel answers, be it with a timeout.
abbrev pub is_connected : {PathBuf : Type 0} → Received PathBuf → Bool
is_connected (event kind paths) = true
is_connected failed = true
is_connected timed_out = true
is_connected disconnected = false

module _ {PathBuf : Type 0} (extension : PathBuf → Option Str) where
  on_timeout-IsArmed :
      (latest now : ℕ) (s : Watch PathBuf) → IsArmed latest s → IsArmed latest (on_timeout now s).1
  unfolding on_timeout
  on_timeout-IsArmed latest now s h =
      elim (Bool-cases (not (is_nil s.pending) && is_due s.deadline now)) [
        | inl due ↦ rw due (λ filled. absurd (ground (arith, filled)))
        | inr not_due ↦ rw not_due h
      ]

  on_event-IsArmed :
      (debounce latest : ℕ) (kind : EventKind) (paths : List PathBuf) (now : ℕ) (s : Watch PathBuf)
      → now ≤ latest
      → IsArmed (latest + debounce) s
      → IsArmed (latest + debounce) (on_event extension debounce kind paths now s)
  unfolding on_event
  on_event-IsArmed debounce latest kind paths now s le h = elim (Bool-cases (is_change kind)) [
    | inl change ↦ rw change (λ filled. (now + debounce, refl, omega arith))
    | inr same ↦ rw same h
  ]

  watch_loop-IsArmed :
      (debounce latest : ℕ) (rs : List (Received PathBuf × ℕ)) (s : Watch PathBuf)
      → All (λ r. r.1 ≤ latest) rs
      → IsArmed (latest + debounce) s
      → IsArmed (latest + debounce) (watch_loop extension debounce rs s).1
  unfolding watch_loop
  watch_loop-IsArmed debounce latest [] s h a = a
  watch_loop-IsArmed debounce latest ((event kind paths, now) ∷ rs) s (h, hs) a =
      watch_loop-IsArmed debounce latest rs (on_event extension debounce kind paths now s) hs
        (on_event-IsArmed debounce latest kind paths now s h a)
  watch_loop-IsArmed debounce latest ((failed, now) ∷ rs) s (h, hs) a =
      watch_loop-IsArmed debounce latest rs s hs a
  watch_loop-IsArmed debounce latest ((timed_out, now) ∷ rs) s (h, hs) a =
      watch_loop-IsArmed debounce latest rs (on_timeout now s).1 hs
        (on_timeout-IsArmed (latest + debounce) now s a)
  watch_loop-IsArmed debounce latest ((disconnected, now) ∷ rs) s h a = a

  delivers :
      (debounce asked now : ℕ) (s : Watch PathBuf)
      → is_nil s.pending ≡ false
      → (d : ℕ) → s.deadline ≡ some d
      → d ≤ asked + debounce
      → asked + timeout s.deadline asked ≤ now
      → (timeout s.deadline asked ≤ debounce) × (on_timeout now s ≡ (s.pending ∷ [], initial))
  unfolding on_timeout timeout is_due
  delivers debounce asked now s filled d armed le later =
      let waited : asked + (d - asked) ≤ now =
        subst (λ o. asked + timeout o asked ≤ now) armed later in
      let due : leb d now ≡ true = ground arith in
      (rw armed (omega arith), rw (filled, armed, due) refl)

  watch_loop-append :
      (debounce : ℕ) (rs ts : List (Received PathBuf × ℕ)) (s : Watch PathBuf)
      → All (λ r. is_connected r.0 ≡ true) rs
      → watch_loop extension debounce (rs ++ ts) s ≡ (
        (watch_loop extension debounce rs s).0
            ++ (watch_loop extension debounce ts (watch_loop extension debounce rs s).1).0,
        (watch_loop extension debounce ts (watch_loop extension debounce rs s).1).1,
      )
  unfolding watch_loop
  watch_loop-append debounce [] ts s h = refl
  watch_loop-append debounce ((event kind paths, now) ∷ rs) ts s h =
      watch_loop-append debounce rs ts (on_event extension debounce kind paths now s) h.1
  watch_loop-append debounce ((failed, now) ∷ rs) ts s h = watch_loop-append debounce rs ts s h.1
  watch_loop-append debounce ((timed_out, now) ∷ rs) ts s h =
      let s₁ = (on_timeout now s).1 in
      let batches = (on_timeout now s).0 in
      ap (λ r. (batches ++ r.0, r.1)) (watch_loop-append debounce rs ts s₁ h.1)
      ∙ ap (λ b. (b, (watch_loop extension debounce ts (watch_loop extension debounce rs s₁).1).1))
          (sym (append_assoc batches (watch_loop extension debounce rs s₁).0 _))
  watch_loop-append debounce ((disconnected, now) ∷ rs) ts s h = absurd (ground (arith, h.0))

  -- After any answers of the channel but a disconnection, none later than `asked`, with files pending: the
  -- loop asks for a wait of at most the debounce time, and if that wait times out, no earlier than it was
  -- asked for, the loop hands on the pending files as one more batch and is as at its start.
  pub on_timeout-watch_loop :
      (debounce asked now : ℕ) (rs : List (Received PathBuf × ℕ))
      → All (λ r. r.1 ≤ asked) rs
      → All (λ r. is_connected r.0 ≡ true) rs
      → let (batches, s) = watch_loop extension debounce rs initial in
        is_nil s.pending ≡ false
        → asked + timeout s.deadline asked ≤ now
        → (timeout s.deadline asked ≤ debounce)
          × (watch_loop extension debounce (rs ++ (timed_out, now) ∷ []) initial
              ≡ (batches ++ s.pending ∷ [], initial))
  on_timeout-watch_loop debounce asked now rs h connected filled later =
      let (batches, s) = watch_loop extension debounce rs initial in
      let (d, armed, le) =
        watch_loop-IsArmed debounce asked rs initial h
          (λ none_pending. absurd (ground (arith, none_pending))) filled in
      let (waits, handed) = delivers debounce asked now s filled d armed le later in
      let ran : watch_loop extension debounce ((timed_out, now) ∷ []) s
          ≡ (s.pending ∷ [], initial) =
        unfold watch_loop in
        ap {A = List (List PathBuf) × Watch PathBuf} (λ r. (r.0 ++ [], r.1)) handed in
      (
        waits,
        watch_loop-append debounce rs ((timed_out, now) ∷ []) initial connected
            ∙ ap {A = List (List PathBuf) × Watch PathBuf} (λ r. (batches ++ r.0, r.1)) ran,
      )

  on_timeout-IsHeld :
      (earliest now : ℕ) (s : Watch PathBuf)
      → now < earliest
      → IsHeld earliest s
      → on_timeout now s ≡ ([], s)
  unfolding on_timeout is_due
  on_timeout-IsHeld earliest now s lt (d, held, le) =
      let early : leb d now ≡ false = ground arith in
      elim (Bool-cases (is_nil s.pending)) [
        | inl empty ↦ rw empty refl
        | inr filled ↦ rw (filled, held, early) refl
      ]

  on_event-IsHeld :
      (debounce t : ℕ) (kind : EventKind) (paths : List PathBuf) (now : ℕ) (s : Watch PathBuf)
      → t ≤ now
      → IsHeld (t + debounce) s
      → IsHeld (t + debounce) (on_event extension debounce kind paths now s)
  unfolding on_event
  on_event-IsHeld debounce t kind paths now s le h = elim (Bool-cases (is_change kind)) [
    | inl change ↦ rw change (now + debounce, refl, omega arith)
    | inr same ↦ rw same h
  ]

  watch_loop-IsHeld :
      (debounce t : ℕ) (rs : List (Received PathBuf × ℕ)) (s : Watch PathBuf)
      → All (λ r. (t ≤ r.1) × (r.1 < t + debounce)) rs
      → IsHeld (t + debounce) s
      → (watch_loop extension debounce rs s).0 ≡ []
  unfolding watch_loop
  watch_loop-IsHeld debounce t [] s h a = refl
  watch_loop-IsHeld debounce t ((event kind paths, now) ∷ rs) s (h, hs) a =
      watch_loop-IsHeld debounce t rs (on_event extension debounce kind paths now s) hs
        (on_event-IsHeld debounce t kind paths now s h.0 a)
  watch_loop-IsHeld debounce t ((failed, now) ∷ rs) s (h, hs) a =
      watch_loop-IsHeld debounce t rs s hs a
  watch_loop-IsHeld debounce t ((timed_out, now) ∷ rs) s (h, hs) a =
      rw (on_timeout-IsHeld (t + debounce) now s h.1 a) (watch_loop-IsHeld debounce t rs s hs a)
  watch_loop-IsHeld debounce t ((disconnected, now) ∷ rs) s h a = refl

  -- After a change the loop is quiet for the debounce time: whatever answers come within it, further
  -- changes and timeouts included, nothing is handed on.
  pub watch_loop-on_event :
      (debounce t : ℕ) (kind : EventKind) (paths : List PathBuf) (rs : List (Received PathBuf × ℕ))
      (s : Watch PathBuf)
      → is_change kind ≡ true
      → All (λ r. (t ≤ r.1) × (r.1 < t + debounce)) rs
      → (watch_loop extension debounce rs (on_event extension debounce kind paths t s)).0 ≡ []
  watch_loop-on_event debounce t kind paths rs s change h =
      watch_loop-IsHeld debounce t rs _ h
        (unfold on_event in rw change (t + debounce, refl, omega arith))

  timed_out_stays :
      (debounce d : ℕ) (ts : List ℕ)
      → watch_loop extension debounce
          (map (λ now. (timed_out, now)) ts)
          (record { pending = []; deadline = some d })
        ≡ ([], record { pending = []; deadline = some d })
  unfolding watch_loop on_timeout
  timed_out_stays debounce d [] = refl
  timed_out_stays debounce d (now ∷ ts) = timed_out_stays debounce d ts

  -- A change without a preset file, when nothing is pending, sets a deadline that no timeout takes back:
  -- however often the wait times out, the loop stays as it is, and from the deadline on it asks for a
  -- wait of no time at all.
  pub timeout-on_event :
      (debounce t : ℕ) (kind : EventKind) (paths : List PathBuf) (times : List ℕ)
      (deadline : Option ℕ) (asked : ℕ)
      → is_change kind ≡ true
      → interesting extension paths ≡ []
      → t + debounce ≤ asked
      → let s =
          on_event extension debounce kind paths t (record { pending = []; deadline = deadline }) in
        (watch_loop extension debounce (map (λ now. (timed_out, now)) times) s ≡ ([], s))
        × (timeout s.deadline asked ≡ 0)
  unfolding on_event timeout
  timeout-on_event debounce t kind paths times deadline asked change quiet le =
      rw (change, push_interesting_lem extension paths [], quiet)
        (timed_out_stays debounce (t + debounce) times, omega arith)
