-- ===== src/Index/Watch.antt =====
-- crates/nks-index/src/watch.rs: the thread that collects changed paths and hands them on in batches. An
-- instant is a number of nanoseconds. Each answer of the channel comes with the instant that the loop
-- reads after it.
pub mod Batches
pub mod Deadlines
pub mod Tests
use openmk.Prelude.{
  ℕ, ◌+◌, ◌-◌, Bool, true, false, ◌&&◌, not, Option, none, some, List, [], ◌∷◌, ◌++◌, leb,
  if◌then◌else◌,
}
use openmk.Nks.Plid.{Str}
use openmk.Index.Scanner.{is_nksf}

-- `notify::EventKind`, less what the kinds carry.
pub data EventKind : Type 0 where
  any : EventKind
  accessed : EventKind
  created : EventKind
  modified : EventKind
  removed : EventKind
  other : EventKind

-- What `recv_timeout` returns: an event with its paths, an error of the watcher, or one of its two errors.
pub data Received (PathBuf : Type 0) : Type 0 where
  event : EventKind → List PathBuf → Received PathBuf
  failed : Received PathBuf
  timed_out : Received PathBuf
  disconnected : Received PathBuf

-- The variables of the loop.
pub record Watch (PathBuf : Type 0) : Type 0 where
  pub pending : List PathBuf
  pub deadline : Option ℕ

abbrev pub initial : {PathBuf : Type 0} → Watch PathBuf
initial = record { pending = []; deadline = none }

abbrev pub is_change : EventKind → Bool
is_change any = false
is_change accessed = false
is_change created = true
is_change modified = true
is_change removed = true
is_change other = false

-- 60 seconds
abbrev pub idle_timeout : ℕ
idle_timeout = 60000000000

-- How long the loop waits if it asks at the instant `now`.
unfoldable pub timeout : Option ℕ → ℕ → ℕ
timeout none now = idle_timeout
timeout (some d) now = d - now

-- `deadline.map_or(false, |d| d <= Instant::now())`
unfoldable pub is_due : Option ℕ → ℕ → Bool
is_due none now = false
is_due (some d) now = leb d now

abbrev pub is_nil {ℓ} : {A : Type ℓ} → List A → Bool
is_nil [] = true
is_nil (x ∷ xs) = false

-- `extension` is the text of a path's extension.
module _ {PathBuf : Type 0} (extension : PathBuf → Option Str) where
  unfoldable pub is_interesting : PathBuf → Bool
  is_interesting p = is_nksf (extension p)

  -- The loop over the paths of an event.
  unfoldable pub push_interesting : List PathBuf → List PathBuf → List PathBuf
  push_interesting [] pending = pending
  push_interesting (p ∷ ps) pending =
      push_interesting ps (if is_interesting p then pending ++ p ∷ [] else pending)

  -- The arm of an event.
  unfoldable pub on_event : ℕ → EventKind → List PathBuf → ℕ → Watch PathBuf → Watch PathBuf
  on_event debounce kind paths now s =
      if is_change kind
      then record { pending = push_interesting paths s.pending; deadline = some (now + debounce) }
      else s

-- The arm of a timeout: the batches that are handed on, one or none, and the variables after it.
unfoldable pub on_timeout :
    {PathBuf : Type 0} → ℕ → Watch PathBuf → List (List PathBuf) × Watch PathBuf
on_timeout now s =
    if not (is_nil s.pending) && is_due s.deadline now
    then (s.pending ∷ [], record { pending = []; deadline = none })
    else ([], s)

module _ {PathBuf : Type 0} (extension : PathBuf → Option Str) where
  -- The loop, on what the channel answers until it is disconnected.
  unfoldable pub watch_loop :
      ℕ → List (Received PathBuf × ℕ) → Watch PathBuf → List (List PathBuf) × Watch PathBuf
  watch_loop debounce [] s = ([], s)
  watch_loop debounce ((event kind paths, now) ∷ rs) s =
      watch_loop debounce rs (on_event extension debounce kind paths now s)
  watch_loop debounce ((failed, now) ∷ rs) s = watch_loop debounce rs s
  watch_loop debounce ((timed_out, now) ∷ rs) s =
      let (batches, s₁) = on_timeout now s in
      let (later, s₂) = watch_loop debounce rs s₁ in (batches ++ later, s₂)
  watch_loop debounce ((disconnected, now) ∷ rs) s = ([], s)
