-- ===== src/Index/Watch/Tests.antt =====
-- Runs of the watcher of crates/nks-index/src/watch.rs. A path is a number, and an odd one is a preset
-- file.
use openmk.Prelude.{
  ℕ, ◌+◌, ◌%◌, ◌≤◌, ◌≡◌, refl, false, Option, none, some, List, [], ◌∷◌, ◌++◌, map, ◌==◌,
  if◌then◌else◌, codes, arith,
}
use openmk.Nks.Plid.{Str}
use openmk.Index.Watch.{
  Received, event, timed_out, created, modified, accessed, removed, initial, timeout, is_due,
  is_nil, is_interesting, push_interesting, on_event, on_timeout, watch_loop,
}
use openmk.Index.Watch.Batches.{joined, reported, joined-watch_loop}
use openmk.Index.Watch.Deadlines.{on_timeout-watch_loop, watch_loop-on_event, timeout-on_event}

abbrev odd_extension : ℕ → Option Str
odd_extension p = if p % 2 == 1 then some (codes "nksf") else none

-- Two changes within the debounce time of 50, and a timeout after it.
abbrev answers : List (Received ℕ × ℕ)
answers =
    (event created (1 ∷ (2 ∷ [])), 100)
    ∷ ((event accessed (5 ∷ []), 110)
        ∷ ((event modified (3 ∷ []), 120)
            ∷ ((timed_out, 171) ∷ ((event removed (7 ∷ []), 200) ∷ []))))

one_batch :
    watch_loop odd_extension 50 answers initial
    ≡ ((1 ∷ (3 ∷ [])) ∷ [], record { pending = 7 ∷ []; deadline = some 250 })
unfolding watch_loop on_event on_timeout is_due push_interesting is_interesting
one_batch = refl

joined-watch_loop_example :
    joined (watch_loop odd_extension 50 answers initial).0
      ++ (watch_loop odd_extension 50 answers initial).1.pending
    ≡ reported odd_extension answers
joined-watch_loop_example = joined-watch_loop odd_extension 50 answers initial

seven_pending : is_nil (watch_loop odd_extension 50 answers initial).1.pending ≡ false
unfolding watch_loop on_event on_timeout is_due push_interesting is_interesting
seven_pending = refl

waits_40 : 210 + timeout (watch_loop odd_extension 50 answers initial).1.deadline 210 ≤ 255
unfolding watch_loop on_event on_timeout is_due push_interesting is_interesting timeout
waits_40 = omega arith

on_timeout-watch_loop_example :
    let (batches, s) = watch_loop odd_extension 50 answers initial in
    (timeout s.deadline 210 ≤ 50)
    × (watch_loop odd_extension 50 (answers ++ (timed_out, 255) ∷ []) initial
        ≡ (batches ++ s.pending ∷ [], initial))
on_timeout-watch_loop_example =
    on_timeout-watch_loop odd_extension 50 210 255 answers (omega arith)
      (refl, (refl, (refl, (refl, (refl, _))))) seven_pending waits_40

watch_loop-on_event_example :
    (watch_loop odd_extension 50
      ((timed_out, 120) ∷ ((event modified (3 ∷ []), 149) ∷ []))
      (on_event odd_extension 50 created (1 ∷ []) 100 initial)).0
    ≡ []
watch_loop-on_event_example =
    watch_loop-on_event odd_extension 50 100 created (1 ∷ [])
      ((timed_out, 120) ∷ ((event modified (3 ∷ []), 149) ∷ [])) initial refl (omega arith)

timeout-on_event_example :
    let s =
      on_event odd_extension 50 created (2 ∷ []) 100 (record { pending = []; deadline = none }) in
    (watch_loop odd_extension 50 (map (λ now. (timed_out, now)) (150 ∷ (150 ∷ []))) s ≡ ([], s))
    × (timeout s.deadline 151 ≡ 0)
timeout-on_event_example =
    timeout-on_event odd_extension 50 100 created (2 ∷ []) (150 ∷ (150 ∷ [])) none 151 refl
      (unfold is_interesting in refl) (omega arith)
