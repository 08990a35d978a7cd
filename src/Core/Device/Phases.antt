-- ===== src/Core/Device/Phases.antt =====
-- The life of a pad: attack, pressures while held, release, with hysteresis between the thresholds.
use openmk.Prelude.{
  ℕ, ◌≤◌, ◌<◌, ◌≡◌, ◌≢◌, inl, inr, refl, sym, ap, ◌∙◌, subst, Bool, true, false, some, List, ◌++◌,
  All, ◌==◌, ==_iff, Bool-cases, Returns, arith,
}
use openmk.Proto.Types.{pad_count}
use openmk.Proto.HidIn.{ControlsReport, PadSample}
use openmk.Proto.HidIn.WellFormed.{IsSample}
use openmk.Core.Event.{Event}
use openmk.Core.Device.{OpenOptions, DiffState, emit_controls, emit_pad, diff_task}
use openmk.Core.Device.PadMachine.{
  Pad, step, events_of, pad_at, put_pad, IsSized, put_pad-IsSized, pad_at-put_pad_self,
  pad_at-put_pad_ne, emit_pad-step,
}
use openmk.Core.Device.Velocity.{pressure_to_velocity-le}
use openmk.Core.Device.Trace.{
  and_then, follow, phase_after, follow-append, follow_pad_free, emit_controls-IsPadFree,
  follow-events_of_self, follow-events_of_ne,
}
use openmk.Core.Device.Task.{IsFrame, emit_controls-IsSized, diff_task-Holds}

-- A pad that is on is above the off threshold and no harder than its peak; one that is off is below
-- the on threshold.
abbrev pub IsSteadyAt : OpenOptions → Bool → ℕ → ℕ → Type 0
IsSteadyAt opts true level peak = (opts.pad_off_threshold < level) × (level ≤ peak)
IsSteadyAt opts false level peak = level < opts.pad_on_threshold

abbrev pub IsSteady : OpenOptions → Pad → Type 0
IsSteady opts pad = IsSteadyAt opts pad.on pad.level pad.peak

step-IsSteady :
    (opts : OpenOptions) (pad : Pad) (level : ℕ)
    → opts.raw_pad_stream ≡ false
    → opts.pad_off_threshold < opts.pad_on_threshold
    → IsSteady opts pad
    → IsSteady opts (step opts pad level).0
unfolding step
step-IsSteady opts pad level r t h = ground arith

step-phase_after :
    (opts : OpenOptions) (pad : Pad) (level : ℕ)
    → opts.raw_pad_stream ≡ false
    → phase_after pad.on (step opts pad level).1 ≡ some (step opts pad level).0.on
unfolding step
step-phase_after opts pad level r = ground (arith, pressure_to_velocity-le level)

pad_at-emit_controls :
    (s : DiffState) (c : ControlsReport) (j : ℕ) → pad_at (emit_controls s c).0 j ≡ pad_at s j
unfolding emit_controls
pad_at-emit_controls s c j = refl

-- The invariant of the task with pad `j` in view, and what it has told a client of that pad.
record Inv (opts : OpenOptions) (j : ℕ) (s : DiffState) : Type 0 where
  all_sized : IsSized s
  pad_steady : IsSteady opts (pad_at s j)

pub record IsFollowed (opts : OpenOptions) (j : ℕ) (s : DiffState) (r : DiffState × List Event)
    : Type 0 where
  pub sized : IsSized r.0
  pub steady : IsSteady opts (pad_at r.0 j)
  pub in_order : follow j (pad_at s j).on r.1 ≡ some (pad_at r.0 j).on

sample_self :
    (opts : OpenOptions) (s : DiffState) (x : PadSample)
    → opts.raw_pad_stream ≡ false
    → opts.pad_off_threshold < opts.pad_on_threshold
    → x.pad < pad_count
    → Inv opts x.pad s
    → let (pad, event) = step opts (pad_at s x.pad) x.pressure in
      IsFollowed opts x.pad s (put_pad s x.pad pad, events_of x event)
sample_self opts s x edges apart h v = record {
  sized = put_pad-IsSized x.pad pad v.all_sized;
  steady =
      subst (IsSteady opts) (sym stored)
        (step-IsSteady opts (pad_at s x.pad) x.pressure edges apart v.pad_steady);
  in_order =
      follow-events_of_self x (pad_at s x.pad).on (step opts (pad_at s x.pad) x.pressure).1
      ∙ step-phase_after opts (pad_at s x.pad) x.pressure edges
      ∙ ap (λ (p : Pad). some p.on) (sym stored);
}
  where
    pad : Pad
    pad = (step opts (pad_at s x.pad) x.pressure).0

    stored : pad_at (put_pad s x.pad pad) x.pad ≡ pad
    stored = pad_at-put_pad_self x.pad pad v.all_sized h

sample_ne :
    (opts : OpenOptions) (s : DiffState) (x : PadSample) (j : ℕ)
    → x.pad ≢ j
    → x.pad < pad_count
    → Inv opts j s
    → let (pad, event) = step opts (pad_at s x.pad) x.pressure in
      IsFollowed opts j s (put_pad s x.pad pad, events_of x event)
sample_ne opts s x j ne h v = record {
  sized = put_pad-IsSized x.pad pad v.all_sized;
  steady = subst (IsSteady opts) (sym untouched) v.pad_steady;
  in_order =
      follow-events_of_ne j x (pad_at s j).on (step opts (pad_at s x.pad) x.pressure).1 ne
      ∙ ap (λ (p : Pad). some p.on) (sym untouched);
}
  where
    pad : Pad
    pad = (step opts (pad_at s x.pad) x.pressure).0

    untouched : pad_at (put_pad s x.pad pad) j ≡ pad_at s j
    untouched = pad_at-put_pad_ne s x.pad j pad ne

module _ (opts : OpenOptions) (j : ℕ) (edges : opts.raw_pad_stream ≡ false)
    (apart : opts.pad_off_threshold < opts.pad_on_threshold) (pad : j < pad_count) where
  then_-IsFollowed :
      (s : DiffState) (r t : DiffState × List Event)
      → IsFollowed opts j s r
      → IsFollowed opts j r.0 t
      → IsFollowed opts j s (t.0, r.1 ++ t.1)
  then_-IsFollowed s r t f g = record {
    sized = g.sized;
    steady = g.steady;
    in_order =
        follow-append j (pad_at s j).on r.1 t.1
        ∙ ap (λ o. and_then o (λ b. follow j b t.1)) f.in_order
        ∙ g.in_order;
  }

  emit_controls-IsFollowed :
      (s : DiffState) (c : ControlsReport) → Inv opts j s → IsFollowed opts j s (emit_controls s c)
  emit_controls-IsFollowed s c v = record {
    sized = emit_controls-IsSized s c v.all_sized;
    steady = subst (IsSteady opts) (sym (pad_at-emit_controls s c j)) v.pad_steady;
    in_order =
        follow_pad_free j _ _ (emit_controls-IsPadFree s c)
        ∙ ap (λ (p : Pad). some p.on) (sym (pad_at-emit_controls s c j));
  }

  emit_pad-IsFollowed :
      (s : DiffState) (x : PadSample)
      → Inv opts j s
      → IsSample x
      → Returns (IsFollowed opts j s) (emit_pad opts s x)
  emit_pad-IsFollowed s x v h =
      rw (emit_pad-step opts x v.all_sized h.0) (elim (Bool-cases (x.pad == j)) [
        | inl same ↦
            let e = (==_iff x.pad j).0 same in
            let sampled : DiffState × List Event = (
              put_pad s x.pad (step opts (pad_at s x.pad) x.pressure).0,
              events_of x (step opts (pad_at s x.pad) x.pressure).1,
            ) in
            subst (λ k. IsFollowed opts k s sampled) e
              (sample_self opts s x edges apart h.0 (subst (λ k. Inv opts k s) (sym e) v))
        | inr other ↦ sample_ne opts s x j (ground arith) h.0 v
      ])

  kept : (s : DiffState) (r : DiffState × List Event) → IsFollowed opts j s r → Inv opts j r.0
  kept s r f = record { all_sized = f.sized; pad_steady = f.steady }

-- Outside raw mode, with the off threshold below the on threshold, from a state whose pad `j` is
-- steady, and on any frames of bytes: the task does not panic, and what it sends of pad `j` is in
-- order. Attacks, each with a velocity of at most 127, and releases alternate, pressures come only
-- between an attack and its release, and the order ends in the pad's state. The pad stays steady: on
-- means above the off threshold and no harder than the peak, off means below the on threshold. So a pad at
-- the off threshold itself is released.
pub diff_task-IsFollowed :
    (opts : OpenOptions) (s : DiffState) (frames : List (List ℕ × Bool)) (j : ℕ)
    → opts.raw_pad_stream ≡ false
    → opts.pad_off_threshold < opts.pad_on_threshold
    → j < pad_count
    → IsSized s
    → IsSteady opts (pad_at s j)
    → All IsFrame frames
    → Returns (IsFollowed opts j s) (diff_task opts s frames)
diff_task-IsFollowed opts s frames j edges apart pad v steady h =
    diff_task-Holds opts (Inv opts j) (IsFollowed opts j)
      (λ u hu. record { sized = hu.all_sized; steady = hu.pad_steady; in_order = refl })
      (kept opts j edges apart pad) (then_-IsFollowed opts j edges apart pad)
      (λ u c hu _. emit_controls-IsFollowed opts j edges apart pad u c hu)
      (emit_pad-IsFollowed opts j edges apart pad) s frames
      (record { all_sized = v; pad_steady = steady }) h
