-- ===== src/Core/Device/Sync.antt =====
-- The events of the whole task, for a client that keeps a copy of the report.
use openmk.Prelude.{ℕ, ◌≡◌, refl, ap, ◌∙◌, Bool, Option, none, some, List, All, Returns}
use openmk.Proto.HidIn.{PadSample, ControlsReport}
use openmk.Proto.HidIn.WellFormed.{IsReport, IsSample}
use openmk.Core.Event.{Event, PadPhase}
use openmk.Core.Device.{
  OpenOptions, emit_pad, diff_task, DiffState, unwrap_or_default, emit_controls,
}
use openmk.Core.Device.Mirror.{Mirror, mirror_of, replay, replay-append}
use openmk.Core.Device.PadMachine.{IsSized, put_pad-IsSized, emit_pad-step, events_of}
use openmk.Core.Device.Task.{IsFrame, emit_controls-IsSized, diff_task-Holds}
use openmk.Core.Device.Replay.{replay-emit_controls}

-- What the task keeps between two frames.
record Inv (s : DiffState) : Type 0 where
  all_sized : IsSized s
  last_report : IsReport (unwrap_or_default s.last)

pub record IsMirrored (s : DiffState) (r : DiffState × List Event) : Type 0 where
  pub sized : IsSized r.0
  pub report : IsReport (unwrap_or_default r.0.last)
  pub mirrored :
      replay (mirror_of (unwrap_or_default s.last)) r.1 ≡ mirror_of (unwrap_or_default r.0.last)

emit_controls-IsMirrored :
    (s : DiffState) (c : ControlsReport) → Inv s → IsReport c → IsMirrored s (emit_controls s c)
unfolding emit_controls unwrap_or_default
emit_controls-IsMirrored s c v h = record {
  sized = emit_controls-IsSized s c v.all_sized;
  report = h;
  mirrored = replay-emit_controls s c v.last_report h;
}

replay-events_of :
    (m : Mirror) (x : PadSample) (event : Option (Option ℕ × PadPhase))
    → replay m (events_of x event) ≡ m
replay-events_of m x none = refl
replay-events_of m x (some (velocity, phase)) = refl

emit_pad-IsMirrored :
    (opts : OpenOptions) (s : DiffState) (x : PadSample)
    → Inv s
    → IsSample x
    → Returns (IsMirrored s) (emit_pad opts s x)
emit_pad-IsMirrored opts s x v h = rw (emit_pad-step opts x v.all_sized h.0) (record {
  sized = put_pad-IsSized x.pad _ v.all_sized;
  report = v.last_report;
  mirrored = replay-events_of _ x _;
})

-- On any frames of bytes the task does not panic, and a client that starts from the report that the
-- task starts from and changes its copy as the events say holds the last report that the task has
-- accepted. Pad events, and frames that do not parse, change nothing of it.
pub diff_task-IsMirrored :
    (opts : OpenOptions) (s : DiffState) (frames : List (List ℕ × Bool))
    → IsSized s
    → IsReport (unwrap_or_default s.last)
    → All IsFrame frames
    → Returns (IsMirrored s) (diff_task opts s frames)
diff_task-IsMirrored opts s frames v p h =
    diff_task-Holds opts Inv IsMirrored
      (λ u hu. record { sized = hu.all_sized; report = hu.last_report; mirrored = refl })
      (λ _ r hr. record { all_sized = hr.sized; last_report = hr.report })
      (λ u r t hr ht. record {
        sized = ht.sized;
        report = ht.report;
        mirrored = replay-append _ r.1 t.1 ∙ ap (λ m. replay m t.1) hr.mirrored ∙ ht.mirrored;
      })
      emit_controls-IsMirrored (emit_pad-IsMirrored opts) s frames
      (record { all_sized = v; last_report = p }) h
