-- ===== src/Core/Device/Task.antt =====
-- The whole task: what holds after each sample and each control report holds after any frames.
use openmk.Prelude.{
  ℕ, Bool, true, false, List, [], ◌∷◌, ◌++◌, All, Outcome, ok, err, panic, Returns, Returns-bind,
  arith,
}
use openmk.Proto.Types.{ProtoError}
use openmk.Proto.HidIn.{ControlsReport, PadSample, InReport, controls, pads, parse}
use openmk.Proto.HidIn.WellFormed.{IsByte, IsReport, IsSample, IsInReport, parse-Returns}
use openmk.Core.Event.{Event}
use openmk.Core.Device.{
  OpenOptions, DiffState, emit_controls, emit_pad, emit_pads, emit, Sent, handle_frame, diff_task,
}
use openmk.Core.Device.PadMachine.{IsSized, put_pad-IsSized, emit_pad-step}

abbrev pub IsFrame : List ℕ × Bool → Type 0
IsFrame f = All IsByte f.0

-- `Holds s r`: started in the state `s`, a part of the task has come to the state and events `r`.
-- The states meet an invariant. What holds of nothing sent, of each report and of parts in sequence holds of the task.
module _ (opts : OpenOptions) (Inv : DiffState → Type 0)
    (Holds : DiffState → DiffState × List Event → Type 0)
    (nothing : (s : DiffState) → Inv s → Holds s (s, []))
    (kept : (s : DiffState) (r : DiffState × List Event) → Holds s r → Inv r.0)
    (then_ : (s : DiffState) (r t : DiffState × List Event)
      → Holds s r
      → Holds r.0 t
      → Holds s (t.0, r.1 ++ t.1))
    (report : (s : DiffState) (c : ControlsReport)
      → Inv s
      → IsReport c
      → Holds s (emit_controls s c))
    (sample : (s : DiffState) (x : PadSample)
      → Inv s
      → IsSample x
      → Returns (Holds s) (emit_pad opts s x)) where
  emit_pads-Holds :
      (s : DiffState) (samples : List PadSample)
      → Inv s
      → All IsSample samples
      → Returns (Holds s) (emit_pads opts s samples)
  unfolding emit_pads
  emit_pads-Holds s [] v h = nothing s v
  emit_pads-Holds s (x ∷ samples) v h =
      Returns-bind (Holds s) (Holds s) (emit_pad opts s x) _
        (λ r hr.
          Returns-bind (Holds r.0) (Holds s) (emit_pads opts r.0 samples) _
            (λ t ht. then_ s r t hr ht) (emit_pads-Holds r.0 samples (kept s r hr) h.1))
        (sample s x v h.0)

  emit-Holds :
      (s : DiffState) (r : InReport) → Inv s → IsInReport r → Returns (Holds s) (emit opts s r)
  unfolding emit
  emit-Holds s (controls c) v h = report s c v h
  emit-Holds s (pads p) v h = emit_pads-Holds s p.samples v h

  handle_frame-Holds :
      (s : DiffState) (closed : Bool) (o : Outcome ProtoError InReport) (next : DiffState → Sent)
      → Inv s
      → Returns IsInReport o
      → ((u : DiffState) → Inv u → Returns (Holds u) (next u))
      → Returns (Holds s) (handle_frame opts s closed o next)
  unfolding handle_frame
  handle_frame-Holds s closed panic next v h later = h
  handle_frame-Holds s closed (err e) next v h later = later s v
  handle_frame-Holds s true (ok r) next v h later =
      Returns-bind (Holds s) (Holds s) (emit opts s r) _
        (λ t ht. then_ s t (t.0, []) ht (nothing t.0 (kept s t ht))) (emit-Holds s r v h)
  handle_frame-Holds s false (ok r) next v h later =
      Returns-bind (Holds s) (Holds s) (emit opts s r) _
        (λ t ht.
          Returns-bind (Holds t.0) (Holds s) (next t.0) _ (λ u hu. then_ s t u ht hu)
            (later t.0 (kept s t ht)))
        (emit-Holds s r v h)

  pub diff_task-Holds :
      (s : DiffState) (frames : List (List ℕ × Bool))
      → Inv s
      → All IsFrame frames
      → Returns (Holds s) (diff_task opts s frames)
  unfolding diff_task
  diff_task-Holds s [] v h = nothing s v
  diff_task-Holds s ((frame, closed) ∷ frames) v h =
      handle_frame-Holds s closed (parse frame) (λ u. diff_task opts u frames) v
        (parse-Returns frame h.0) (λ u hu. diff_task-Holds u frames hu h.1)

pub emit_controls-IsSized :
    (s : DiffState) (c : ControlsReport) → IsSized s → IsSized (emit_controls s c).0
unfolding emit_controls
emit_controls-IsSized s c v = omega (arith, v.pressures_sized, v.on_sized, v.peaks_sized)

emit_pad-IsSized :
    (opts : OpenOptions) (s : DiffState) (x : PadSample)
    → IsSized s
    → IsSample x
    → Returns (λ r. IsSized r.0) (emit_pad opts s x)
emit_pad-IsSized opts s x v h = rw (emit_pad-step opts x v h.0) (put_pad-IsSized x.pad _ v)

-- On any frames of bytes, well formed or not, and whenever the channel closes, the task does not
-- panic and its arrays keep an entry for each pad.
pub diff_task-IsSized :
    (opts : OpenOptions) (s : DiffState) (frames : List (List ℕ × Bool))
    → IsSized s
    → All IsFrame frames
    → Returns (λ r. IsSized r.0) (diff_task opts s frames)
diff_task-IsSized opts s frames v h =
    diff_task-Holds opts IsSized (λ _ r. IsSized r.0) (λ _ u. u) (λ _ _ u. u) (λ _ _ _ _ u. u)
      (λ u c hu _. emit_controls-IsSized u c hu) (emit_pad-IsSized opts) s frames v h
