-- ===== src/Core/Device/PadMachine.antt =====
-- What `emit_pads` promises: sixteen pads, each a small machine of its own. `emit_pad` refines it.
use openmk.Prelude.{
  ℕ, ◌<◌, ◌≡◌, ◌≢◌, ◌∙◌, Bool, true, false, Option, none, some, List, [], ◌∷◌, length, get_or, set,
  length-set, get_or-set_self, get_or-set_ne, set-get_or, leb, if◌then◌else◌, ok, read_ok, store_ok,
  arith, max,
}
use openmk.Proto.Types.{pad_count}
use openmk.Proto.HidIn.{PadSample}
use openmk.Core.Event.{Event, PadPhase}
use openmk.Core.Device.{
  OpenOptions, DiffState, pressure_to_velocity, abs_diff, pad_attack, pad_release, pad_hold,
  pad_edges, emit_pad_raw, emit_pad_edges, emit_pad,
}

-- What the state holds of one pad.
pub record Pad : Type 0 where
  pub level : ℕ
  pub on : Bool
  pub peak : ℕ

-- The machine: the new pad, and the velocity and phase of its event, if there is one.
unfoldable pub step : OpenOptions → Pad → ℕ → Pad × Option (Option ℕ × PadPhase)
step opts pad level =
    if opts.raw_pad_stream
    then (record pad { level = level }, some (none, PadPhase.pressure))
    else if pad.on
    then if leb level opts.pad_off_threshold
      then (record pad { level = level; on = false }, some (none, PadPhase.release))
      else (
        record pad { level = level; peak = max pad.peak level },
        if leb opts.pad_pressure_step (abs_diff level pad.level)
            then some (none, PadPhase.pressure)
            else none,
      )
    else if leb opts.pad_on_threshold level
    then (
      record { level = level; on = true; peak = level },
      some (some (pressure_to_velocity level), PadPhase.attack),
    )
    else (record pad { level = level }, none)

abbrev pub events_of : PadSample → Option (Option ℕ × PadPhase) → List Event
events_of s none = []
events_of s (some (velocity, phase)) = Event.pad s.pad s.pressure velocity phase ∷ []

-- Pad `i` of a state, and a state with pad `i` anew.
abbrev pub pad_at : DiffState → ℕ → Pad
pad_at state i = record {
  level = get_or state.pad_pressures i 0;
  on = get_or state.pad_on i false;
  peak = get_or state.pad_peak_since_attack i 0;
}

abbrev pub put_pad : DiffState → ℕ → Pad → DiffState
put_pad state i pad = record state {
  pad_pressures = set state.pad_pressures i pad.level;
  pad_on = set state.pad_on i pad.on;
  pad_peak_since_attack = set state.pad_peak_since_attack i pad.peak;
}

-- The arrays have an entry for each pad.
pub record IsSized (state : DiffState) : Type 0 where
  pub pressures_sized : length state.pad_pressures ≡ pad_count
  pub on_sized : length state.pad_on ≡ pad_count
  pub peaks_sized : length state.pad_peak_since_attack ≡ pad_count

pub put_pad-IsSized :
    {state : DiffState} (i : ℕ) (pad : Pad) → IsSized state → IsSized (put_pad state i pad)
put_pad-IsSized {state} i pad v = record {
  pressures_sized = length-set state.pad_pressures i pad.level ∙ v.pressures_sized;
  on_sized = length-set state.pad_on i pad.on ∙ v.on_sized;
  peaks_sized = length-set state.pad_peak_since_attack i pad.peak ∙ v.peaks_sized;
}

pub pad_at-put_pad_self :
    {state : DiffState} (i : ℕ) (pad : Pad)
    → IsSized state
    → i < pad_count
    → pad_at (put_pad state i pad) i ≡ pad
pad_at-put_pad_self {state} i pad v h = ground (
  arith,
  get_or-set_self state.pad_pressures i pad.level 0 (omega (arith, v.pressures_sized)),
  get_or-set_self state.pad_on i pad.on false (omega (arith, v.on_sized)),
  get_or-set_self state.pad_peak_since_attack i pad.peak 0 (omega (arith, v.peaks_sized)),
)

pub pad_at-put_pad_ne :
    (state : DiffState) (i j : ℕ) (pad : Pad)
    → i ≢ j
    → pad_at (put_pad state i pad) j ≡ pad_at state j
pad_at-put_pad_ne state i j pad ne = ground (
  arith,
  get_or-set_ne state.pad_pressures i j pad.level 0 ne,
  get_or-set_ne state.pad_on i j pad.on false ne,
  get_or-set_ne state.pad_peak_since_attack i j pad.peak 0 ne,
)

-- On a sample of one of the sixteen pads the loop body does not panic; it replaces that pad by what
-- the machine makes of it, leaves the other pads and the last control report alone, and sends the
-- machine's event.
pub emit_pad-step :
    (opts : OpenOptions) {state : DiffState} (s : PadSample)
    → IsSized state
    → s.pad < pad_count
    → let (pad, event) = step opts (pad_at state s.pad) s.pressure in
      emit_pad opts state s ≡ ok (put_pad state s.pad pad, events_of s event)
unfolding emit_pad emit_pad_raw emit_pad_edges pad_edges pad_attack pad_release pad_hold step
emit_pad-step opts {state} s v h = ground (
  arith,
  read_ok {E = ⊥} state.pad_on s.pad false (omega (arith, v.on_sized)),
  read_ok {E = ⊥} state.pad_peak_since_attack s.pad 0 (omega (arith, v.peaks_sized)),
  read_ok {E = ⊥} state.pad_pressures s.pad 0 (omega (arith, v.pressures_sized)),
  store_ok {E = ⊥} state.pad_on s.pad true (omega (arith, v.on_sized)),
  store_ok {E = ⊥} state.pad_on s.pad false (omega (arith, v.on_sized)),
  store_ok {E = ⊥} state.pad_peak_since_attack s.pad s.pressure (omega (arith, v.peaks_sized)),
  store_ok {E = ⊥} state.pad_pressures s.pad s.pressure (omega (arith, v.pressures_sized)),
  set-get_or state.pad_on s.pad false,
  set-get_or state.pad_peak_since_attack s.pad 0,
)
