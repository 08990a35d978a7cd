-- ===== src/Core/Device.antt =====
-- crates/maschine-core/src/device.rs: from HID IN frames to events. What is sent on the event channel
-- is the list of events that an operation returns beside the new state.
pub mod PadMachine
pub mod Task
pub mod Velocity
pub mod Trace
pub mod Phases
pub mod Mirror
pub mod Replay
pub mod Sync
use openmk.Prelude.{
  ℕ, zero, suc, ◌+◌, ◌-◌, ◌*◌, ◌/◌, min, ℤ, is_nonzero, Bool, true, false, not, ◌&&◌, Option, none,
  some, List, [], ◌∷◌, ◌++◌, replicate, ltb, leb, ◌==◌, if◌then◌else◌, Outcome, ok, err, panic,
  ◌>>=◌, read, store, as_u8,
}
use openmk.Proto.Types.{ProtoError, pad_count}
use openmk.Proto.HidIn.{
  ControlsReport, ControlsReport_default, buttons_diff, encoder_delta, PadSample, InReport,
  controls, pads, parse,
}
use openmk.Core.Event.{Event, PadPhase, AnalogKnob}

pub record OpenOptions : Type 0 where
  pub pad_off_threshold : ℕ
  pub pad_on_threshold : ℕ
  pub pad_pressure_step : ℕ
  pub raw_pad_stream : Bool
  pub event_capacity : ℕ

-- `OpenOptions::default()`
abbrev pub OpenOptions_default : OpenOptions
OpenOptions_default = record {
  pad_off_threshold = 0x4005;
  pad_on_threshold = 0x4010;
  pad_pressure_step = 3;
  raw_pad_stream = false;
  event_capacity = 1024;
}

pub record DiffState : Type 0 where
  -- the field `controls` of the source
  pub last : Option ControlsReport
  pub pad_pressures : List ℕ
  pub pad_on : List Bool
  pub pad_peak_since_attack : List ℕ

-- `DiffState::default()`
abbrev pub DiffState_default : DiffState
DiffState_default = record {
  last = none;
  pad_pressures = replicate pad_count 0;
  pad_on = replicate pad_count false;
  pad_peak_since_attack = replicate pad_count 0;
}

unfoldable pub button_events : List (ℕ × Bool) → List Event
button_events [] = []
button_events ((bit, pressed) ∷ edges) = Event.button bit pressed ∷ button_events edges

-- The loop over the zipped macros, from index `i` on.
unfoldable pub macro_events : ℕ → List ℕ → List ℕ → List Event
macro_events i (now ∷ nows) (was ∷ wases) =
    let delta = encoder_delta was now in
    let later = macro_events (i + 1) nows wases in
    if is_nonzero delta then Event.macro_encoder (as_u8 i) delta now ∷ later else later
macro_events i _ _ = []

unfoldable pub master_events : ℕ → ℕ → List Event
master_events was now =
    let mdelta = encoder_delta was now in
    if is_nonzero mdelta then Event.master_encoder mdelta now ∷ [] else []

unfoldable pub touch_events : Option (ℕ × ℕ) → Option (ℕ × ℕ) → List Event
touch_events (some t) none = Event.touch_strip_released ∷ []
touch_events none none = []
touch_events _ (some (p, pr)) = Event.touch_strip p pr ∷ []

unfoldable pub analog_events : AnalogKnob → ℕ → ℕ → List Event
analog_events which was now = if was == now then [] else Event.analog which now ∷ []

unfoldable pub unwrap_or_default : Option ControlsReport → ControlsReport
unwrap_or_default none = ControlsReport_default
unwrap_or_default (some c) = c

unfoldable pub emit_controls : DiffState → ControlsReport → DiffState × List Event
emit_controls state c =
    let prev = unwrap_or_default state.last in
    (
      record state { last = some c },
      button_events (buttons_diff c prev.buttons)
          ++ (macro_events 0 c.macros prev.macros
              ++ (master_events prev.master c.master
                  ++ (touch_events prev.touch_strip c.touch_strip
                      ++ (analog_events AnalogKnob.mic_gain prev.mic_gain c.mic_gain
                          ++ (analog_events AnalogKnob.headphones prev.headphones c.headphones
                              ++ analog_events AnalogKnob.master_volume prev.master_vol
                                  c.master_vol))))),
    )

unfoldable pub pressure_to_velocity : ℕ → ℕ
pressure_to_velocity p =
    let base : ℕ = 0x4000 in
    let range : ℕ = 0x0ffd in let clipped = min (p - base) range in as_u8 (clipped * 127 / range)

unfoldable pub abs_diff : ℕ → ℕ → ℕ
abs_diff a b = if ltb a b then b - a else a - b

-- The branch of a pad that comes on.
unfoldable pub pad_attack : DiffState → PadSample → Outcome ⊥ (DiffState × List Event)
pad_attack state s = do
  on ← store s.pad true state.pad_on
  peaks ← store s.pad s.pressure state.pad_peak_since_attack
  let v = pressure_to_velocity s.pressure
  ok (
    record state { pad_on = on; pad_peak_since_attack = peaks },
    Event.pad s.pad s.pressure (some v) PadPhase.attack ∷ [],
  )

-- The branch of a pad that goes off.
unfoldable pub pad_release : DiffState → PadSample → Outcome ⊥ (DiffState × List Event)
pad_release state s = do
  on ← store s.pad false state.pad_on
  ok (record state { pad_on = on }, Event.pad s.pad s.pressure none PadPhase.release ∷ [])

-- The branch of a pad that stays on.
unfoldable pub pad_hold : OpenOptions → DiffState → PadSample → Outcome ⊥ (DiffState × List Event)
pad_hold opts state s = do
  peak ← read state.pad_peak_since_attack s.pad
  peaks ←
      if ltb peak s.pressure
      then store s.pad s.pressure state.pad_peak_since_attack
      else ok state.pad_peak_since_attack
  before ← read state.pad_pressures s.pad
  let diff = abs_diff s.pressure before
  ok (
    record state { pad_peak_since_attack = peaks },
    if leb opts.pad_pressure_step diff
        then Event.pad s.pad s.pressure none PadPhase.pressure ∷ []
        else [],
  )

-- The `if … else if … else if` of one sample outside raw mode, before its last store.
unfoldable pub pad_edges :
    OpenOptions → DiffState → PadSample → Bool → Outcome ⊥ (DiffState × List Event)
pad_edges opts state s was_on =
    if not was_on && leb opts.pad_on_threshold s.pressure
    then pad_attack state s
    else if was_on && leb s.pressure opts.pad_off_threshold
    then pad_release state s
    else if was_on
    then pad_hold opts state s
    else ok (state, [])

-- The branch of `raw_pad_stream`.
unfoldable pub emit_pad_raw : DiffState → PadSample → Outcome ⊥ (DiffState × List Event)
emit_pad_raw state s = do
  pressures ← store s.pad s.pressure state.pad_pressures
  ok (
    record state { pad_pressures = pressures },
    Event.pad s.pad s.pressure none PadPhase.pressure ∷ [],
  )

unfoldable pub emit_pad_edges :
    OpenOptions → DiffState → PadSample → Outcome ⊥ (DiffState × List Event)
emit_pad_edges opts state s = do
  was_on ← read state.pad_on s.pad
  (state', events) ← pad_edges opts state s was_on
  pressures ← store s.pad s.pressure state'.pad_pressures
  ok (record state' { pad_pressures = pressures }, events)

-- The body of the loop over the samples.
unfoldable pub emit_pad : OpenOptions → DiffState → PadSample → Outcome ⊥ (DiffState × List Event)
emit_pad opts state s =
    if opts.raw_pad_stream then emit_pad_raw state s else emit_pad_edges opts state s

unfoldable pub emit_pads :
    OpenOptions → DiffState → List PadSample → Outcome ⊥ (DiffState × List Event)
emit_pads opts state [] = ok (state, [])
emit_pads opts state (s ∷ samples) = do
  (state₁, first) ← emit_pad opts state s
  (state₂, later) ← emit_pads opts state₁ samples
  ok (state₂, first ++ later)

unfoldable pub emit : OpenOptions → DiffState → InReport → Outcome ⊥ (DiffState × List Event)
emit opts state (controls c) = ok (emit_controls state c)
emit opts state (pads p) = emit_pads opts state p.samples

abbrev pub Sent : Type 0
Sent = Outcome ⊥ (DiffState × List Event)

-- The body of the loop of `spawn_diff_task`, after the frame is parsed; `next` is the rest of the
-- loop. A frame that does not parse is dropped, without asking whether the channel is closed.
unfoldable pub handle_frame :
    OpenOptions → DiffState → Bool → Outcome ProtoError InReport → (DiffState → Sent) → Sent
handle_frame opts state closed panic next = panic
handle_frame opts state closed (err e) next = next state
handle_frame opts state closed (ok report) next = do
  (state₁, first) ← emit opts state report
  (state₂, later) ← if closed then ok (state₁, []) else next state₁
  ok (state₂, first ++ later)

-- The loop of `spawn_diff_task` over the frames that arrive, each with what `tx.is_closed()` says
-- after it.
unfoldable pub diff_task : OpenOptions → DiffState → List (List ℕ × Bool) → Sent
diff_task opts state [] = ok (state, [])
diff_task opts state ((frame, closed) ∷ frames) =
    handle_frame opts state closed (parse frame) (λ s. diff_task opts s frames)
