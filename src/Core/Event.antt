-- ===== src/Core/Event.antt =====
-- crates/maschine-core/src/event.rs: the public event model.
use openmk.Prelude.{ℕ, ℤ, Bool, Option}
use openmk.Proto.HidIn.{InReport}

pub data PadPhase : Type 0 where
  attack pressure release : PadPhase

pub data AnalogKnob : Type 0 where
  mic_gain headphones master_volume : AnalogKnob

pub data Event : Type 0 where
  -- pad, pressure, velocity, phase
  pad : ℕ → ℕ → Option ℕ → PadPhase → Event
  -- bit, pressed
  button : ℕ → Bool → Event
  -- index, delta, absolute
  macro_encoder : ℕ → ℤ → ℕ → Event
  -- delta, absolute
  master_encoder : ℤ → ℕ → Event
  -- position, pressure
  touch_strip : ℕ → ℕ → Event
  touch_strip_released : Event
  analog : AnalogKnob → ℕ → Event
  raw : InReport → Event
