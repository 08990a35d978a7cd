-- ===== src/Daemon/Broadcast.antt =====
-- crates/maschined/src/main.rs: the OSC messages of the device's events. An argument is a 32-bit
-- integer.
use openmk.Prelude.{
  ℕ, ℤ, pos, Bool, true, false, Option, none, some, List, [], ◌∷◌, ◌++◌, codes, decimal,
}
use openmk.Nks.Plid.{Str}
use openmk.Core.Event.{
  Event, PadPhase, attack, pressure, release, AnalogKnob, mic_gain, headphones, master_volume, pad,
  button, macro_encoder, master_encoder, touch_strip, touch_strip_released, analog, raw,
}

abbrev pub phase_name : PadPhase → Str
phase_name attack = codes "/down"
phase_name pressure = codes "/pressure"
phase_name release = codes "/up"

-- `{which:?}`
abbrev pub knob_name : AnalogKnob → Str
knob_name mic_gain = codes "MicGain"
knob_name headphones = codes "Headphones"
knob_name master_volume = codes "MasterVolume"

abbrev pub press_name : Bool → Str
press_name true = codes "down"
press_name false = codes "up"

abbrev pub velocity_args : Option ℕ → List ℤ
velocity_args none = []
velocity_args (some v) = pos v ∷ []

-- The address and the arguments of an event's message, if it has one.
unfoldable pub event_message : Event → Option (Str × List ℤ)
event_message (pad i force velocity phase) =
    some (codes "/mk3/pad/" ++ (decimal i ++ phase_name phase), pos force ∷ velocity_args velocity)
event_message (button bit pressed) =
    some (codes "/mk3/button/" ++ (decimal bit ++ (codes "/" ++ press_name pressed)), [])
event_message (macro_encoder index delta absolute) =
    some (codes "/mk3/encoder/macro/" ++ decimal index, delta ∷ (pos absolute ∷ []))
event_message (master_encoder delta absolute) =
    some (codes "/mk3/encoder/master", delta ∷ (pos absolute ∷ []))
event_message (touch_strip position force) =
    some (codes "/mk3/touchstrip", pos position ∷ (pos force ∷ []))
event_message touch_strip_released = some (codes "/mk3/touchstrip/release", [])
event_message (analog which value) = some (codes "/mk3/analog/" ++ knob_name which, pos value ∷ [])
event_message (raw report) = none
