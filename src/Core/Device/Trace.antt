-- ===== src/Core/Device/Trace.antt =====
-- What a client is told of one pad, read as a run of the pad's states; the events of a control report
-- are none of it.
use openmk.Prelude.{
  ℕ, ◌+◌, ◌≡◌, ◌≢◌, inl, inr, refl, Bool, true, false, Option, none, some, List, [], ◌∷◌, ◌++◌, All,
  leb, ◌==◌, ==_iff, if◌then◌else◌, Bool-cases, is_nonzero, arith,
}
use openmk.Proto.HidIn.{ControlsReport, encoder_delta, PadSample}
use openmk.Core.Event.{Event, PadPhase, AnalogKnob}
use openmk.Core.Device.{
  DiffState, button_events, macro_events, master_events, touch_events, analog_events, emit_controls,
}
use openmk.Core.Device.PadMachine.{events_of}

-- What a client may see next of a pad that is on or off; a velocity comes with an attack alone.
abbrev pub phase_next : Bool → Option ℕ → PadPhase → Option Bool
phase_next false (some velocity) PadPhase.attack = if leb velocity 127 then some true else none
phase_next true none PadPhase.pressure = some true
phase_next true none PadPhase.release = some false
phase_next _ _ _ = none

abbrev pub and_then : Option Bool → (Bool → Option Bool) → Option Bool
and_then none next = none
and_then (some on) next = next on

-- The state of pad `j` after the events, or `none` if they are out of order.
abbrev pub follow : ℕ → Bool → List Event → Option Bool
follow j on [] = some on
follow j on (Event.pad p level velocity phase ∷ events) =
    let next = λ (b : Bool). follow j b events in
    if p == j then and_then (phase_next on velocity phase) next else next on
follow j on (_ ∷ events) = follow j on events

-- What an event, if there is one, makes of the pad's state.
abbrev pub phase_after : Bool → Option (Option ℕ × PadPhase) → Option Bool
phase_after on none = some on
phase_after on (some (velocity, phase)) = phase_next on velocity phase

pub and_then_assoc :
    (o : Option Bool) (f g k : Bool → Option Bool)
    → ((b : Bool) → f b ≡ and_then (g b) k)
    → and_then o f ≡ and_then (and_then o g) k
and_then_assoc none f g k h = refl
and_then_assoc (some b) f g k h = h b

pub follow-append :
    (j : ℕ) (on : Bool) (xs ys : List Event)
    → follow j on (xs ++ ys) ≡ and_then (follow j on xs) (λ b. follow j b ys)
follow-append j on [] ys = refl
follow-append j on (Event.pad p level velocity phase ∷ xs) ys = elim (Bool-cases (p == j)) [
  | inl same ↦ rw same (
      and_then_assoc (phase_next on velocity phase) _ (λ b. follow j b xs) (λ b. follow j b ys)
        (λ b. follow-append j b xs ys))
  | inr other ↦ rw other (follow-append j on xs ys)
]
follow-append j on (Event.button bit pressed ∷ xs) ys = follow-append j on xs ys
follow-append j on (_ ∷ xs) ys = follow-append j on xs ys

-- Events of a control report concern no pad.
abbrev IsPadFree : Event → Type 0
IsPadFree (Event.pad p level velocity phase) = ⊥
IsPadFree _ = Unit

pub follow_pad_free :
    (j : ℕ) (on : Bool) (xs : List Event) → All IsPadFree xs → follow j on xs ≡ some on
follow_pad_free j on [] h = refl
follow_pad_free j on (Event.pad p level velocity phase ∷ xs) h = absurd h.0
follow_pad_free j on (Event.button bit pressed ∷ xs) h = follow_pad_free j on xs h.1
follow_pad_free j on (_ ∷ xs) h = follow_pad_free j on xs h.1

All-append : (xs ys : List Event) → All IsPadFree xs → All IsPadFree ys → All IsPadFree (xs ++ ys)
All-append [] ys p q = q
All-append (x ∷ xs) ys p q = (p.0, All-append xs ys p.1 q)

button_events-IsPadFree : (edges : List (ℕ × Bool)) → All IsPadFree (button_events edges)
unfolding button_events
button_events-IsPadFree [] = tt
button_events-IsPadFree ((bit, pressed) ∷ edges) = (tt, button_events-IsPadFree edges)

macro_events-IsPadFree : (i : ℕ) (nows wases : List ℕ) → All IsPadFree (macro_events i nows wases)
unfolding macro_events
macro_events-IsPadFree i (now ∷ nows) (was ∷ wases) =
    let later = macro_events-IsPadFree (i + 1) nows wases in
    elim (Bool-cases (is_nonzero (encoder_delta was now))) [
      | inl moved ↦ rw moved (tt, later)
      | inr still ↦ rw still later
    ]
macro_events-IsPadFree i [] wases = tt
macro_events-IsPadFree i (now ∷ nows) [] = tt

master_events-IsPadFree : (was now : ℕ) → All IsPadFree (master_events was now)
unfolding master_events
master_events-IsPadFree was now = elim (Bool-cases (is_nonzero (encoder_delta was now))) [
  | inl moved ↦ rw moved (tt, tt)
  | inr still ↦ rw still tt
]

touch_events-IsPadFree : (was now : Option (ℕ × ℕ)) → All IsPadFree (touch_events was now)
unfolding touch_events
touch_events-IsPadFree (some t) none = (tt, tt)
touch_events-IsPadFree none none = tt
touch_events-IsPadFree none (some t) = (tt, tt)
touch_events-IsPadFree (some u) (some t) = (tt, tt)

analog_events-IsPadFree :
    (which : AnalogKnob) (was now : ℕ) → All IsPadFree (analog_events which was now)
unfolding analog_events
analog_events-IsPadFree which was now = elim (Bool-cases (was == now)) [
  | inl same ↦ rw same tt
  | inr moved ↦ rw moved (tt, tt)
]

pub emit_controls-IsPadFree :
    (s : DiffState) (c : ControlsReport) → All IsPadFree (emit_controls s c).1
unfolding emit_controls
emit_controls-IsPadFree s c = All-append _ _ (button_events-IsPadFree _) (
    All-append _ _ (macro_events-IsPadFree 0 _ _) (
      All-append _ _ (master_events-IsPadFree _ _) (
        All-append _ _ (touch_events-IsPadFree _ _) (
          All-append _ _ (analog_events-IsPadFree AnalogKnob.mic_gain _ _) (
            All-append _ _ (analog_events-IsPadFree AnalogKnob.headphones _ _)
              (analog_events-IsPadFree AnalogKnob.master_volume _ _))))))

and_then-some : (o : Option Bool) → and_then o (λ b. some b) ≡ o
and_then-some none = refl
and_then-some (some b) = refl

pub follow-events_of_self :
    (x : PadSample) (on : Bool) (event : Option (Option ℕ × PadPhase))
    → follow x.pad on (events_of x event) ≡ phase_after on event
follow-events_of_self x on none = refl
follow-events_of_self x on (some (velocity, phase)) =
    rw ((==_iff x.pad x.pad).1 refl) (and_then-some (phase_next on velocity phase))

pub follow-events_of_ne :
    (j : ℕ) (x : PadSample) (on : Bool) (event : Option (Option ℕ × PadPhase))
    → x.pad ≢ j
    → follow j on (events_of x event) ≡ some on
follow-events_of_ne j x on none ne = refl
follow-events_of_ne j x on (some (velocity, phase)) ne = ground arith
