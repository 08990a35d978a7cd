-- ===== src/Core/Device/Mirror.antt =====
-- A client's copy of the controls, and how it follows the events; the buttons' part.
use openmk.Prelude.{
  ℕ, ◌+◌, ◌<◌, ◌≡◌, refl, ap, ◌∙◌, fun_ext, inl, inr, Bool, Option, none, some, List, [], ◌∷◌, ◌++◌,
  set, ◌==◌, if◌then◌else◌, Bool-cases, bit, bit_high, arith,
}
use openmk.Proto.HidIn.{ControlsReport, buttons_diff}
use openmk.Proto.HidIn.WellFormed.{IsReport}
use openmk.Proto.HidIn.Buttons.{
  find_edge, IsAscending, find_edge-buttons_diff, buttons_diff-IsAscending,
}
use openmk.Core.Event.{Event, AnalogKnob}
use openmk.Core.Device.{button_events}

-- The client's copy. Buttons are held one by one.
pub record Mirror : Type 0 where
  pub pressed : ℕ → Bool
  pub macros : List ℕ
  pub master : ℕ
  pub touch : Option (ℕ × ℕ)
  pub mic_gain : ℕ
  pub headphones : ℕ
  pub master_vol : ℕ

abbrev pub mirror_of : ControlsReport → Mirror
mirror_of c = record {
  pressed = λ k. bit c.buttons k == 1;
  macros = c.macros;
  master = c.master;
  touch = c.touch_strip;
  mic_gain = c.mic_gain;
  headphones = c.headphones;
  master_vol = c.master_vol;
}

abbrev pub press : (ℕ → Bool) → ℕ → Bool → ℕ → Bool
press old i b k = if i == k then b else old k

-- What the client does on an event.
abbrev pub apply : Mirror → Event → Mirror
apply m (Event.button i b) = record m { pressed = press m.pressed i b }
apply m (Event.macro_encoder i delta now) = record m { macros = set m.macros i now }
apply m (Event.master_encoder delta now) = record m { master = now }
apply m (Event.touch_strip p pr) = record m { touch = some (p, pr) }
apply m Event.touch_strip_released = record m { touch = none }
apply m (Event.analog AnalogKnob.mic_gain v) = record m { mic_gain = v }
apply m (Event.analog AnalogKnob.headphones v) = record m { headphones = v }
apply m (Event.analog AnalogKnob.master_volume v) = record m { master_vol = v }
apply m _ = m

abbrev pub replay : Mirror → List Event → Mirror
replay m [] = m
replay m (e ∷ events) = replay (apply m e) events

pub replay-append :
    (m : Mirror) (xs ys : List Event) → replay m (xs ++ ys) ≡ replay (replay m xs) ys
replay-append m [] ys = refl
replay-append m (x ∷ xs) ys = replay-append (apply m x) xs ys

-- Buttons.
abbrev press_all : (ℕ → Bool) → List (ℕ × Bool) → ℕ → Bool
press_all old [] = old
press_all old ((i, b) ∷ edges) = press_all (press old i b) edges

replay-button_events :
    (m : Mirror) (edges : List (ℕ × Bool))
    → replay m (button_events edges) ≡ record m { pressed = press_all m.pressed edges }
unfolding button_events
replay-button_events m [] = refl
replay-button_events m ((i, b) ∷ edges) =
    replay-button_events (record m { pressed = press m.pressed i b }) edges

abbrev or_else : Option Bool → Bool → Bool
or_else none b = b
or_else (some a) b = a

find_edge_below :
    (k lo : ℕ) (edges : List (ℕ × Bool))
    → IsAscending lo 64 edges
    → k < lo
    → find_edge k edges ≡ none
find_edge_below k lo [] h p = refl
find_edge_below k lo ((i, b) ∷ edges) (q, r, h) p =
    ground (arith, find_edge_below k (i + 1) edges h (omega arith))

press_all_lem :
    (old : ℕ → Bool) (edges : List (ℕ × Bool)) (lo k : ℕ)
    → IsAscending lo 64 edges
    → press_all old edges k ≡ or_else (find_edge k edges) (old k)
press_all_lem old [] lo k h = refl
press_all_lem old ((i, b) ∷ edges) lo k (q, r, h) =
    press_all_lem (press old i b) edges (i + 1) k h ∙ elim (Bool-cases (i == k)) [
      | inl same ↦ rw (same, find_edge_below k (i + 1) edges h (ground arith))
      | inr other ↦ rw other
    ]

pub replay_buttons :
    (m : Mirror) (prev c : ControlsReport)
    → IsReport prev
    → IsReport c
    → m.pressed ≡ (λ k. bit prev.buttons k == 1)
    → replay m (button_events (buttons_diff c prev.buttons))
      ≡ record m { pressed = λ k. bit c.buttons k == 1 }
replay_buttons m prev c p h e =
    replay-button_events m edges
    ∙ ap (λ (f : ℕ → Bool). record m { pressed = f }) (fun_ext at_button)
  where
    edges : List (ℕ × Bool)
    edges = buttons_diff c prev.buttons

    at_button : (k : ℕ) → press_all m.pressed edges k ≡ (bit c.buttons k == 1)
    at_button k =
        press_all_lem m.pressed edges 0 k (buttons_diff-IsAscending c prev.buttons)
        ∙ rw (find_edge-buttons_diff c prev.buttons k, e)
            (ground (
              arith,
              bit_high 64 c.buttons k h.buttons_fit,
              bit_high 64 prev.buttons k p.buttons_fit,
            ))
