-- ===== src/Core/Device/Replay.antt =====
-- The events of a control report lose nothing: a client that changes its copy as they say has the
-- report.
use openmk.Prelude.{
  ℕ, zero, suc, ◌+◌, ◌<◌, ◌≡◌, refl, sym, ap, ◌∙◌, inl, inr, true, false, Option, none, some, List,
  [], ◌∷◌, ◌++◌, append_assoc, length, length-append, set, All, ◌==◌, ==_iff, Bool-cases, bit, ℤ,
  pos, negsuc, is_nonzero, as_u8, arith,
}
use openmk.Proto.HidIn.{ControlsReport, ControlsReport_default, encoder_delta}
use openmk.Proto.HidIn.WellFormed.{IsReport}
use openmk.Proto.HidIn.Encoder.{IsShortWay, encoder_delta-IsShortWay}
use openmk.Core.Event.{Event, AnalogKnob}
use openmk.Core.Device.{
  DiffState, macro_events, master_events, touch_events, analog_events, unwrap_or_default,
  emit_controls,
}
use openmk.Core.Device.Mirror.{Mirror, mirror_of, replay, replay-append, replay_buttons}

-- Encoders: a delta of 0 is no movement.
delta_zero :
    (was now : ℕ)
    → was < 0x400
    → now < 0x400
    → is_nonzero (encoder_delta was now) ≡ false
    → was ≡ now
delta_zero was now p q still =
    settled (encoder_delta was now) (encoder_delta-IsShortWay was now p q) still
  where
    settled : (d : ℤ) → IsShortWay was now d → is_nonzero d ≡ false → was ≡ now
    settled (pos n) w e = ground arith
    settled (negsuc n) w e = ground arith

set-append :
    (pre ws : List ℕ) (w v i : ℕ) → i ≡ length pre → set (pre ++ w ∷ ws) i v ≡ pre ++ v ∷ ws
set-append [] ws w v zero e = refl
set-append [] ws w v (suc i) e = absurd (omega arith)
set-append (x ∷ pre) ws w v zero e = absurd (omega arith)
set-append (x ∷ pre) ws w v (suc i) e = ap (◌∷◌ x) (set-append pre ws w v i (omega arith))

macro_events-moved :
    (i now was : ℕ) (nows wases : List ℕ)
    → i < 256
    → is_nonzero (encoder_delta was now) ≡ true
    → macro_events i (now ∷ nows) (was ∷ wases)
      ≡ Event.macro_encoder i (encoder_delta was now) now ∷ macro_events (i + 1) nows wases
unfolding macro_events
macro_events-moved i now was nows wases small moved = rw (moved, byte)
  where
    byte : as_u8 i ≡ i
    byte = omega arith

macro_events-still :
    (i now was : ℕ) (nows wases : List ℕ)
    → is_nonzero (encoder_delta was now) ≡ false
    → macro_events i (now ∷ nows) (was ∷ wases) ≡ macro_events (i + 1) nows wases
unfolding macro_events
macro_events-still i now was nows wases still = rw still

replay-macro_events :
    (m : Mirror) (pre nows wases : List ℕ) (i : ℕ)
    → m.macros ≡ pre ++ wases
    → i ≡ length pre
    → i + length nows < 256
    → length nows ≡ length wases
    → All (λ v. v < 0x400) nows
    → All (λ v. v < 0x400) wases
    → replay m (macro_events i nows wases) ≡ record m { macros = pre ++ nows }
replay-macro_events m pre [] [] i e f few same p q =
    unfold macro_events in ap (λ (vs : List ℕ). record m { macros = vs }) e
replay-macro_events m pre [] (was ∷ wases) i e f few same p q = absurd (omega arith)
replay-macro_events m pre (now ∷ nows) [] i e f few same p q = absurd (omega arith)
replay-macro_events m pre (now ∷ nows) (was ∷ wases) i e f few same p q =
    let stored = pre ++ now ∷ [] in
    let counted : i + 1 ≡ length stored = omega (arith, length-append pre (now ∷ [])) in
    let regroup = append_assoc pre (now ∷ []) in
    let later = λ (u : Mirror) (v : u.macros ≡ stored ++ wases).
      replay-macro_events u stored nows wases (i + 1) v counted (omega arith) (omega arith) p.1
        q.1 in
    elim (Bool-cases (is_nonzero (encoder_delta was now))) [
      | inl moved ↦ rw (macro_events-moved i now was nows wases (omega arith) moved) (
          rw (regroup nows) at later (record m { macros = set m.macros i now })
            (ap (λ (vs : List ℕ). set vs i now) e
              ∙ set-append pre wases was now i f
              ∙ sym (regroup wases)))
      | inr still ↦ rw (macro_events-still i now was nows wases still) (
          rw (regroup nows) at later m (
            e
            ∙ ap (λ (v : ℕ). pre ++ v ∷ wases) (delta_zero was now q.0 p.0 still)
            ∙ sym (regroup wases)))
    ]

replay-master_events :
    (m : Mirror) (was now : ℕ)
    → m.master ≡ was
    → was < 0x400
    → now < 0x400
    → replay m (master_events was now) ≡ record m { master = now }
unfolding master_events
replay-master_events m was now e p q = elim (Bool-cases (is_nonzero (encoder_delta was now))) [
  | inl moved ↦ rw moved
  | inr still ↦
      rw still (ap (λ (v : ℕ). record m { master = v }) (e ∙ delta_zero was now p q still))
]

replay-touch_events :
    (m : Mirror) (was now : Option (ℕ × ℕ))
    → m.touch ≡ was
    → replay m (touch_events was now) ≡ record m { touch = now }
unfolding touch_events
replay-touch_events m none none e = ap (λ (t : Option (ℕ × ℕ)). record m { touch = t }) e
replay-touch_events m (some u) none e = refl
replay-touch_events m none (some t) e = refl
replay-touch_events m (some u) (some t) e = refl

replay-mic_gain :
    (m : Mirror) (was now : ℕ)
    → m.mic_gain ≡ was
    → replay m (analog_events AnalogKnob.mic_gain was now) ≡ record m { mic_gain = now }
unfolding analog_events
replay-mic_gain m was now e = elim (Bool-cases (was == now)) [
  | inl same ↦ rw same (ap (λ (v : ℕ). record m { mic_gain = v }) (e ∙ (==_iff was now).0 same))
  | inr moved ↦ rw moved
]

replay-headphones :
    (m : Mirror) (was now : ℕ)
    → m.headphones ≡ was
    → replay m (analog_events AnalogKnob.headphones was now) ≡ record m { headphones = now }
unfolding analog_events
replay-headphones m was now e = elim (Bool-cases (was == now)) [
  | inl same ↦ rw same (ap (λ (v : ℕ). record m { headphones = v }) (e ∙ (==_iff was now).0 same))
  | inr moved ↦ rw moved
]

replay-master_vol :
    (m : Mirror) (was now : ℕ)
    → m.master_vol ≡ was
    → replay m (analog_events AnalogKnob.master_volume was now) ≡ record m { master_vol = now }
unfolding analog_events
replay-master_vol m was now e = elim (Bool-cases (was == now)) [
  | inl same ↦ rw same (ap (λ (v : ℕ). record m { master_vol = v }) (e ∙ (==_iff was now).0 same))
  | inr moved ↦ rw moved
]

pub ControlsReport_default-IsReport : IsReport ControlsReport_default
ControlsReport_default-IsReport = record {
  buttons_fit = omega arith;
  eight_macros = refl;
  macros_fit = omega arith;
  master_fits = omega arith;
  touch_fits = tt;
  mic_gain_fits = omega arith;
  headphones_fit = omega arith;
  master_vol_fits = omega arith;
}

-- A client whose copy is the last report, or at the start the empty one, and who changes it as the
-- events of a control report say, then holds that report.
pub replay-emit_controls :
    (s : DiffState) (c : ControlsReport)
    → IsReport (unwrap_or_default s.last)
    → IsReport c
    → replay (mirror_of (unwrap_or_default s.last)) (emit_controls s c).1 ≡ mirror_of c
unfolding emit_controls
replay-emit_controls s c p h =
    let m₁ = record (mirror_of prev) { pressed = λ k. bit c.buttons k == 1 } in
    let m₂ = record m₁ { macros = c.macros } in
    let m₃ = record m₂ { master = c.master } in
    let m₄ = record m₃ { touch = c.touch_strip } in
    let m₅ = record m₄ { mic_gain = c.mic_gain } in
    let m₆ = record m₅ { headphones = c.headphones } in
    rw (
      replay-append,
      replay_buttons (mirror_of prev) prev c p h refl,
      replay-append,
      replay-macro_events m₁ [] c.macros prev.macros 0 refl refl (omega (arith, h.eight_macros))
          (h.eight_macros ∙ sym p.eight_macros) h.macros_fit p.macros_fit,
      replay-append,
      replay-master_events m₂ prev.master c.master refl p.master_fits h.master_fits,
      replay-append,
      replay-touch_events m₃ prev.touch_strip c.touch_strip refl,
      replay-append,
      replay-mic_gain m₄ prev.mic_gain c.mic_gain refl,
      replay-append,
      replay-headphones m₅ prev.headphones c.headphones refl,
      replay-master_vol m₆ prev.master_vol c.master_vol refl,
    )
  where
    prev : ControlsReport
    prev = unwrap_or_default s.last
