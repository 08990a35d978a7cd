-- ===== src/Core/Display/Scheduler/Flushes.antt =====
-- When a display is brought up to date.
use openmk.Prelude.{
  ℕ, ◌*◌, ◌≡◌, ◌∙◌, refl, sym, inl, inr, Bool, true, false, none, some, List, ◌++◌, length, ok,
  if◌then◌else◌, if_true, if_false, Bool-cases,
}
use openmk.Proto.Types.{width, height}
use openmk.Proto.Display.Commands.{flush_bytes, end_bytes}
use openmk.Core.Display.Dirty.{DirtyTracker_new, runs}
use openmk.Core.Display.Framebuffer.{Framebuffer, is_dirty}
use openmk.Core.Display.Encoder.Frame.{runs_bytes, encode_frame_lem}
use openmk.Core.Display.Scheduler.{
  DisplayHandle, modify, notified, wake, take_payload, write_payload, flush,
}

-- What a flush sends for a framebuffer with dirty tiles.
abbrev pub transfer : DisplayHandle → List ℕ
transfer h = runs_bytes h.id h.fb.pixels (runs h.fb.dirty) ++ (flush_bytes ++ end_bytes)

module _ {Transport : Type 0} (write_display : List ℕ → Transport → Bool × Transport) where
  pub flush_dirty :
      (h : DisplayHandle) (t : Transport)
      → length h.fb.pixels ≡ width * height
      → is_dirty h.fb ≡ true
      → flush write_display h t
        ≡ ok (
          record h { fb = record h.fb { dirty = DirtyTracker_new } },
          (write_display (transfer h) t).1,
        )
  unfolding flush take_payload write_payload
  flush_dirty h t v d = rw d (rw (encode_frame_lem h.id h.fb v) refl)

  pub flush_clean :
      (h : DisplayHandle) (t : Transport)
      → is_dirty h.fb ≡ false
      → flush write_display h t ≡ ok (h, t)
  unfolding flush take_payload write_payload
  flush_clean h t d = rw d refl

  -- A change is followed by a flush: after any change the wait can end at once, by the notification,
  -- and the flush then writes one transfer if a tile is dirty, with the runs of dirty tiles of the
  -- changed framebuffer, and leaves no tile dirty; if none is dirty it writes nothing. A further wait
  -- needs the tick or another change. Condition: the framebuffer has a pixel for each place of the
  -- screen after the change.
  pub modify-flush :
      (f : Framebuffer → Framebuffer) (h : DisplayHandle) (t : Transport)
      → length (f h.fb).pixels ≡ width * height
      → (woken : DisplayHandle) × (wake notified (modify f h) ≡ some woken)
        × (woken.fb ≡ f h.fb)
        × (wake notified woken ≡ none)
        × (flush write_display woken t ≡ (
            if is_dirty (f h.fb)
            then ok (
              record woken { fb = record (f h.fb) { dirty = DirtyTracker_new } },
              (write_display (transfer woken) t).1,
            )
            else ok (woken, t)))
  unfolding modify wake
  modify-flush f h t v = (
    record h { fb = f h.fb; notify = false },
    refl,
    refl,
    refl,
    elim (Bool-cases (is_dirty (f h.fb))) [
      | inl dirty ↦
          flush_dirty (record h { fb = f h.fb; notify = false }) t v dirty
          ∙ sym (if_true (is_dirty (f h.fb)) _ _ dirty)
      | inr clean ↦
          flush_clean (record h { fb = f h.fb; notify = false }) t clean
          ∙ sym (if_false (is_dirty (f h.fb)) _ _ clean)
    ],
  )
