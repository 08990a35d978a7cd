-- ===== src/Core/Display/Scheduler/Updates.antt =====
-- A change of a framebuffer and the flush after it.
use openmk.Prelude.{
  ℕ, ◌*◌, ◌/◌, ◌≡◌, ◌∙◌, ◌⊎◌, refl, ap, sym, subst, inl, inr, Bool, true, false, none, some, List,
  [], ◌∷◌, length, if◌then◌else◌, if_true, if_false, ok, arith,
}
use openmk.Proto.Types.{width, height}
use openmk.Core.Display.Dirty.{DirtyTracker, DirtyTracker_new, is_empty, is_tile_dirty, runs}
use openmk.Core.Display.Dirty.Runs.{covered, covered-runs}
use openmk.Core.Display.Dirty.Apart.{AreApart, runs-AreApart}
use openmk.Core.Display.Dirty.Full.{IsTracker, is_empty_iff, is_empty_dirty}
use openmk.Core.Display.Framebuffer.{Framebuffer, is_dirty}
use openmk.Core.Display.Framebuffer.Pixels.{pixel_at}
use openmk.Core.Display.Scheduler.{DisplayHandle, modify, notified, wake, flush}
use openmk.Core.Display.Scheduler.Flushes.{transfer, modify-flush}
use openmk.Core.Display.Scheduler.Reader.{Screen, AreWords}
use openmk.Core.Display.Scheduler.Shown.{shown, shown-transfer}

abbrev pub IsClean : DirtyTracker → Type 0
IsClean t = (i j : ℕ) → is_tile_dirty t i j ≡ false

abbrev pub HasDirty : DirtyTracker → Type 0
HasDirty t = (i : ℕ) × (j : ℕ) × (is_tile_dirty t i j ≡ true)

-- Either no tile is dirty and the tracker says that it is empty, or one is and it says that it is not.
is_empty-cases :
    (t : DirtyTracker)
    → IsTracker t
    → (IsClean t × (is_empty t ≡ true)) ⊎ (HasDirty t × (is_empty t ≡ false))
is_empty-cases t v = by_runs (runs t) refl
  where
    by_runs :
        (rs : List (ℕ × ℕ × ℕ))
        → runs t ≡ rs
        → (IsClean t × (is_empty t ≡ true)) ⊎ (HasDirty t × (is_empty t ≡ false))
    by_runs [] e =
        inl (λ i j. sym (covered-runs t i j) ∙ ap (λ rs. covered rs i j) e, (is_empty_iff t v).1 e)
    by_runs ((r, a, b) ∷ later) e =
        let apart = subst (AreApart 0 0) e (runs-AreApart t) in
        let inside : covered ((r, a, b) ∷ later) a r ≡ true = ground (arith, apart.2) in
        let dirty = sym (covered-runs t a r) ∙ ap (λ rs. covered rs a r) e ∙ inside in
        inr ((a, r, dirty), is_empty_dirty t a r dirty)

module _ {Transport : Type 0} (write_display : List ℕ → Transport → Bool × Transport) where
  -- A change is followed by a flush: after any change the wait can end at once, by the notification, and a
  -- further wait needs the tick or another change. Either no tile is dirty after the change, and the flush
  -- writes nothing and changes nothing; or one is, and the flush writes one transfer and leaves no tile
  -- dirty, and a display that reads the transfer shows afterwards the changed framebuffer in the tiles that
  -- were dirty, and elsewhere what it showed before. Conditions: after the change the framebuffer has a
  -- pixel of 16 bits for each place of the screen, and its tracker eight words with no digit set that
  -- stands for no tile.
  pub flush-modify :
      (f : Framebuffer → Framebuffer) (h : DisplayHandle) (t : Transport) (s : Screen)
      → length (f h.fb).pixels ≡ width * height
      → AreWords (f h.fb).pixels
      → IsTracker (f h.fb).dirty
      → (woken : DisplayHandle) × (wake notified (modify f h) ≡ some woken)
        × (wake notified woken ≡ none)
        × ((IsClean (f h.fb).dirty × (flush write_display woken t ≡ ok (woken, t)))
            ⊎ (HasDirty (f h.fb).dirty
                × (bytes : List ℕ) × (flush write_display woken t
                    ≡ ok (
                      record woken { fb = record (f h.fb) { dirty = DirtyTracker_new } },
                      (write_display bytes t).1,
                    ))
                × ((i j : ℕ)
                    → shown bytes s i j ≡ (
                        if is_tile_dirty (f h.fb).dirty (i / 16) (j / 16)
                        then pixel_at (f h.fb) i j
                        else s i j))))
  flush-modify f h t s sized v tracked =
      let (woken, ends, same, again, flushes) = modify-flush write_display f h t sized in
      (
        woken,
        ends,
        again,
        elim (is_empty-cases (f h.fb).dirty tracked) [
          | inl (clean, empty) ↦
              inl (
                clean,
                flushes ∙ if_false (is_dirty (f h.fb)) _ _ (unfold is_dirty in rw empty refl),
              )
          | inr (dirty, filled) ↦ inr (
            dirty,
            transfer woken,
            flushes ∙ if_true (is_dirty (f h.fb)) _ _ (unfold is_dirty in rw filled refl),
            λ i j.
                shown-transfer woken s i j (subst (λ fb. AreWords fb.pixels) (sym same) v)
                ∙ ap
                    (λ fb.
                      if is_tile_dirty fb.dirty (i / 16) (j / 16) then pixel_at fb i j else s i j)
                    same,
          )
        ],
      )
