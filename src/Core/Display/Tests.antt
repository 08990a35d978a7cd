-- ===== src/Core/Display/Tests.antt =====
-- The unit tests of crates/maschine-core/src/display, and runs of its operations.
use openmk.Prelude.{
  ◌⊎◌, List, Bool, false, some, none, ℕ, ◌/◌, ◌*◌, ◌≡◌, refl, true, [], ◌∷◌, ◌++◌, replicate,
  length-replicate, if◌then◌else◌, length, ok,
}
use openmk.Proto.Types.{left, Rgb, width, height}
use openmk.Proto.Display.Commands.{flush_bytes, end_bytes}
use openmk.Core.Display.Dirty.{
  DirtyTracker, DirtyTracker_new, mark_full, mark_tile, mark_rect, is_tile_dirty, runs, rows_runs,
  row_runs, run_end, mark_rows, mark_cols,
}
use openmk.Core.Display.Dirty.Full.{mark_full-IsTracker}
use openmk.Core.Display.Framebuffer.{Framebuffer}
use openmk.Core.Display.Framebuffer.Pixels.{IsFramebuffer, pixel_at}
use openmk.Core.Display.Scheduler.{DisplayHandle, modify, notified, wake, flush}
use openmk.Core.Display.Scheduler.Updates.{IsClean, HasDirty, flush-modify}
use openmk.Core.Display.Scheduler.Reader.{zeros-AreWords}
use openmk.Core.Display.Scheduler.Shown.{shown, shown-encode_frame}
use openmk.Core.Display.Encoder.{encode_frame}
use openmk.Core.Display.Encoder.Frame.{runs_bytes, encode_frame_lem}

-- Tiles 1 and 2 of row 0.
abbrev two_tiles : DirtyTracker
two_tiles = record { bits = 6 ∷ replicate 7 0 }

abbrev screen : Framebuffer
screen = record { pixels = replicate 130560 0; dirty = two_tiles }

screen-sized : length screen.pixels ≡ width * height
screen-sized = length-replicate {A = ℕ} 130560 0

abbrev red : Rgb
red = record { r = 255; g = 0; b = 0 }

abbrev marked : DirtyTracker
marked =
    mark_tile (mark_tile (mark_tile (mark_tile (mark_tile DirtyTracker_new 2 0) 3 0) 4 0) 10 0) 5 3

runs_coalesce : runs marked ≡ (0, 2, 4) ∷ (0, 10, 10) ∷ (3, 5, 5) ∷ []
unfolding runs rows_runs row_runs run_end is_tile_dirty mark_tile
runs_coalesce = refl

mark_rect_neighbours : runs (mark_rect DirtyTracker_new 15 15 2 2) ≡ (0, 0, 1) ∷ (1, 0, 1) ∷ []
unfolding runs rows_runs row_runs run_end is_tile_dirty mark_tile mark_rect mark_rows mark_cols
mark_rect_neighbours = refl

screen-IsFramebuffer : IsFramebuffer (record screen { dirty = mark_full two_tiles })
screen-IsFramebuffer = record {
  pixels_sized = screen-sized;
  tracker = mark_full-IsTracker two_tiles refl;
}

encode_frame_lem_example :
    encode_frame left screen
    ≡ ok (
      runs_bytes left screen.pixels (runs screen.dirty) ++ (flush_bytes ++ end_bytes),
      record screen { dirty = DirtyTracker_new },
    )
encode_frame_lem_example = encode_frame_lem left screen screen-sized

-- A transport that takes everything and keeps it.
abbrev log_transfer : List ℕ → List (List ℕ) → Bool × List (List ℕ)
log_transfer payload sent = (true, payload ∷ sent)

abbrev handle : DisplayHandle
handle = record { id = left; fb = screen; notify = false }

abbrev all_dirty : Framebuffer
all_dirty = record screen { dirty = mark_full two_tiles }

-- A change that marks every tile.
flush-modify_example :
    (woken : DisplayHandle) × (wake notified
        (modify (λ fb. record fb { dirty = mark_full fb.dirty }) handle)
      ≡ some woken)
    × (wake notified woken ≡ none)
    × ((IsClean all_dirty.dirty × (flush log_transfer woken [] ≡ ok (woken, [])))
        ⊎ (HasDirty all_dirty.dirty
            × (bytes : List ℕ) × (flush log_transfer woken []
                ≡ ok (
                  record woken { fb = record all_dirty { dirty = DirtyTracker_new } },
                  (log_transfer bytes []).1,
                ))
            × ((i j : ℕ)
                → shown bytes (λ k l. 7) i j ≡ (
                    if is_tile_dirty all_dirty.dirty (i / 16) (j / 16)
                    then pixel_at all_dirty i j
                    else 7))))
flush-modify_example =
    flush-modify log_transfer (λ fb. record fb { dirty = mark_full fb.dirty }) handle [] (λ k l. 7)
      screen-sized (zeros-AreWords 130560) screen-IsFramebuffer.tracker

shown-encode_frame_example :
    (bytes : List ℕ) × (encode_frame left screen
      ≡ ok (bytes, record screen { dirty = DirtyTracker_new }))
    × ((i j : ℕ)
        → shown bytes (λ k l. 7) i j
          ≡ (if is_tile_dirty screen.dirty (i / 16) (j / 16) then pixel_at screen i j else 7))
shown-encode_frame_example =
    shown-encode_frame left screen (λ k l. 7) screen-sized (zeros-AreWords 130560)
