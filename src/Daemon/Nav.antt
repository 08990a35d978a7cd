-- ===== src/Daemon/Nav.antt =====
-- crates/maschined/src/main.rs: the encoders that move the browser's cursors. A delta is an integer of
-- 16 bits.
pub mod Cursor
use openmk.Prelude.{
  ℕ, zero, suc, ◌+◌, ◌-◌, ◌*◌, ◌%◌, ◌<◌, ℤ, pos, negsuc, pos_part, neg_part, unsigned_abs,
  is_positive, Bool, true, false, List, [], ◌∷◌, length, ltb, ◌==◌, if◌then◌else◌,
}
use openmk.Core.Event.{
  Event, macro_encoder, pad, button, master_encoder, touch_strip, touch_strip_released, analog, raw,
}
use openmk.Proto.Types.{left, right}
use openmk.Core.Display.Scheduler.{DisplayHandle, modify}
use openmk.Ui.Browse.{BrowseState, cursor_up, cursor_down, render}
use openmk.Daemon.Sink.{fb_sink}

-- The loop over the steps of a turn.
unfoldable pub turn : Bool → ℕ → BrowseState → BrowseState
turn down zero b = b
turn down (suc n) b = turn down n (if down then cursor_down b else cursor_up b)

-- `i16::signum`
abbrev pub signum : ℤ → ℤ
signum (pos zero) = pos 0
signum (pos (suc n)) = pos 1
signum (negsuc n) = negsuc 0

-- `isize::rem_euclid`, of a number and a positive one
abbrev pub rem_euclid : ℤ → ℕ → ℕ
rem_euclid (pos a) n = a % n
rem_euclid (negsuc a) n = (n - 1) - a % n

-- The sum of a number and an integer.
abbrev pub add_delta : ℕ → ℤ → ℤ
add_delta a (pos b) = pos (a + b)
add_delta a (negsuc b) = if ltb b a then pos (a - suc b) else negsuc (b - a)

-- The branch of encoder 0: the new browser state, and whether to repaint.
unfoldable pub turn_facet : ℤ → BrowseState → Bool × BrowseState
turn_facet delta b =
    let n = length b.facet_values in
    if ltb 0 n
    then (true, record b { facet_cursor = rem_euclid (add_delta b.facet_cursor (signum delta)) n })
    else (false, b)

-- The new browser state, and whether to repaint.
unfoldable pub nav_event : Event → BrowseState → Bool × BrowseState
nav_event (macro_encoder index delta absolute) b =
    if index == 2
    then (true, turn (is_positive delta) (unsigned_abs delta) b)
    else if index == 0
    then turn_facet delta b
    else (false, b)
nav_event _ b = (false, b)

-- `repaint`: both displays are drawn anew.
unfoldable pub repaint : DisplayHandle → DisplayHandle → BrowseState → DisplayHandle × DisplayHandle
repaint lhs rhs state =
    (modify (render fb_sink state left) lhs, modify (render fb_sink state right) rhs)
