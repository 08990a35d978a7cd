-- ===== src/Daemon/Nav/Cursor.antt =====
-- Where the encoders move the cursors.
use native.Mathlib.Nat.{mod-eq_of_lt, mod_self, zero-mod}
use openmk.Prelude.{
  ℕ, zero, suc, ◌+◌, ◌-◌, ◌%◌, ◌≤◌, ◌<◌, ◌≡◌, ◌∙◌, refl, ap, min, inl, inr, ℤ, pos, negsuc,
  is_positive, unsigned_abs, true, false, List, length, ltb, ◌==◌, if◌then◌else◌, Bool-cases,
  lt→ltb, ltb→lt, arith,
}
use openmk.Core.Event.{Event, macro_encoder}
use openmk.Index.Query.{PresetRow}
use openmk.Ui.Browse.{BrowseState, cursor_up, cursor_down, set_rows}
use openmk.Daemon.Nav.{turn, signum, rem_euclid, add_delta, turn_facet, nav_event}

-- Each cursor is on an entry of its list, or at 0 if the list is empty.
pub record IsBrowse (b : BrowseState) : Type 0 where
  pub cursor_in : b.cursor ≤ length b.rows - 1
  pub facet_in : b.facet_cursor ≤ length b.facet_values - 1

with_cursor : BrowseState → ℕ → BrowseState
with_cursor b c = record b { cursor = c }

cursor_up_lem : (b : BrowseState) → cursor_up b ≡ with_cursor b (b.cursor - 1)
unfolding cursor_up with_cursor
cursor_up_lem b = elim (Bool-cases (ltb 0 b.cursor)) [
  | inl above ↦ rw above refl
  | inr first ↦
      let e : b.cursor ≡ b.cursor - 1 = ground arith in rw first (ap (λ c. with_cursor b c) e)
]

cursor_down_lem :
    (b : BrowseState)
    → b.cursor ≤ length b.rows - 1
    → cursor_down b ≡ with_cursor b (min (b.cursor + 1) (length b.rows - 1))
unfolding cursor_down with_cursor
cursor_down_lem b h = elim (Bool-cases (ltb (b.cursor + 1) (length b.rows))) [
  | inl before ↦
      let e : b.cursor + 1 ≡ min (b.cursor + 1) (length b.rows - 1) = ground arith in
      rw before (ap (λ c. with_cursor b c) e)
  | inr last ↦
      let e : b.cursor ≡ min (b.cursor + 1) (length b.rows - 1) = ground arith in
      rw last (ap (λ c. with_cursor b c) e)
]

turn_up : (n : ℕ) (b : BrowseState) → turn false n b ≡ with_cursor b (b.cursor - n)
unfolding turn with_cursor
turn_up zero b = ap (λ c. with_cursor b c) (omega arith)
turn_up (suc n) b =
    turn_up n (cursor_up b)
    ∙ rw (cursor_up_lem b) (ap (λ c. with_cursor b c) {x = b.cursor - 1 - n} (omega arith))

turn_down :
    (n : ℕ) (b : BrowseState)
    → b.cursor ≤ length b.rows - 1
    → turn true n b ≡ with_cursor b (min (b.cursor + n) (length b.rows - 1))
unfolding turn with_cursor
turn_down zero b h = ap (λ c. with_cursor b c) (omega arith)
turn_down (suc n) b h =
    turn_down n (cursor_down b) (rw (cursor_down_lem b h) (omega arith))
    ∙ rw (cursor_down_lem b h) (
        ap (λ c. with_cursor b c)
          {x = min (min (b.cursor + 1) (length b.rows - 1) + n) (length b.rows - 1)} (omega arith))

-- Where encoder 2 moves the cursor of a list of `n` rows: by the delta, and not past an end.
abbrev pub scrolled : ℕ → ℤ → ℕ → ℕ
scrolled n (pos d) c = min (c + d) (n - 1)
scrolled n (negsuc d) c = c - suc d

-- Where encoder 0 moves the cursor of `n` facet values: by one in the direction of the delta, round the
-- end.
abbrev pub rotated : ℕ → ℤ → ℕ → ℕ
rotated n (pos zero) c = c
rotated n (pos (suc d)) c = if c + 1 == n then 0 else c + 1
rotated n (negsuc d) c = if c == 0 then n - 1 else c - 1

turn_by :
    (delta : ℤ) (b : BrowseState)
    → b.cursor ≤ length b.rows - 1
    → turn (is_positive delta) (unsigned_abs delta) b
      ≡ with_cursor b (scrolled (length b.rows) delta b.cursor)
unfolding with_cursor
turn_by (pos zero) b h = unfold turn in ap (λ c. with_cursor b c) (omega arith)
turn_by (pos (suc d)) b h = rw (lt→ltb 0 (suc d) (omega arith)) (turn_down (suc d) b h)
turn_by (negsuc d) b h = turn_up (suc d) b

rem_lem :
    (delta : ℤ) (c n : ℕ) → c < n → rem_euclid (add_delta c (signum delta)) n ≡ rotated n delta c
rem_lem (pos zero) c n h = mod-eq_of_lt (omega arith) ∙ omega arith
rem_lem (pos (suc d)) c n h = elim (Bool-cases (c + 1 == n)) [
  | inl last ↦ let e : c + 1 ≡ n = ground arith in rw last (rw e (mod_self n))
  | inr other ↦ rw other (mod-eq_of_lt (ground arith))
]
rem_lem (negsuc d) zero n h = let e : 0 % n ≡ 0 = zero-mod n in ground arith
rem_lem (negsuc d) (suc c) n h =
    let e : (suc c - 1) % n ≡ suc c - 1 = mod-eq_of_lt (omega arith) in ground arith

-- Encoder 2 moves the row cursor by the delta, stopping at the first and the last row; encoder 0 moves
-- the facet cursor by one step in the direction of the delta, round the ends, if there are facet
-- values, else it does nothing. A move asks for a repaint, and nothing else in the browser changes. Condition: the cursors
-- are on entries of their lists, or at 0 if a list is empty.
pub nav_event_lem :
    (delta : ℤ) (absolute : ℕ) (b : BrowseState)
    → IsBrowse b
    → (nav_event (macro_encoder 2 delta absolute) b
        ≡ (true, record b { cursor = scrolled (length b.rows) delta b.cursor }))
      × (nav_event (macro_encoder 0 delta absolute) b ≡ (
          if ltb 0 (length b.facet_values)
          then (
            true,
            record b { facet_cursor = rotated (length b.facet_values) delta b.facet_cursor },
          )
          else (false, b)))
unfolding nav_event turn_facet with_cursor
nav_event_lem delta absolute b v = (
  ap (λ t. (true, t)) (turn_by delta b v.cursor_in),
  elim (Bool-cases (ltb 0 (length b.facet_values))) [
    | inl values ↦
        let h = ltb→lt 0 (length b.facet_values) values in
        rw
          (values, rem_lem delta b.facet_cursor (length b.facet_values) (omega (arith, v.facet_in)))
          refl
    | inr nothing ↦ rw nothing refl
  ],
)

scrolled_in : (n : ℕ) (delta : ℤ) (c : ℕ) → c ≤ n - 1 → scrolled n delta c ≤ n - 1
scrolled_in n (pos d) c h = omega arith
scrolled_in n (negsuc d) c h = omega arith

rotated_in : (n : ℕ) (delta : ℤ) (c : ℕ) → c ≤ n - 1 → 0 < n → rotated n delta c ≤ n - 1
rotated_in n (pos zero) c h p = omega arith
rotated_in n (pos (suc d)) c h p = ground arith
rotated_in n (negsuc d) c h p = ground arith

turn_facet-IsBrowse : (delta : ℤ) (b : BrowseState) → IsBrowse b → IsBrowse (turn_facet delta b).1
unfolding turn_facet
turn_facet-IsBrowse delta b v = elim (Bool-cases (ltb 0 (length b.facet_values))) [
  | inl values ↦
      let h = ltb→lt 0 (length b.facet_values) values in
      rw (values, rem_lem delta b.facet_cursor (length b.facet_values) (omega (arith, v.facet_in)))
        (record { cursor_in = v.cursor_in; facet_in = rotated_in _ delta _ v.facet_in h })
  | inr nothing ↦ rw nothing v
]

turn-IsBrowse :
    (delta : ℤ) (b : BrowseState)
    → IsBrowse b
    → IsBrowse (turn (is_positive delta) (unsigned_abs delta) b)
unfolding with_cursor
turn-IsBrowse delta b v = rw (turn_by delta b v.cursor_in) (record {
  cursor_in = scrolled_in (length b.rows) delta b.cursor v.cursor_in;
  facet_in = v.facet_in;
})

-- Whatever event comes, and when new rows are set, the cursors stay on entries of their lists, or at 0
-- if a list is empty.
pub nav_event-IsBrowse :
    (ev : Event) (rows : List PresetRow) (b : BrowseState)
    → IsBrowse b
    → IsBrowse (nav_event ev b).1 × IsBrowse (set_rows rows b)
unfolding nav_event set_rows
nav_event-IsBrowse ev rows b v =
    (by_event ev, record { cursor_in = omega arith; facet_in = v.facet_in })
  where
    by_event : (ev : Event) → IsBrowse (nav_event ev b).1
    by_event (macro_encoder index delta absolute) = elim (Bool-cases (index == 2)) [
      | inl scroll ↦ rw scroll (turn-IsBrowse delta b v)
      | inr other ↦ rw other (elim (Bool-cases (index == 0)) [
        | inl facet ↦ rw facet (turn_facet-IsBrowse delta b v)
        | inr ignored ↦ rw ignored v
      ])
    ]
    by_event _ = v
