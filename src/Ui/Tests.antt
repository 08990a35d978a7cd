-- ===== src/Ui/Tests.antt =====
-- Runs of the browser on a display that only counts what is set.
use openmk.Prelude.{
  ℕ, ◌+◌, ◌-◌, ◌<◌, ◌≡◌, refl, true, some, List, [], ◌∷◌, ◌++◌, length, take, drop, none, pos,
  codes, replicate, arith,
}
use openmk.Nks.Plid.{Str}
use openmk.Index.Query.{PresetRow}
use openmk.Ui.Render.{PixelSink, sink_fill_rect}
use openmk.Ui.Browse.{
  BrowseState, bg, selected, visible, start, row_y, draw_row, draw_caption, status_strip,
  render_right, draw_facets,
}
use openmk.Ui.Browse.Window.{draw_plain, draw_each, render_right-selected, draw_facets-take}

abbrev counter : PixelSink ℕ
counter = record { width = λ n. 480; height = λ n. 272; set = λ n x y c. n + 1 }

abbrev row : PresetRow
row = record {
  id = pos 1;
  path = [];
  name = codes "Bell";
  vendor = [];
  plugin_ref = [];
  bank_chain = [];
}

abbrev bell : PresetRow
bell = record row { id = pos 2 }

abbrev browser : BrowseState
browser = record {
  facet = none;
  type_filter = none;
  subtype_filter = none;
  mode_filter = none;
  vendor_filter = none;
  text_query = none;
  cursor = 8;
  rows = replicate 8 row ++ bell ∷ replicate 11 row;
  facet_values = [];
  facet_cursor = 0;
}

has_room : 0 < visible counter (sink_fill_rect counter 0 0 0 480 272 bg)
unfolding visible
has_room = omega arith

render_right-selected_example :
    let filled = sink_fill_rect counter 0 0 0 480 272 bg in
    let k = 8 - start counter browser filled in
    (before : List PresetRow) × (after : List PresetRow) × (take
        (visible counter filled)
        (drop (start counter browser filled) browser.rows)
      ≡ before ++ bell ∷ after)
    × (length before ≡ k)
    × (render_right counter browser 0
        ≡ draw_caption counter (some bell) (
            status_strip counter (
              draw_plain counter (k + 1) after (
                draw_row counter true
                  (row_y counter k)
                  bell
                  (draw_plain counter 0 before filled)))))
render_right-selected_example =
    render_right-selected counter browser 0 bell has_room (unfold selected in refl)

abbrev facets : List Str
facets = replicate 8 (codes "FX")

draw_facets-take_example :
    draw_facets counter 7 0 facets 0 ≡ draw_each counter 7 0 (take 7 facets) 0
draw_facets-take_example = draw_facets-take counter (λ s. refl) 7 facets 0
