-- ===== src/Ui/Browse/Preserve.antt =====
-- What every pixel write keeps, the rendering of the browser keeps.
use openmk.Prelude.{ℕ, ◌+◌, Bool, List, [], ◌∷◌, Option, none, some, ◌==◌}
use openmk.Proto.Types.{Rgb, DisplayId, left, right}
use openmk.Nks.Plid.{Str}
use openmk.Index.Query.{PresetRow}
use openmk.Ui.Render.{PixelSink, sink_fill_rect}
use openmk.Ui.Render.Preserve.{if_keeps, sink_fill_rect_keeps, draw_text_keeps}
use openmk.Ui.Browse.{
  BrowseState, bg, highlight, draw_facet, draw_facets, status_strip, status_text, render_left,
  draw_row, draw_rows, draw_caption, render_right, render,
}

module _ {ℓ} {S : Type 0} (sink : PixelSink S) (P : S → Type ℓ)
    (set_keeps : (s : S) (x y : ℕ) (c : Rgb) → P s → P (sink.set s x y c)) where
  highlight_keeps : (s : S) (y : ℕ) (back accent : Rgb) → P s → P (highlight sink y back accent s)
  unfolding highlight
  highlight_keeps s y back accent p =
      sink_fill_rect_keeps sink P set_keeps _ _ _ _ _ _
        (sink_fill_rect_keeps sink P set_keeps s _ _ _ _ _ p)

  draw_facet_keeps : (cursor i : ℕ) (val : Str) (s : S) → P s → P (draw_facet sink cursor i val s)
  unfolding draw_facet
  draw_facet_keeps cursor i val s p =
      draw_text_keeps sink P set_keeps _ _ _ val _
        (if_keeps sink P set_keeps (i == cursor) _ s (highlight_keeps s _ _ _ p) p)

  draw_facets_keeps :
      (cursor i : ℕ) (vals : List Str) (s : S) → P s → P (draw_facets sink cursor i vals s)
  unfolding draw_facets
  draw_facets_keeps cursor i [] s p = p
  draw_facets_keeps cursor i (val ∷ vals) s p = if_keeps sink P set_keeps _ s _ p (
      draw_facets_keeps cursor (i + 1) vals (draw_facet sink cursor i val s)
        (draw_facet_keeps cursor i val s p))

  status_strip_keeps : (s : S) → P s → P (status_strip sink s)
  unfolding status_strip
  status_strip_keeps s p = sink_fill_rect_keeps sink P set_keeps s _ _ _ _ _ p

  status_text_keeps : (text : Str) (s : S) → P s → P (status_text sink text s)
  unfolding status_text
  status_text_keeps text s p = draw_text_keeps sink P set_keeps s _ _ text _ p

  -- What holds after the whole display is filled, which comes first, holds after the rendering.
  render_left_filled :
      (b : BrowseState) (s : S)
      → P (sink_fill_rect sink s 0 0 (sink.width s) (sink.height s) bg)
      → P (render_left sink b s)
  unfolding render_left
  render_left_filled b s p = status_text_keeps _ _ (
      status_strip_keeps _ (
        draw_facets_keeps _ _ _ _ (
          draw_text_keeps sink P set_keeps _ _ _ _ _
            (sink_fill_rect_keeps sink P set_keeps _ _ _ _ _ _ p))))

  draw_row_keeps :
      (is_cursor : Bool) (y : ℕ) (row : PresetRow) (s : S)
      → P s
      → P (draw_row sink is_cursor y row s)
  unfolding draw_row
  draw_row_keeps is_cursor y row s p = draw_text_keeps sink P set_keeps _ _ _ _ _ (
      draw_text_keeps sink P set_keeps _ _ _ _ _
        (if_keeps sink P set_keeps is_cursor _ s (highlight_keeps s _ _ _ p) p))

  draw_rows_keeps :
      (cursor from offset : ℕ) (rows : List PresetRow) (s : S)
      → P s
      → P (draw_rows sink cursor from offset rows s)
  unfolding draw_rows
  draw_rows_keeps cursor from offset [] s p = p
  draw_rows_keeps cursor from offset (row ∷ rows) s p =
      draw_rows_keeps cursor from (offset + 1) rows _ (draw_row_keeps _ _ row s p)

  draw_caption_keeps : (o : Option PresetRow) (s : S) → P s → P (draw_caption sink o s)
  unfolding draw_caption
  draw_caption_keeps none s p = p
  draw_caption_keeps (some sel) s p = status_text_keeps _ s p

  render_right_filled :
      (b : BrowseState) (s : S)
      → P (sink_fill_rect sink s 0 0 (sink.width s) (sink.height s) bg)
      → P (render_right sink b s)
  unfolding render_right
  render_right_filled b s p =
      draw_caption_keeps _ _ (status_strip_keeps _ (draw_rows_keeps _ _ _ _ _ p))

  pub render_filled :
      (b : BrowseState) (which : DisplayId) (s : S)
      → P (sink_fill_rect sink s 0 0 (sink.width s) (sink.height s) bg)
      → P (render sink b which s)
  unfolding render
  render_filled b left s p = render_left_filled b s p
  render_filled b right s p = render_right_filled b s p

  pub render_keeps : (b : BrowseState) (which : DisplayId) (s : S) → P s → P (render sink b which s)
  render_keeps b which s p =
      render_filled b which s (sink_fill_rect_keeps sink P set_keeps s _ _ _ _ _ p)
