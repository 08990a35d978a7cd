-- ===== src/Ui/Browse/Related.antt =====
-- What every pixel write keeps of two pictures of the same size, the rendering of the browser keeps of
-- them from the first fill on.
use openmk.Prelude.{ℕ, ◌+◌, ◌≡◌, Bool, List, [], ◌∷◌, Option, none, some, ltb, as_u16, ◌==◌}
use openmk.Proto.Types.{Rgb, DisplayId, left, right}
use openmk.Nks.Plid.{Str}
use openmk.Index.Query.{PresetRow}
use openmk.Ui.Render.{PixelSink, sub_u16, sink_fill_rect, draw_text}
use openmk.Ui.Render.Related.{if_relates, sink_fill_rect_relates, draw_text_relates}
use openmk.Ui.Browse.{
  BrowseState, bg, status_height, row_height, facet_y, highlight, draw_facet, draw_facets,
  status_strip, status_text, render_left, visible, start, row_y, draw_row, draw_rows, draw_caption,
  render_right, render,
}

module _ {S : Type 0} (sink : PixelSink S) (R : S → S → Type 0)
    (set_relates : (s t : S) (x y : ℕ) (c : Rgb) → R s t → R (sink.set s x y c) (sink.set t x y c))
    (same_width : (s t : S) → sink.width t ≡ sink.width s)
    (same_height : (s t : S) → sink.height t ≡ sink.height s) where
  text_relates :
      (s t : S) (x y : ℕ) (text : Str) (c : Rgb)
      → R s t
      → R (draw_text sink s x y text c).1 (draw_text sink t x y text c).1
  text_relates = draw_text_relates sink R set_relates same_width

  highlight_relates :
      (s t : S) (y : ℕ) (back accent : Rgb)
      → R s t
      → R (highlight sink y back accent s) (highlight sink y back accent t)
  unfolding highlight
  highlight_relates s t y back accent p = rw (same_width s t) (
      sink_fill_rect_relates sink R set_relates _ _ _ _ _ _ _
        (sink_fill_rect_relates sink R set_relates s t _ _ _ _ _ p))

  draw_facet_relates :
      (cursor i : ℕ) (val : Str) (s t : S)
      → R s t
      → R (draw_facet sink cursor i val s) (draw_facet sink cursor i val t)
  unfolding draw_facet
  draw_facet_relates cursor i val s t p =
      text_relates _ _ _ _ val _
        (if_relates sink R set_relates (i == cursor) _ _ s t (highlight_relates s t _ _ _ p) p)

  draw_facets_relates :
      (cursor i : ℕ) (vals : List Str) (s t : S)
      → R s t
      → R (draw_facets sink cursor i vals s) (draw_facets sink cursor i vals t)
  unfolding draw_facets
  draw_facets_relates cursor i [] s t p = p
  draw_facets_relates cursor i (val ∷ vals) s t p = rw (same_height s t) (
      if_relates sink R set_relates
        (ltb (sub_u16 (sink.height s) status_height) (as_u16 (facet_y sink i + row_height))) s t _ _
        p
        (draw_facets_relates cursor (i + 1) vals (draw_facet sink cursor i val s)
          (draw_facet sink cursor i val t) (draw_facet_relates cursor i val s t p)))

  status_strip_relates : (s t : S) → R s t → R (status_strip sink s) (status_strip sink t)
  unfolding status_strip
  status_strip_relates s t p =
      rw (same_width s t, same_height s t)
        (sink_fill_rect_relates sink R set_relates s t _ _ _ _ _ p)

  status_text_relates :
      (text : Str) (s t : S) → R s t → R (status_text sink text s) (status_text sink text t)
  unfolding status_text
  status_text_relates text s t p = rw (same_height s t, status_text) (text_relates s t _ _ text _ p)

  render_left_relates :
      (b : BrowseState) (s t : S)
      → R
          (sink_fill_rect sink s 0 0 (sink.width s) (sink.height s) bg)
          (sink_fill_rect sink t 0 0 (sink.width t) (sink.height t) bg)
      → R (render_left sink b s) (render_left sink b t)
  unfolding render_left
  render_left_relates b s t p = status_text_relates _ _ _ (
      status_strip_relates _ _ (
        draw_facets_relates _ _ _ _ _ (
          text_relates _ _ _ _ _ _ (
            rw
              (same_width (sink_fill_rect sink s 0 0 (sink.width s) (sink.height s) bg)
                (sink_fill_rect sink t 0 0 (sink.width t) (sink.height t) bg))
              (sink_fill_rect_relates sink R set_relates _ _ _ _ _ _ _ p)))))

  draw_row_relates :
      (is_cursor : Bool) (y : ℕ) (row : PresetRow) (s t : S)
      → R s t
      → R (draw_row sink is_cursor y row s) (draw_row sink is_cursor y row t)
  unfolding draw_row
  draw_row_relates is_cursor y row s t p = text_relates _ _ _ _ _ _ (
      text_relates _ _ _ _ _ _
        (if_relates sink R set_relates is_cursor _ _ s t (highlight_relates s t _ _ _ p) p))

  draw_rows_relates :
      (cursor from offset : ℕ) (rows : List PresetRow) (s t : S)
      → R s t
      → R (draw_rows sink cursor from offset rows s) (draw_rows sink cursor from offset rows t)
  unfolding draw_rows
  draw_rows_relates cursor from offset [] s t p = p
  draw_rows_relates cursor from offset (row ∷ rows) s t p =
      draw_rows_relates cursor from (offset + 1) rows
        (draw_row sink (from + offset == cursor) (row_y sink offset) row s)
        (draw_row sink (from + offset == cursor) (row_y sink offset) row t)
        (draw_row_relates _ _ row s t p)

  draw_caption_relates :
      (o : Option PresetRow) (s t : S) → R s t → R (draw_caption sink o s) (draw_caption sink o t)
  unfolding draw_caption
  draw_caption_relates none s t p = p
  draw_caption_relates (some sel) s t p = status_text_relates _ s t p

  render_right_relates :
      (b : BrowseState) (s t : S)
      → R
          (sink_fill_rect sink s 0 0 (sink.width s) (sink.height s) bg)
          (sink_fill_rect sink t 0 0 (sink.width t) (sink.height t) bg)
      → R (render_right sink b s) (render_right sink b t)
  unfolding render_right start visible
  render_right_relates b s t p =
      rw
        (same_height (sink_fill_rect sink s 0 0 (sink.width s) (sink.height s) bg)
          (sink_fill_rect sink t 0 0 (sink.width t) (sink.height t) bg))
        (draw_caption_relates _ _ _ (status_strip_relates _ _ (draw_rows_relates _ _ _ _ _ _ p)))

  pub render_relates :
      (b : BrowseState) (which : DisplayId) (s t : S)
      → R
          (sink_fill_rect sink s 0 0 (sink.width s) (sink.height s) bg)
          (sink_fill_rect sink t 0 0 (sink.width t) (sink.height t) bg)
      → R (render sink b which s) (render sink b which t)
  unfolding render
  render_relates b left s t p = render_left_relates b s t p
  render_relates b right s t p = render_right_relates b s t p
