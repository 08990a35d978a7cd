-- ===== src/Ui/Browse.antt =====
-- crates/maschine-ui/src/browse.rs and layout.rs: the browser. Text is a list of character codes.
pub mod Preserve
pub mod Related
pub mod Window
use openmk.Prelude.{
  ℕ, zero, suc, ◌+◌, ◌-◌, ◌*◌, ◌/◌, min, Bool, Option, none, some, List, [], ◌∷◌, ◌++◌, length,
  get_elem?, take, drop, ltb, ◌==◌, if◌then◌else◌, as_u16, codes, decimal, join,
}
use openmk.Proto.Types.{DisplayId, left, right, Rgb}
use openmk.Nks.Plid.{Str}
use openmk.Index.Query.{PresetRow}
use openmk.Ui.Render.{PixelSink, sub_u16, sink_fill_rect, draw_text}

pub data FacetLevel : Type 0 where
  type_level subtype_level mode_level vendor_level : FacetLevel

pub record BrowseState : Type 0 where
  pub facet : Option FacetLevel
  pub type_filter : Option Str
  pub subtype_filter : Option Str
  pub mode_filter : Option Str
  pub vendor_filter : Option Str
  pub text_query : Option Str
  pub cursor : ℕ
  pub rows : List PresetRow
  pub facet_values : List Str
  pub facet_cursor : ℕ

unfoldable pub BrowseState_default : BrowseState
BrowseState_default = record {
  facet = none;
  type_filter = none;
  subtype_filter = none;
  mode_filter = none;
  vendor_filter = none;
  text_query = none;
  cursor = 0;
  rows = [];
  facet_values = [];
  facet_cursor = 0;
}

unfoldable pub selected : BrowseState → Option PresetRow
selected b = get_elem? b.rows b.cursor

unfoldable pub cursor_up : BrowseState → BrowseState
cursor_up b = if ltb 0 b.cursor then record b { cursor = b.cursor - 1 } else b

unfoldable pub cursor_down : BrowseState → BrowseState
cursor_down b = if ltb (b.cursor + 1) (length b.rows) then record b { cursor = b.cursor + 1 } else b

unfoldable pub set_rows : List PresetRow → BrowseState → BrowseState
set_rows rows b = record b { rows = rows; cursor = 0 }

-- `if let Some(v) = … { parts.push(v.clone()); }`
abbrev pub push_some : Option Str → List Str → List Str
push_some none parts = parts
push_some (some v) parts = parts ++ (v ∷ [])

unfoldable pub breadcrumb : BrowseState → Str
breadcrumb b = join (codes " / ") (
    push_some b.mode_filter (
      push_some b.subtype_filter
        (push_some b.type_filter (push_some b.vendor_filter (codes "All" ∷ [])))))

abbrev pub status_height : ℕ
status_height = 24

abbrev pub breadcrumb_height : ℕ
breadcrumb_height = 32

abbrev pub row_height : ℕ
row_height = 28

abbrev pub rgb : ℕ → ℕ → ℕ → Rgb
rgb r g b = record { r = r; g = g; b = b }

abbrev pub bg : Rgb
bg = rgb 0x05 0x08 0x12

abbrev pub fg : Rgb
fg = rgb 0xe0 0xe0 0xe0

abbrev pub dim : Rgb
dim = rgb 0x70 0x80 0x90

abbrev pub left_accent : Rgb
left_accent = rgb 0xff 0x80 0x20

abbrev pub right_accent : Rgb
right_accent = rgb 0x20 0xc0 0xff

abbrev pub caption : PresetRow → Str
caption sel = vendor_or sel.vendor
  where
    vendor_or : Str → Str
    vendor_or [] = sel.plugin_ref
    vendor_or (c ∷ vendor) = c ∷ vendor

module _ {S : Type 0} (sink : PixelSink S) where
  -- The highlight of the row at `y`: its background, and a bar at its left end.
  unfoldable pub highlight : ℕ → Rgb → Rgb → S → S
  highlight y back accent s =
      sink_fill_rect sink (sink_fill_rect sink s 0 (sub_u16 y 2) (sink.width s) row_height back) 0
        (sub_u16 y 2) 4 row_height accent

  -- The top of row `i` of the facet list.
  abbrev pub facet_y : ℕ → ℕ
  facet_y i = as_u16 (breadcrumb_height + 8 + as_u16 (as_u16 i * row_height))

  unfoldable pub draw_facet : ℕ → ℕ → Str → S → S
  draw_facet facet_cursor i val s =
      (draw_text sink
        (if i == facet_cursor then highlight (facet_y i) (rgb 0x1c 0x22 0x30) left_accent s else s)
        12 (as_u16 (facet_y i + 4)) val (if i == facet_cursor then left_accent else fg)).1

  -- The loop over the facet list, from entry `i` on; it ends above the status strip.
  unfoldable pub draw_facets : ℕ → ℕ → List Str → S → S
  draw_facets facet_cursor i [] s = s
  draw_facets facet_cursor i (val ∷ vals) s =
      if ltb (sub_u16 (sink.height s) status_height) (as_u16 (facet_y i + row_height))
      then s
      else draw_facets facet_cursor (i + 1) vals (draw_facet facet_cursor i val s)

  unfoldable pub status_strip : S → S
  status_strip s =
      sink_fill_rect sink s 0 (sub_u16 (sink.height s) status_height) (sink.width s) status_height
        (rgb 0x10 0x14 0x22)

  unfoldable pub status_text : Str → S → S
  status_text text s =
      (draw_text sink s 8 (as_u16 (sub_u16 (sink.height s) status_height + 8)) text
        (rgb 0x90 0xa0 0xc0)).1

  unfoldable pub render_left : BrowseState → S → S
  render_left b s =
      let s1 = sink_fill_rect sink s 0 0 (sink.width s) (sink.height s) bg in
      let s2 = sink_fill_rect sink s1 0 0 (sink.width s1) breadcrumb_height (rgb 0x10 0x14 0x22) in
      let s3 = (draw_text sink s2 8 8 (breadcrumb b) fg).1 in
      let s4 = draw_facets b.facet_cursor 0 b.facet_values s3 in
      status_text (decimal (length b.rows) ++ codes " presets") (status_strip s4)

  -- How many rows the list shows.
  unfoldable pub visible : S → ℕ
  visible s = sub_u16 (sink.height s) status_height / row_height - 1

  -- The first row that the list shows.
  unfoldable pub start : BrowseState → S → ℕ
  start b s = b.cursor - visible s / 2

  -- The top of the row at an offset into the list.
  abbrev pub row_y : ℕ → ℕ
  row_y offset = as_u16 (8 + as_u16 (as_u16 offset * row_height))

  unfoldable pub draw_row : Bool → ℕ → PresetRow → S → S
  draw_row is_cursor y row s =
      (draw_text sink
        (draw_text sink (if is_cursor then highlight y (rgb 0x16 0x26 0x34) right_accent s else s)
          12 (as_u16 (y + 2)) row.name (if is_cursor then right_accent else fg)).1
        12 (as_u16 (y + 14)) row.bank_chain dim).1

  -- The loop over the rows that the list shows, the first of which is row `start`.
  unfoldable pub draw_rows : ℕ → ℕ → ℕ → List PresetRow → S → S
  draw_rows cursor start offset [] s = s
  draw_rows cursor start offset (row ∷ rows) s =
      draw_rows cursor start (offset + 1) rows
        (draw_row (start + offset == cursor) (row_y offset) row s)

  unfoldable pub draw_caption : Option PresetRow → S → S
  draw_caption none s = s
  draw_caption (some sel) s = status_text (caption sel) s

  unfoldable pub render_right : BrowseState → S → S
  render_right b s =
      let s1 = sink_fill_rect sink s 0 0 (sink.width s) (sink.height s) bg in
      let s2 =
        draw_rows b.cursor (start b s1) 0 (take (visible s1) (drop (start b s1) b.rows)) s1 in
      draw_caption (selected b) (status_strip s2)

  unfoldable pub render : BrowseState → DisplayId → S → S
  render b left s = render_left b s
  render b right s = render_right b s
