-- ===== src/Nks/Riff.antt =====
-- crates/nks-parse/src/riff.rs: the walk over the chunks of a preset file. A file is its bytes and a
-- position; a read past the end fails, a seek past the end does not, and no other i/o error occurs.
pub mod Walk
pub mod Layout
pub mod Chunks
pub mod State
pub mod Reload
use openmk.Prelude.{
  ℕ, zero, suc, ◌+◌, ◌-◌, ◌%◌, Bool, true, false, ◌&&◌, ◌||◌, Option, none, some, List, [], ◌∷◌,
  length, take, drop, leb, ◌==◌, if◌then◌else◌, Outcome, ok, err, panic, ◌>>=◌, map_ok,
  from_le_bytes,
}
use openmk.Nks.Plid.{RawPlid, NksPluginId, classify}

pub data NksError : Type 0 where
  unexpected_eof : NksError
  not_nks : NksError
  -- the chunk's id
  missing_chunk : List ℕ → NksError
  msg_pack : NksError

pub record File : Type 0 where
  pub bytes : List ℕ
  pub pos : ℕ

abbrev pub magic_riff : List ℕ
magic_riff = 0x52 ∷ 0x49 ∷ 0x46 ∷ 0x46 ∷ []

abbrev pub magic_niks : List ℕ
magic_niks = 0x4e ∷ 0x49 ∷ 0x4b ∷ 0x53 ∷ []

abbrev pub id_nisi : List ℕ
id_nisi = 0x4e ∷ 0x49 ∷ 0x53 ∷ 0x49 ∷ []

abbrev pub id_plid : List ℕ
id_plid = 0x50 ∷ 0x4c ∷ 0x49 ∷ 0x44 ∷ []

abbrev pub id_nica : List ℕ
id_nica = 0x4e ∷ 0x49 ∷ 0x43 ∷ 0x41 ∷ []

abbrev pub id_pchk : List ℕ
id_pchk = 0x50 ∷ 0x43 ∷ 0x48 ∷ 0x4b ∷ []

abbrev pub same_bytes : List ℕ → List ℕ → Bool
same_bytes [] [] = true
same_bytes (x ∷ xs) (y ∷ ys) = (x == y) && same_bytes xs ys
same_bytes _ _ = false

-- A read of no bytes succeeds, also past the end.
unfoldable pub read_exact : ℕ → File → Outcome NksError (List ℕ × File)
read_exact n f =
    if leb (f.pos + n) (length f.bytes) || (n == 0)
    then ok (take n (drop f.pos f.bytes), record f { pos = f.pos + n })
    else err unexpected_eof

unfoldable pub read_u32_le : File → Outcome NksError (ℕ × File)
read_u32_le f = do (b, f₁) ← read_exact 4 f; ok (from_le_bytes b, f₁)

abbrev pub seek : ℕ → File → File
seek n f = record f { pos = f.pos + n }

-- The variables of the walk; `pchk` is an offset and a length.
pub record Found (Summary : Type 0) : Type 0 where
  pub summary : Option Summary
  pub plugin : Option NksPluginId
  pub controller : Option (List ℕ)
  pub pchk : Option (ℕ × ℕ)

-- What `read_metadata` returns, less the path.
pub record NksFile (Summary : Type 0) : Type 0 where
  pub summary : Summary
  pub plugin : NksPluginId
  pub controller : Option (List ℕ)
  pub pchk_offset : ℕ
  pub pchk_len : ℕ

abbrev pub decoded : {A : Type 0} → Option A → Outcome NksError A
decoded none = err msg_pack
decoded (some a) = ok a

-- The version and the payload of a chunk.
unfoldable pub read_payload : ℕ → File → Outcome NksError (List ℕ × File)
read_payload len f = do (version, f₁) ← read_u32_le f; read_exact (len - 4) f₁

-- The decoders of the summary and of the raw plug-in map are derived code of another package.
module _ {Summary : Type 0} (decode_summary : List ℕ → Option Summary)
    (decode_plid : List ℕ → Option RawPlid) where
  unfoldable pub read_nisi : ℕ → Found Summary → File → Outcome NksError (Found Summary × File)
  read_nisi len found f = do
    (buf, f₁) ← read_payload len f
    s ← decoded (decode_summary buf)
    ok (record found { summary = some s }, f₁)

  unfoldable pub read_plid : ℕ → Found Summary → File → Outcome NksError (Found Summary × File)
  read_plid len found f = do
    (buf, f₁) ← read_payload len f
    raw ← decoded (decode_plid buf)
    ok (record found { plugin = some (classify raw) }, f₁)

  unfoldable pub read_nica : ℕ → Found Summary → File → Outcome NksError (Found Summary × File)
  read_nica len found f = do
    (buf, f₁) ← read_payload len f
    ok (record found { controller = some buf }, f₁)

  -- The `match &id`.
  unfoldable pub read_chunk :
      List ℕ → ℕ → Found Summary → File → Outcome NksError (Found Summary × File)
  read_chunk id len found f =
      if same_bytes id id_nisi
      then read_nisi len found f
      else if same_bytes id id_plid
      then read_plid len found f
      else if same_bytes id id_nica
      then read_nica len found f
      else if same_bytes id id_pchk
      then ok (record found { pchk = some (f.pos + 4, len - 4) }, seek len f)
      else ok (found, seek len f)

  -- The loop body after the read of an id, whose failure ends the loop; `next` is the rest.
  unfoldable pub after_id :
      (Found Summary → File → Outcome NksError (Found Summary))
      → Found Summary
      → Outcome NksError (List ℕ × File)
      → Outcome NksError (Found Summary)
  after_id next found (ok (id, f)) = do
    (len, f₁) ← read_u32_le f
    (found₁, f₂) ← read_chunk id len found f₁
    next found₁ (if len % 2 == 1 then seek 1 f₂ else f₂)
  after_id next found (err e) = ok found
  after_id next found panic = panic

  -- The loop; it panics when the fuel is used up.
  unfoldable pub walk : ℕ → Found Summary → File → Outcome NksError (Found Summary)
  walk zero found f = panic
  walk (suc fuel) found f = after_id (walk fuel) found (read_exact 4 f)

  abbrev pub required : {A : Type 0} → List ℕ → Option A → Outcome NksError A
  required id none = err (missing_chunk id)
  required id (some a) = ok a

  abbrev pub pchk_or_empty : Option (ℕ × ℕ) → ℕ × ℕ
  pchk_or_empty none = (0, 0)
  pchk_or_empty (some p) = p

  unfoldable pub finish : Found Summary → Outcome NksError (NksFile Summary)
  finish found = do
    summary ← required id_nisi found.summary
    plugin ← required id_plid found.plugin
    let (offset, len) = pchk_or_empty found.pchk
    ok (record {
      summary = summary;
      plugin = plugin;
      controller = found.controller;
      pchk_offset = offset;
      pchk_len = len;
    })

  abbrev pub found_nothing : Found Summary
  found_nothing = record { summary = none; plugin = none; controller = none; pchk = none }

  -- After the form type.
  unfoldable pub read_chunks : List ℕ → File → Outcome NksError (NksFile Summary)
  read_chunks niks f =
      if same_bytes niks magic_niks
      then walk (length f.bytes) found_nothing f >>= finish
      else err not_nks

  -- After the magic.
  unfoldable pub read_form : File → Outcome NksError (NksFile Summary)
  read_form f = do
    (total_len, f₁) ← read_u32_le f
    (niks, f₂) ← read_exact 4 f₁
    read_chunks niks f₂

  unfoldable pub read_metadata : List ℕ → Outcome NksError (NksFile Summary)
  read_metadata bytes = do
    (riff, f) ← read_exact 4 (record { bytes = bytes; pos = 0 })
    if same_bytes riff magic_riff then read_form f else err not_nks
