-- ===== src/Nks/Plid.antt =====
-- crates/nks-parse/src/plid.rs: which plug-in a preset belongs to. A machine integer is its bit
-- pattern, a string is the list of its bytes, and the derived decoder of the raw map is not here.
use openmk.Prelude.{ℕ, Option, none, some, List, [], ◌∷◌, ◌%◌, ◌^◌}

abbrev pub Str : Type 0
Str = List ℕ

pub record RawPlid : Type 0 where
  pub vst3_uid : Option (List ℕ)
  pub vst3_plugin_name : Option Str
  pub vst2_magic : Option ℕ
  pub au_type : Option ℕ
  pub au_subtype : Option ℕ
  pub au_manufacturer : Option ℕ
  pub au_name : Option Str
  pub plugin_name : Option Str

pub data NksPluginId : Type 0 where
  -- uid, name
  vst3 : List ℕ → Option Str → NksPluginId
  -- magic
  vst2 : ℕ → NksPluginId
  -- type, subtype, manufacturer, name
  audio_unit : ℕ → ℕ → ℕ → Option Str → NksPluginId
  unknown : NksPluginId

-- `Option::or`
abbrev pub or_name : Option Str → Option Str → Option Str
or_name none other = other
or_name (some name) other = some name

-- The cast of a 64-bit integer to 32 bits.
abbrev pub as_i32 : ℕ → ℕ
as_i32 x = x % 2 ^ 32

unfoldable pub vst2_id : Option ℕ → NksPluginId
vst2_id none = unknown
vst2_id (some m) = vst2 (as_i32 m)

unfoldable pub au_id : RawPlid → Option ℕ → Option ℕ → Option ℕ → NksPluginId
au_id raw (some t) (some s) (some m) = audio_unit t s m (or_name raw.au_name raw.plugin_name)
au_id raw _ _ _ = vst2_id raw.vst2_magic

unfoldable pub vst3_id : RawPlid → Option (List ℕ) → NksPluginId
vst3_id raw (some (a ∷ b ∷ c ∷ d ∷ [])) =
    vst3 (as_i32 a ∷ as_i32 b ∷ as_i32 c ∷ as_i32 d ∷ [])
      (or_name raw.vst3_plugin_name raw.plugin_name)
vst3_id raw _ = au_id raw raw.au_type raw.au_subtype raw.au_manufacturer

-- `NksPluginId::deserialize` after the raw map is decoded.
unfoldable pub classify : RawPlid → NksPluginId
classify raw = vst3_id raw raw.vst3_uid
