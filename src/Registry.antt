-- ===== src/Registry.antt =====
-- crates/plugin-registry/src/resolve.rs: from the plug-in id of a preset to an installed plug-in. Text
-- is a list of character codes. The hash map is an association list with the latest entry first.
pub mod Keys
pub mod Vst3
pub mod Au
pub mod Tests
use openmk.Prelude.{
  ℕ, suc, ◌==◌, Bool, true, false, ◌+◌, ◌/◌, ◌%◌, Option, none, some, List, [], ◌∷◌, ◌++◌, ltb,
  if◌then◌else◌,
}
use openmk.Nks.Plid.{Str, NksPluginId, vst3, vst2, audio_unit, unknown}
use openmk.Nks.Riff.{same_bytes}

-- `class_uid` has four 32-bit words.
pub record Vst3Plugin : Type 0 where
  pub bundle : Str
  pub name : Str
  pub vendor : Str
  pub class_uid : ℕ × ℕ × ℕ × ℕ
  pub categories : List Str

pub record AuPlugin : Type 0 where
  pub ty : ℕ
  pub subtype : ℕ
  pub manufacturer : ℕ
  pub name : Str
  pub manufacturer_name : Str

pub data PluginEntry : Type 0 where
  vst3_entry : Vst3Plugin → PluginEntry
  audio_unit_entry : AuPlugin → PluginEntry

abbrev pub PluginKey : Type 0
PluginKey = List ℕ

abbrev pub hex_digit : ℕ → ℕ
hex_digit d = if ltb d 10 then 48 + d else 87 + d

-- `{:08x}` of a 32-bit word
abbrev pub hex8 : ℕ → List ℕ
hex8 x =
    hex_digit (x / 268435456 % 16)
    ∷ hex_digit (x / 16777216 % 16)
    ∷ hex_digit (x / 1048576 % 16)
    ∷ hex_digit (x / 65536 % 16)
    ∷ hex_digit (x / 4096 % 16)
    ∷ hex_digit (x / 256 % 16)
    ∷ hex_digit (x / 16 % 16)
    ∷ hex_digit (x % 16)
    ∷ []

abbrev pub from_vst3_uid : ℕ → ℕ → ℕ → ℕ → PluginKey
from_vst3_uid a b c d =
    (0x76 ∷ 0x73 ∷ 0x74 ∷ 0x33 ∷ 0x3a ∷ []) ++ (hex8 a ++ (hex8 b ++ (hex8 c ++ hex8 d)))

abbrev pub from_au : ℕ → ℕ → ℕ → PluginKey
from_au ty subtype manu =
    (0x61 ∷ 0x75 ∷ 0x3a ∷ []) ++ (hex8 ty ++ (0x3a ∷ hex8 subtype ++ (0x3a ∷ hex8 manu)))

abbrev pub from_vst2 : ℕ → PluginKey
from_vst2 magic = (0x76 ∷ 0x73 ∷ 0x74 ∷ 0x32 ∷ 0x3a ∷ []) ++ hex8 magic

abbrev pub Registry : Type 0
Registry = List (PluginKey × PluginEntry)

unfoldable pub get : PluginKey → Registry → Option PluginEntry
get key [] = none
get key ((k, entry) ∷ by_key) = if same_bytes k key then some entry else get key by_key

unfoldable pub insert_vst3s : List Vst3Plugin → Registry → Registry
insert_vst3s [] by_key = by_key
insert_vst3s (v ∷ vs) by_key =
    let (a, b, c, d) = v.class_uid in
    insert_vst3s vs ((from_vst3_uid a b c d, vst3_entry v) ∷ by_key)

unfoldable pub insert_aus : List AuPlugin → Registry → Registry
insert_aus [] by_key = by_key
insert_aus (a ∷ aus) by_key =
    insert_aus aus ((from_au a.ty a.subtype a.manufacturer, audio_unit_entry a) ∷ by_key)

-- `Registry::scan` on what the two scans of the system return.
unfoldable pub scan : List Vst3Plugin → List AuPlugin → Registry
scan vst3s aus = insert_aus aus (insert_vst3s vst3s [])

-- The uid of an id has four words.
unfoldable pub resolve : Registry → NksPluginId → Option PluginEntry
resolve by_key (vst3 (a ∷ b ∷ c ∷ d ∷ []) name) = get (from_vst3_uid a b c d) by_key
resolve by_key (vst3 _ name) = none
resolve by_key (audio_unit ty subtype manufacturer name) =
    get (from_au ty subtype manufacturer) by_key
resolve by_key (vst2 magic) = get (from_vst2 magic) by_key
resolve by_key unknown = none

-- Whether a key has an entry.
abbrev is_some {ℓ} : {A : Type ℓ} → Option A → Bool
is_some none = false
is_some (some a) = true

-- The map has one entry for a key.
unfoldable pub registry_len : Registry → ℕ
registry_len [] = 0
registry_len ((key, entry) ∷ by_key) =
    if is_some (get key by_key) then registry_len by_key else suc (registry_len by_key)

unfoldable pub registry_is_empty : Registry → Bool
registry_is_empty by_key = registry_len by_key == 0
