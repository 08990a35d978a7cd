-- ===== src/Registry/Vst3.antt =====
-- crates/plugin-registry/src/vst3.rs: VST 3 plug-ins, from the bundles of two directories. The file
-- system and the JSON decoder are parameters. The text of a class id is its bytes in UTF-8.
pub mod Uid
pub mod Resolved
use openmk.Prelude.{
  ℕ, zero, suc, ◌+◌, ◌-◌, ◌*◌, ◌≡◌, Bool, true, false, not, ◌&&◌, ◌||◌, Option, none, some, List,
  [], ◌∷◌, ◌++◌, length, get_or, take, drop, ltb, leb, ◌==◌, if◌then◌else◌, Outcome, ok, err, panic,
  ◌>>=◌, codes,
}
use openmk.Nks.Plid.{Str}
use openmk.Nks.Riff.{same_bytes}
use openmk.Registry.{Vst3Plugin}

pub record ClassInfo : Type 0 where
  pub name : Str
  pub category : Str
  pub cid : Str
  pub sub_categories : List Str

-- `factory.vendor` and `classes`
pub record ModuleInfo : Type 0 where
  pub vendor : Str
  pub classes : List ClassInfo

-- `char::to_digit(16)` on a byte
unfoldable pub hex_value : ℕ → Option ℕ
hex_value c =
    if leb 48 c && leb c 57
    then some (c - 48)
    else if leb 97 c && leb c 102
    then some (c - 87)
    else if leb 65 c && leb c 70
    then some (c - 55)
    else none

-- A digit behind those that make `acc`; `next` reads the rest.
unfoldable pub add_digit : Option ℕ → ℕ → (ℕ → Option ℕ) → Option ℕ
add_digit none acc next = none
add_digit (some d) acc next = if ltb (acc * 16 + d) 4294967296 then next (acc * 16 + d) else none

-- The digits of `u32::from_str_radix`, after those that make `acc`.
unfoldable pub hex_digits : List ℕ → ℕ → Option ℕ
hex_digits [] acc = some acc
hex_digits (c ∷ cs) acc = add_digit (hex_value c) acc (hex_digits cs)

-- `u32::from_str_radix(s, 16)`: a plus sign may stand in front of a digit.
unfoldable pub from_str_radix_16 : List ℕ → Option ℕ
from_str_radix_16 [] = none
from_str_radix_16 (c ∷ []) = hex_digits (c ∷ []) 0
from_str_radix_16 (c ∷ (d ∷ cs)) =
    if c == 0x2b then hex_digits (d ∷ cs) 0 else hex_digits (c ∷ (d ∷ cs)) 0

-- `trim_start_matches("0x")`
unfoldable pub trim_0x : List ℕ → List ℕ
trim_0x [] = []
trim_0x (c ∷ []) = c ∷ []
trim_0x (c ∷ (d ∷ s)) =
    let rest = trim_0x s in if (c == 0x30) && (d == 0x78) then rest else c ∷ (d ∷ s)

-- `is_char_boundary`, for an index up to the length
unfoldable pub is_char_boundary : List ℕ → ℕ → Bool
is_char_boundary s i = (i == length s) || not (leb 0x80 (get_or s i 0) && ltb (get_or s i 0) 0xc0)

-- `&s[from..to]` of a text
unfoldable pub str_slice : List ℕ → ℕ → ℕ → Outcome ⊥ (List ℕ)
str_slice s from to =
    if is_char_boundary s from && is_char_boundary s to
    then ok (take (to - from) (drop from s))
    else panic

-- `.ok()?`
unfoldable pub or_none : {A : Type 0} → Option ℕ → (ℕ → Outcome ⊥ (Option A)) → Outcome ⊥ (Option A)
or_none none next = ok none
or_none (some w) next = next w

-- The word at `from`, and the function's end if it is none.
unfoldable pub cid_word :
    {A : Type 0} → List ℕ → ℕ → (ℕ → Outcome ⊥ (Option A)) → Outcome ⊥ (Option A)
cid_word s from next = do part ← str_slice s from (from + 8); or_none (from_str_radix_16 part) next

unfoldable pub parse_cid : List ℕ → Outcome ⊥ (Option (ℕ × ℕ × ℕ × ℕ))
parse_cid cid =
    let s = trim_0x cid in
    if length s == 32
    then cid_word s 0 (λ w0.
      cid_word s 8 (λ w1. cid_word s 16 (λ w2. cid_word s 24 (λ w3. ok (some (w0, w1, w2, w3))))))
    else ok none

-- `find`
unfoldable pub find_audio_class : List ClassInfo → Option ClassInfo
find_audio_class [] = none
find_audio_class (c ∷ cs) =
    if same_bytes c.category (codes "Audio Module Class") then some c else find_audio_class cs

unfoldable pub plugin_of : Str → Str → ClassInfo → Option (ℕ × ℕ × ℕ × ℕ) → Option Vst3Plugin
plugin_of bundle vendor class none = none
plugin_of bundle vendor class (some cid) = some (record {
  bundle = bundle;
  name = class.name;
  vendor = vendor;
  class_uid = cid;
  categories = class.category ∷ class.sub_categories;
})

-- `try_read_moduleinfo` from the search for the class on.
unfoldable pub read_class : Str → Str → Option ClassInfo → Outcome ⊥ (Option Vst3Plugin)
read_class bundle vendor none = ok none
read_class bundle vendor (some class) = do
  cid ← parse_cid class.cid
  ok (plugin_of bundle vendor class cid)

unfoldable pub read_info : Str → Option ModuleInfo → Outcome ⊥ (Option Vst3Plugin)
read_info bundle none = ok none
read_info bundle (some info) = read_class bundle info.vendor (find_audio_class info.classes)

-- What the scan asks of the system: a variable of the environment, whether a path exists, the entries of
-- a directory if it can be read, the text of a file if it can be read, and the decoded text.
pub record System : Type 0 where
  pub env_var : Str → Option Str
  pub exists : Str → Bool
  pub read_dir : Str → Option (List Str)
  pub extension : Str → Option Str
  pub read_to_string : Str → Option Str
  pub from_json : Str → Option ModuleInfo
  pub join : Str → Str → Str

module _ (sys : System) where
  unfoldable pub info_of : Option Str → Option ModuleInfo
  info_of none = none
  info_of (some text) = sys.from_json text

  unfoldable pub try_read_moduleinfo : Str → Outcome ⊥ (Option Vst3Plugin)
  try_read_moduleinfo bundle =
      read_info bundle
        (info_of (sys.read_to_string (sys.join bundle (codes "Contents/moduleinfo.json"))))

  abbrev is_vst3 : Option Str → Bool
  is_vst3 none = false
  is_vst3 (some s) = same_bytes s (codes "vst3")

  abbrev add_found : Option Vst3Plugin → List Vst3Plugin → List Vst3Plugin
  add_found none out = out
  add_found (some p) out = out ++ p ∷ []

  unfoldable pub add_bundle : Str → List Vst3Plugin → Outcome ⊥ (List Vst3Plugin)
  add_bundle p out =
      if is_vst3 (sys.extension p)
      then (do found ← try_read_moduleinfo p; ok (add_found found out))
      else ok out

  -- The loop over the entries of a directory.
  unfoldable pub add_bundles : List Str → List Vst3Plugin → Outcome ⊥ (List Vst3Plugin)
  add_bundles [] out = ok out
  add_bundles (p ∷ ps) out = do out₁ ← add_bundle p out; add_bundles ps out₁

  -- `expand`
  unfoldable pub expand_home : Str → Option Str → Str
  expand_home path none = path
  expand_home path (some home) = sys.join home (drop 2 path)

  unfoldable pub expand : Str → Str
  expand path =
      if same_bytes (take 2 path) (codes "~/")
      then expand_home path (sys.env_var (codes "HOME"))
      else path

  unfoldable pub add_entries : Option (List Str) → List Vst3Plugin → Outcome ⊥ (List Vst3Plugin)
  add_entries none out = ok out
  add_entries (some ps) out = add_bundles ps out

  unfoldable pub add_root : Str → List Vst3Plugin → Outcome ⊥ (List Vst3Plugin)
  add_root root out = if sys.exists root then add_entries (sys.read_dir root) out else ok out

  unfoldable pub scan_mac_system_and_user : Outcome ⊥ (List Vst3Plugin)
  scan_mac_system_and_user = do
    system ← add_root (expand (codes "/Library/Audio/Plug-Ins/VST3")) []
    add_root (expand (codes "~/Library/Audio/Plug-Ins/VST3")) system
