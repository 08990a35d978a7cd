-- ===== src/Registry/Vst3/Resolved.antt =====
-- From the description of a bundle to the plug-in that a preset's id resolves to.
use openmk.Prelude.{
  ℕ, ◌^◌, ◌<◌, ◌≡◌, ◌∙◌, refl, ap, sym, inl, inr, Bool, true, false, ◌&&◌, Option, none, some, List,
  [], ◌∷◌, ◌++◌, All, ◌==◌, if◌then◌else◌, Bool-cases, ok, arith,
}
use openmk.Nks.Plid.{Str, vst3}
use openmk.Nks.Riff.{same_bytes}
use openmk.Registry.{
  Vst3Plugin, AuPlugin, PluginEntry, vst3_entry, hex8, from_vst3_uid, Registry, get, insert_vst3s,
  insert_aus, scan, resolve,
}
use openmk.Registry.Keys.{same_word, same_bytes_refl}
use openmk.Registry.Vst3.{ClassInfo, ModuleInfo, find_audio_class, plugin_of, read_class, read_info}
use openmk.Registry.Vst3.Uid.{uid_text, prefixed, parse_cid-uid_text}

abbrev pub IsUid : ℕ × ℕ × ℕ × ℕ → Type 0
IsUid (a, b, c, d) = (a < 2 ^ 32) × (b < 2 ^ 32) × (c < 2 ^ 32) × (d < 2 ^ 32)

abbrev pub same_uid : ℕ × ℕ × ℕ × ℕ → ℕ × ℕ × ℕ × ℕ → Bool
same_uid (a, b, c, d) (p, q, r, s) = (a == p) && (b == q) && (c == r) && (d == s)

abbrev uid_key : ℕ × ℕ × ℕ × ℕ → List ℕ
uid_key (a, b, c, d) = from_vst3_uid a b c d

same_uid-eq : (u v : ℕ × ℕ × ℕ × ℕ) → same_uid u v ≡ true → u ≡ v
same_uid-eq (a, b, c, d) (p, q, r, s) h = ground arith

same_uid_refl : (a b c d : ℕ) → same_uid (a, b, c, d) (a, b, c, d) ≡ true
same_uid_refl a b c d = ground arith

uids_agree :
    (a b c d p q r s : ℕ)
    → a ≡ p
    → b ≡ q
    → c ≡ r
    → d ≡ s
    → true ≡ same_uid (a, b, c, d) (p, q, r, s)
uids_agree a b c d p q r s e f g h = ground arith

-- The keys of two class ids are the same only if the ids are.
same_bytes-uid_key :
    (u v : ℕ × ℕ × ℕ × ℕ) → IsUid u → IsUid v → same_bytes (uid_key u) (uid_key v) ≡ same_uid u v
same_bytes-uid_key (a, b, c, d) (p, q, r, s) h k =
    elim (Bool-cases (same_bytes (from_vst3_uid a b c d) (from_vst3_uid p q r s))) [
      | inl same ↦
          let (e₁, h₁) =
            same_word a p (hex8 b ++ (hex8 c ++ hex8 d)) (hex8 q ++ (hex8 r ++ hex8 s)) h.0 k.0
              same in
          let (e₂, h₂) = same_word b q (hex8 c ++ hex8 d) (hex8 r ++ hex8 s) h.1 k.1 h₁ in
          let (e₃, h₃) = same_word c r (hex8 d) (hex8 s) h.2 k.2 h₂ in
          let (e₄, h₄) = same_word d s [] [] h.3 k.3 h₃ in
          rw same (uids_agree a b c d p q r s e₁ e₂ e₃ e₄)
      | inr differ ↦ elim (Bool-cases (same_uid (a, b, c, d) (p, q, r, s))) [
        | inl equal ↦
            let e = same_uid-eq (a, b, c, d) (p, q, r, s) equal in
            ap (λ u. same_bytes (uid_key u) (from_vst3_uid p q r s)) e
            ∙ same_bytes_refl (from_vst3_uid p q r s)
            ∙ sym equal
        | inr other ↦ differ ∙ sym other
      ]
    ]

-- The last of the plug-ins with the class id, or `before` if there is none.
abbrev pub last_vst3 : ℕ × ℕ × ℕ × ℕ → Option PluginEntry → List Vst3Plugin → Option PluginEntry
last_vst3 u before [] = before
last_vst3 u before (v ∷ vs) =
    last_vst3 u (if same_uid v.class_uid u then some (vst3_entry v) else before) vs

get-insert_aus_vst3 :
    (aus : List AuPlugin) (by_key : Registry) (u : ℕ × ℕ × ℕ × ℕ)
    → get (uid_key u) (insert_aus aus by_key) ≡ get (uid_key u) by_key
unfolding get insert_aus
get-insert_aus_vst3 [] by_key u = refl
get-insert_aus_vst3 (a ∷ aus) by_key (p, q, r, s) = get-insert_aus_vst3 aus _ (p, q, r, s)

get-insert_vst3s_vst3 :
    (vs : List Vst3Plugin) (by_key : Registry) (u : ℕ × ℕ × ℕ × ℕ)
    → All (λ v. IsUid v.class_uid) vs
    → IsUid u
    → get (uid_key u) (insert_vst3s vs by_key) ≡ last_vst3 u (get (uid_key u) by_key) vs
unfolding get insert_vst3s
get-insert_vst3s_vst3 [] by_key u h k = refl
get-insert_vst3s_vst3 (v ∷ vs) by_key u h k =
    get-insert_vst3s_vst3 vs ((uid_key v.class_uid, vst3_entry v) ∷ by_key) u h.1 k
    ∙ ap (λ (b : Bool). last_vst3 u (if b then some (vst3_entry v) else get (uid_key u) by_key) vs)
        (same_bytes-uid_key v.class_uid u h.0 k)

last_vst3-append :
    (u : ℕ × ℕ × ℕ × ℕ) (vs later : List Vst3Plugin) (before : Option PluginEntry)
    → last_vst3 u before (vs ++ later) ≡ last_vst3 u (last_vst3 u before vs) later
last_vst3-append u [] later before = refl
last_vst3-append u (v ∷ vs) later before = last_vst3-append u vs later _

last_vst3_others :
    (u : ℕ × ℕ × ℕ × ℕ) (vs : List Vst3Plugin) (before : Option PluginEntry)
    → All (λ v. same_uid v.class_uid u ≡ false) vs
    → last_vst3 u before vs ≡ before
last_vst3_others u [] before h = refl
last_vst3_others u (v ∷ vs) before h = rw h.0 (last_vst3_others u vs before h.1)

All-uids_append :
    (vs later : List Vst3Plugin)
    → All (λ v. IsUid v.class_uid) vs
    → All (λ v. IsUid v.class_uid) later
    → All (λ v. IsUid v.class_uid) (vs ++ later)
All-uids_append [] later h k = k
All-uids_append (v ∷ vs) later h k = (h.0, All-uids_append vs later h.1 k)

resolve-scan_vst3 :
    (vs : List Vst3Plugin) (aus : List AuPlugin) (a b c d : ℕ) (name : Option Str)
    → All (λ v. IsUid v.class_uid) vs
    → IsUid (a, b, c, d)
    → resolve (scan vs aus) (vst3 (a ∷ (b ∷ (c ∷ (d ∷ [])))) name) ≡ last_vst3 (a, b, c, d) none vs
unfolding resolve scan
resolve-scan_vst3 vs aus a b c d name h k =
    get-insert_aus_vst3 aus (insert_vst3s vs []) (a, b, c, d)
    ∙ get-insert_vst3s_vst3 vs [] (a, b, c, d) h k
    ∙ ap (λ o. last_vst3 (a, b, c, d) o vs) (unfold get in refl)

-- What a bundle is read as, if its audio class has a class id of four words.
abbrev pub read_plugin : Str → ModuleInfo → ClassInfo → ℕ × ℕ × ℕ × ℕ → Vst3Plugin
read_plugin bundle info class u = record {
  bundle = bundle;
  name = class.name;
  vendor = info.vendor;
  class_uid = u;
  categories = class.category ∷ class.sub_categories;
}

-- A bundle whose first audio class has as its class id the lower-case digits of four 32-bit words, behind
-- any number of prefixes `0x`, is read as a plug-in with these words, the bundle's path, and the names in
-- the description; and wherever a scan finds it, the id of a preset with the four words resolves to it,
-- whatever audio units there are. Conditions: the other plug-ins have 32-bit words too, and none that is
-- found later has the same four.
pub resolve-read_info :
    (bundle : Str) (info : ModuleInfo) (class : ClassInfo) (n a b c d : ℕ)
    (earlier later : List Vst3Plugin) (aus : List AuPlugin) (name : Option Str)
    → find_audio_class info.classes ≡ some class
    → class.cid ≡ prefixed n (uid_text a b c d)
    → IsUid (a, b, c, d)
    → All (λ v. IsUid v.class_uid) earlier
    → All (λ v. IsUid v.class_uid) later
    → All (λ v. same_uid v.class_uid (a, b, c, d) ≡ false) later
    → let plugin = read_plugin bundle info class (a, b, c, d) in
      (read_info bundle (some info) ≡ ok (some plugin))
      × (resolve (scan (earlier ++ plugin ∷ later) aus) (vst3 (a ∷ (b ∷ (c ∷ (d ∷ [])))) name)
          ≡ some (vst3_entry plugin))
unfolding read_info read_class plugin_of
resolve-read_info bundle info class n a b c d earlier later aus name found cid u h k others =
    let plugin = read_plugin bundle info class (a, b, c, d) in
    (
      rw (found, cid, parse_cid-uid_text n a b c d u.0 u.1 u.2 u.3) refl,
      resolve-scan_vst3 (earlier ++ plugin ∷ later) aus a b c d name
            (All-uids_append earlier (plugin ∷ later) h (u, k)) u
          ∙ last_vst3-append (a, b, c, d) earlier (plugin ∷ later) none
          ∙ ap
              (λ (same : Bool).
                last_vst3 (a, b, c, d)
                  (if same then some (vst3_entry plugin) else last_vst3 (a, b, c, d) none earlier)
                  later)
              (same_uid_refl a b c d)
          ∙ last_vst3_others (a, b, c, d) later (some (vst3_entry plugin)) others,
    )
