-- ===== src/Registry/Tests.antt =====
-- Runs of the two scans and of the resolution.
use openmk.Prelude.{
  ◌≡◌, refl, none, some, [], ◌∷◌, ◌++◌, replicate, ok, panic, codes, trim, trim_start, trim_end,
  arith,
}
use openmk.Nks.Plid.{vst2, vst3}
use openmk.Registry.{
  Vst3Plugin, AuPlugin, vst3_entry, get, hex8, insert_vst3s, insert_aus, scan, resolve,
}
use openmk.Registry.Vst3.{
  ClassInfo, ModuleInfo, parse_cid, trim_0x, cid_word, str_slice, is_char_boundary,
  find_audio_class, read_info,
}
use openmk.Registry.Vst3.Uid.{uid_text, prefixed}
use openmk.Registry.Vst3.Resolved.{read_plugin, resolve-read_info}
use openmk.Registry.Au.{
  utf8, as_bytes, be_word, fourcc, lines, lines_from, words_from, split_whitespace, splitn_nth,
  split_once, line_names, with_codes, with_words, parse_line, parse_lines, parse_auval,
}
use openmk.Registry.Au.Documented.{code_text, code_word, documented, parse_lines-documented}

abbrev first_unit : AuPlugin
first_unit = record {
  ty = 0x61756d75;
  subtype = 1;
  manufacturer = 2;
  name = [];
  manufacturer_name = [];
}

abbrev second_unit : AuPlugin
second_unit = record {
  ty = 0x61756d75;
  subtype = 1;
  manufacturer = 3;
  name = [];
  manufacturer_name = [];
}

abbrev bundle : Vst3Plugin
bundle = record { bundle = []; name = []; vendor = []; class_uid = (1, 2, 3, 4); categories = [] }

hex8_digits : hex8 0xdeadbeef ≡ 100 ∷ 101 ∷ 97 ∷ 100 ∷ 98 ∷ 101 ∷ 101 ∷ 102 ∷ []
hex8_digits = refl

resolve_vst2 : resolve (scan (bundle ∷ []) (first_unit ∷ [])) (vst2 7) ≡ none
unfolding resolve scan get insert_vst3s insert_aus
resolve_vst2 = refl

abbrev massive_x : AuPlugin
massive_x = record {
  ty = 0x61756d75;
  subtype = 0x4e494d58;
  manufacturer = 0x2d4e492d;
  name = codes "Massive X";
  manufacturer_name = codes "-NI-  -  Native Instruments";
}

-- The line of the comment, behind a line of dashes.
documented_line :
    parse_auval (codes "----\n aumu  NIMX  -NI-  -  Native Instruments: Massive X\r\n\n")
    ≡ massive_x ∷ []
unfolding parse_auval lines lines_from parse_lines parse_line split_whitespace words_from with_words
    fourcc as_bytes utf8 be_word with_codes splitn_nth split_once line_names trim trim_start
    trim_end
documented_line = refl

-- A code that is padded with a space is not read, so the unit is left out.
padded_code : parse_auval (codes "aumu dls  appl  -  Apple: DLSMusicDevice\n") ≡ []
unfolding parse_auval lines lines_from parse_lines parse_line split_whitespace words_from with_words
    fourcc as_bytes utf8 be_word with_codes splitn_nth split_once line_names trim trim_start
    trim_end
padded_code = refl

parse_lines-documented_example :
    parse_lines (
      documented
        (0x61, 0x75, 0x6d, 0x75)
        (0x4e, 0x49, 0x4d, 0x58)
        (0x2d, 0x4e, 0x49, 0x2d)
        (codes "Native Instruments")
        (codes "Massive X ")
      ∷ [])
    ≡ record {
      ty = code_word (0x61, 0x75, 0x6d, 0x75);
      subtype = code_word (0x4e, 0x49, 0x4d, 0x58);
      manufacturer = code_word (0x2d, 0x4e, 0x49, 0x2d);
      name = trim (codes "Massive X ");
      manufacturer_name = trim (
          codes " "
          ++ (code_text (0x2d, 0x4e, 0x49, 0x2d) ++ (codes "  -  " ++ codes "Native Instruments")));
    }
      ∷ parse_lines []
parse_lines-documented_example =
    parse_lines-documented (0x61, 0x75, 0x6d, 0x75) (0x4e, 0x49, 0x4d, 0x58)
      (0x2d, 0x4e, 0x49, 0x2d) (codes "Native Instruments") (codes "Massive X ") [] (ground arith)
      (ground arith) (ground arith) refl (ground arith) (ground arith) (unfold trim_end in refl)

-- A class id of 32 bytes with a character of two bytes at the border of its first word.
split_character : parse_cid (replicate 7 0x30 ++ (0xc3 ∷ (0xa4 ∷ replicate 23 0x30))) ≡ panic
unfolding parse_cid trim_0x cid_word str_slice is_char_boundary
split_character = refl

abbrev synth_class : ClassInfo
synth_class = record {
  name = codes "Synth";
  category = codes "Audio Module Class";
  cid = prefixed 1 (uid_text 5 6 7 8);
  sub_categories = [];
}

abbrev synth_info : ModuleInfo
synth_info = record { vendor = codes "Vendor"; classes = synth_class ∷ [] }

resolve-read_info_example :
    let plugin = read_plugin (codes "a.vst3") synth_info synth_class (5, 6, 7, 8) in
    (read_info (codes "a.vst3") (some synth_info) ≡ ok (some plugin))
    × (resolve
          (scan ((bundle ∷ []) ++ plugin ∷ (bundle ∷ [])) (first_unit ∷ []))
          (vst3 (5 ∷ (6 ∷ (7 ∷ (8 ∷ [])))) none)
        ≡ some (vst3_entry plugin))
resolve-read_info_example =
    resolve-read_info (codes "a.vst3") synth_info synth_class 1 5 6 7 8 (bundle ∷ []) (bundle ∷ [])
      (first_unit ∷ []) none (unfold find_audio_class in refl) refl (omega arith) (omega arith)
      (omega arith) (refl, _)
