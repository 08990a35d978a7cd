-- ===== src/Nks/Tests.antt =====
-- Runs of the reader with decoders that take any payload.
use openmk.Prelude.{
  ℕ, ◌≡◌, refl, Option, none, some, List, [], ◌∷◌, ◌++◌, err, ok, ◌>>=◌, Returns, arith,
}
use openmk.Nks.Plid.{RawPlid, vst2, classify, vst3_id, au_id, vst2_id}
use openmk.Nks.Riff.State.{read_state}
use openmk.Nks.Riff.Reload.{read_state-read_metadata}
use openmk.Nks.Riff.{
  NksFile, not_nks, magic_riff, magic_niks, id_nisi, id_plid, id_pchk, found_nothing, finish,
  read_metadata, read_exact,
}
use openmk.Nks.Riff.Walk.{read_metadata-Returns}
use openmk.Nks.Riff.Layout.{Chunk, chunks_bytes}
use openmk.Nks.Riff.Chunks.{collect, read_metadata-chunks_bytes}

abbrev decode_summary : List ℕ → Option (List ℕ)
decode_summary bytes = some bytes

abbrev decode_plid : List ℕ → Option RawPlid
decode_plid bytes = some (record {
  vst3_uid = none;
  vst3_plugin_name = none;
  vst2_magic = some 7;
  au_type = none;
  au_subtype = none;
  au_manufacturer = none;
  au_name = none;
  plugin_name = none;
})

abbrev chunk : List ℕ → List ℕ → Chunk
chunk id payload = record { id = id; version = 1 ∷ 0 ∷ 0 ∷ 0 ∷ []; payload = payload }

abbrev preset : List Chunk
preset =
    chunk id_nisi (8 ∷ [])
    ∷ chunk (0x68 ∷ 0x73 ∷ 0x69 ∷ 0x6e ∷ []) (1 ∷ 2 ∷ [])
    ∷ chunk id_plid []
    ∷ chunk id_pchk (3 ∷ 4 ∷ 5 ∷ [])
    ∷ []

abbrev total_len : List ℕ
total_len = 0 ∷ 0 ∷ 0 ∷ 0 ∷ []

read_metadata-other_magic :
    read_metadata decode_summary decode_plid (1 ∷ 2 ∷ 3 ∷ 4 ∷ []) ≡ err not_nks
unfolding read_metadata read_exact
read_metadata-other_magic = refl

read_metadata-Returns_example :
    Returns (λ _. Unit) (read_metadata decode_summary decode_plid (magic_riff ++ (1 ∷ [])))
read_metadata-Returns_example =
    read_metadata-Returns decode_summary decode_plid (magic_riff ++ (1 ∷ []))

read_metadata-chunks_bytes_example :
    read_metadata decode_summary decode_plid
      (magic_riff ++ (total_len ++ (magic_niks ++ chunks_bytes preset)))
    ≡ (collect decode_summary decode_plid 12 preset (found_nothing decode_summary decode_plid)
        >>= finish decode_summary decode_plid)
read_metadata-chunks_bytes_example =
    read_metadata-chunks_bytes decode_summary decode_plid total_len preset refl (omega arith)

abbrev preset_file : NksFile (List ℕ)
preset_file = record {
  summary = 8 ∷ [];
  plugin = vst2 7;
  controller = none;
  pchk_offset = 64;
  pchk_len = 3;
}

preset_read :
    read_metadata decode_summary decode_plid
      (magic_riff ++ (total_len ++ (magic_niks ++ chunks_bytes preset)))
    ≡ ok preset_file
unfolding finish classify vst3_id au_id vst2_id
preset_read =
    read_metadata-chunks_bytes decode_summary decode_plid total_len preset refl (omega arith)

read_state-read_metadata_example :
    read_state preset_file (magic_riff ++ (total_len ++ (magic_niks ++ chunks_bytes preset)))
    ≡ ok (3 ∷ 4 ∷ 5 ∷ [])
read_state-read_metadata_example =
    read_state-read_metadata decode_summary decode_plid total_len
      (chunk id_nisi (8 ∷ [])
        ∷ chunk (0x68 ∷ 0x73 ∷ 0x69 ∷ 0x6e ∷ []) (1 ∷ 2 ∷ [])
        ∷ chunk id_plid []
        ∷ [])
      [] (chunk id_pchk (3 ∷ 4 ∷ 5 ∷ [])) preset_file refl (omega arith) refl tt preset_read
