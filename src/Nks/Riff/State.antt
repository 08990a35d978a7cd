-- ===== src/Nks/Riff/State.antt =====
-- crates/nks-parse/src/lib.rs: loading the plug-in state of a preset.
use openmk.Prelude.{ℕ, List, Outcome, map_ok}
use openmk.Nks.Riff.{NksError, NksFile, seek, read_exact}

-- `NksFile::read_state`, on the bytes of the file.
unfoldable pub read_state :
    {Summary : Type 0} → NksFile Summary → List ℕ → Outcome NksError (List ℕ)
read_state nks bytes =
    map_ok (λ r. r.0)
      (read_exact nks.pchk_len (seek nks.pchk_offset (record { bytes = bytes; pos = 0 })))
