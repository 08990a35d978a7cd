-- ===== src/Core/Tests.antt =====
-- Runs of the diff task of crates/maschine-core/src/device.rs at concrete frames.
use openmk.Prelude.{ℕ, refl, Bool, true, false, List, [], ◌∷◌, replicate, Returns, arith}
use openmk.Proto.HidIn.{ControlsReport, ControlsReport_default, PadSample}
use openmk.Proto.HidIn.Layout.{layout}
use openmk.Core.Device.{OpenOptions_default, DiffState_default, unwrap_or_default, diff_task}
use openmk.Core.Device.PadMachine.{IsSized}
use openmk.Core.Device.Phases.{IsFollowed, diff_task-IsFollowed}
use openmk.Core.Device.Replay.{ControlsReport_default-IsReport}
use openmk.Core.Device.Sync.{IsMirrored, diff_task-IsMirrored}

abbrev sample : PadSample
sample = record { pad = 5; pressure = 0x4234 }

-- Pad 5 comes on, is pressed harder and let go; then a frame that does not parse.
abbrev frames : List (List ℕ × Bool)
frames =
    (2 ∷ 5 ∷ 0x34 ∷ 0x42 ∷ [], false)
    ∷ (2 ∷ 5 ∷ 0x40 ∷ 0x42 ∷ [], false)
    ∷ (2 ∷ 5 ∷ 0x01 ∷ 0x40 ∷ [], false)
    ∷ (1 ∷ 0 ∷ [], false)
    ∷ []

-- Button 1 is down and macro 0 at 5.
abbrev moved : ControlsReport
moved = record ControlsReport_default { buttons = 2; macros = 5 ∷ replicate 7 0 }

default-IsSized : IsSized DiffState_default
default-IsSized = record { pressures_sized = refl; on_sized = refl; peaks_sized = refl }

diff_task-IsFollowed_example :
    Returns
      (IsFollowed OpenOptions_default 5 DiffState_default)
      (diff_task OpenOptions_default DiffState_default frames)
diff_task-IsFollowed_example =
    diff_task-IsFollowed OpenOptions_default DiffState_default frames 5 refl (omega arith)
      (omega arith) default-IsSized (omega arith) (omega arith)

diff_task-IsMirrored_example :
    Returns
      (IsMirrored DiffState_default)
      (diff_task OpenOptions_default DiffState_default ((layout moved, true) ∷ frames))
diff_task-IsMirrored_example =
    diff_task-IsMirrored OpenOptions_default DiffState_default ((layout moved, true) ∷ frames)
      default-IsSized (unfold unwrap_or_default in ControlsReport_default-IsReport) (omega arith)
