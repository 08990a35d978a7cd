-- ===== src/Core/Platform/Tests.antt =====
-- Claims of crates/maschine-core/src/platform/macos.rs on a machine with three of the processes.
use openmk.Prelude.{
  ℕ, ◌≡◌, refl, inl, inr, Bool, true, false, not, ◌==◌, Option, none, some, [], ◌∷◌, length, ltb,
  if◌then◌else◌, codes,
}
use openmk.Nks.Plid.{Str}
use openmk.Core.Platform.{
  command, sigstop, SystemCall, bootout, bootstrap, kill, Log, MacOsClaimState, on_claimed, issue,
  stop_process, bootout_call, suspend_agent, suspend_app, suspend_apps, reset_server, reset_servers,
  capture_and_suspend,
}
use openmk.Core.Platform.Stopped.{is_stopped}

-- The processes with names of more than ten letters run: both agents and Komplete Kontrol.
abbrev pub pgrep_long : Str → Log → Option ℕ
pgrep_long name log = if ltb 10 (length name) then some (length name) else none

abbrev pub always : SystemCall → Log → Bool
always call log = true

-- Komplete Kontrol cannot be stopped.
abbrev unless_16 : SystemCall → Log → Bool
unless_16 (bootout target) log = true
unless_16 (bootstrap domain plist) log = true
unless_16 (kill pid signal) log = not (pid == 16)

abbrev pub no_text : ℕ → Log → Str
no_text pid log = []

abbrev pub claim_log : Log
claim_log =
    (kill 16 sigstop, true)
    ∷ ((kill 15 sigstop, true)
        ∷ ((bootout_call (codes "501") pgrep_long always no_text, true) ∷ []))

abbrev pub claim_state : MacOsClaimState
claim_state = record { agent_was_bootable = true; stopped_pids = 15 ∷ (16 ∷ []) }

pub claims :
    capture_and_suspend (codes "501") pgrep_long always no_text [] ≡ (inr claim_state, claim_log)
unfolding capture_and_suspend on_claimed suspend_agent suspend_apps suspend_app stop_process
    reset_servers reset_server issue
claims = refl

-- A claim that fails midway has no state to drop, and the process stopped before the failure stays so.
failed_claim : capture_and_suspend (codes "501") pgrep_long unless_16 no_text [] ≡ (
  inl (command []),
  (kill 16 sigstop, false)
      ∷ ((kill 15 sigstop, true)
          ∷ ((bootout_call (codes "501") pgrep_long unless_16 no_text, true) ∷ [])),
)
unfolding capture_and_suspend on_claimed suspend_agent suspend_apps suspend_app stop_process
    reset_servers reset_server issue bootout_call
failed_claim = refl

stays_stopped :
    is_stopped 15 (
      (kill 16 sigstop, false)
      ∷ ((kill 15 sigstop, true)
          ∷ ((bootout_call (codes "501") pgrep_long unless_16 no_text, true) ∷ [])))
    ≡ true
unfolding is_stopped
stays_stopped = refl
