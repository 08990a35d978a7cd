-- ===== src/Core/Platform.antt =====
-- crates/maschine-core/src/platform: which processes are stopped before the device is opened, and what
-- the guard does when it is dropped. Calls of the system are kept in a log, the latest first, with whether
-- they succeeded.
pub mod Stopped
pub mod Restored
pub mod Tests
use openmk.Prelude.{
  ℕ, zero, suc, ◌≡◌, ◌⊎◌, inl, inr, Bool, true, false, Option, none, some, List, [], ◌∷◌, ◌++◌,
  if◌then◌else◌, codes,
}
use openmk.Nks.Plid.{Str}

pub data ClaimError : Type 0 where
  unsupported_platform : Str → ClaimError
  command : Str → ClaimError

pub data Signal : Type 0 where
  sigstop : Signal
  sigcont : Signal
  sigkill : Signal

-- The calls that change something. The first two are `launchctl` with the arguments after its subcommand.
pub data SystemCall : Type 0 where
  bootout : Str → SystemCall
  bootstrap : Str → Str → SystemCall
  kill : ℕ → Signal → SystemCall

abbrev pub Log : Type 0
Log = List (SystemCall × Bool)

pub record MacOsClaimState : Type 0 where
  pub agent_was_bootable : Bool
  pub stopped_pids : List ℕ

abbrev pub Claimed : Type 0 → Type 0
Claimed A = (ClaimError ⊎ A) × Log

-- `?`: an error ends the claim.
unfoldable pub on_claimed : {A B : Type 0} → Claimed A → (A → Log → Claimed B) → Claimed B
on_claimed (inl e, log) next = (inl e, log)
on_claimed (inr a, log) next = next a log

abbrev pub ni_agent : Str
ni_agent = codes "NIHostIntegrationAgent"

abbrev pub agent_service : Str
agent_service = codes "com.native-instruments.NIHostIntegrationAgent"

abbrev pub conflicting_apps : List Str
conflicting_apps =
    codes "NIHardwareAgent" ∷ codes "Maschine 2" ∷ codes "Maschine" ∷ codes "Komplete Kontrol" ∷ []

abbrev pub usb_servers : List Str
usb_servers = codes "MIDIServer" ∷ codes "usbaudiod" ∷ []

-- The user's number in decimal, the process that the program `pgrep` finds for a name, whether a call
-- succeeds, and the text of the error for a process that cannot be stopped. The answers may depend on
-- what was called before.
module _ (uid : Str) (pgrep : Str → Log → Option ℕ) (succeeds : SystemCall → Log → Bool)
    (stop_error : ℕ → Log → Str) where
  unfoldable pub issue : SystemCall → Log → Log
  issue call log = (call, succeeds call log) ∷ log

  -- `sigstop`, and the push of the process after it.
  unfoldable pub stop_process : ℕ → List ℕ → Log → Claimed (List ℕ)
  stop_process pid pids log =
      if succeeds (kill pid sigstop) log
      then (inr (pids ++ pid ∷ []), issue (kill pid sigstop) log)
      else (inl (command (stop_error pid log)), issue (kill pid sigstop) log)

  unfoldable pub gui_domain : Str
  gui_domain = codes "gui/" ++ uid

  unfoldable pub bootout_call : SystemCall
  bootout_call = bootout (gui_domain ++ (codes "/" ++ agent_service))

  -- The agent is booted out, or else stopped.
  unfoldable pub suspend_agent : Option ℕ → Log → Claimed MacOsClaimState
  suspend_agent none log = (inr (record { agent_was_bootable = false; stopped_pids = [] }), log)
  suspend_agent (some pid) log =
      if succeeds bootout_call log
      then (inr (record { agent_was_bootable = true; stopped_pids = [] }), issue bootout_call log)
      else on_claimed (stop_process pid [] (issue bootout_call log))
          (λ pids log₁. (inr (record { agent_was_bootable = false; stopped_pids = pids }), log₁))

  unfoldable pub suspend_app : Option ℕ → List ℕ → Log → Claimed (List ℕ)
  suspend_app none pids log = (inr pids, log)
  suspend_app (some pid) pids log = stop_process pid pids log

  unfoldable pub suspend_apps : List Str → List ℕ → Log → Claimed (List ℕ)
  suspend_apps [] pids log = (inr pids, log)
  suspend_apps (app ∷ apps) pids log =
      on_claimed (suspend_app (pgrep app log) pids log) (λ pids₁ log₁. suspend_apps apps pids₁ log₁)

  unfoldable pub reset_server : Option ℕ → Log → Log
  reset_server none log = log
  reset_server (some pid) log = issue (kill pid sigkill) log

  unfoldable pub reset_servers : List Str → Log → Log
  reset_servers [] log = log
  reset_servers (name ∷ names) log = reset_servers names (reset_server (pgrep name log) log)

  unfoldable pub capture_and_suspend : Log → Claimed MacOsClaimState
  capture_and_suspend log = on_claimed (suspend_agent (pgrep ni_agent log) log) (λ agent log₁.
      on_claimed (suspend_apps conflicting_apps agent.stopped_pids log₁)
        (λ pids log₂. (inr (record agent { stopped_pids = pids }), reset_servers usb_servers log₂)))

  unfoldable pub continue_all : List ℕ → Log → Log
  continue_all [] log = log
  continue_all (pid ∷ pids) log = continue_all pids (issue (kill pid sigcont) log)

  unfoldable pub bootstrap_call : SystemCall
  bootstrap_call =
      bootstrap gui_domain (codes "/Library/LaunchAgents/" ++ (agent_service ++ codes ".plist"))

  -- `drop` of the state.
  unfoldable pub drop_claim : MacOsClaimState → Log → Log
  drop_claim state log =
      let continued = continue_all state.stopped_pids log in
      if state.agent_was_bootable then issue bootstrap_call continued else continued
