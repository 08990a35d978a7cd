-- ===== src/Core/Platform/Stopped.antt =====
-- What the log of a claim says of processes and of the agent, and what a claim that succeeds leaves.
use openmk.Prelude.{
  ℕ, ◌≡◌, ◌∙◌, refl, ap, sym, inl, inr, Bool, true, false, not, ◌&&◌, ◌||◌, ◌==◌, codes, Option,
  none, some, List, [], ◌∷◌, ◌++◌, Bool-cases, arith,
}
use openmk.Nks.Plid.{Str}
use openmk.Core.Platform.{
  sigstop, sigcont, sigkill, SystemCall, bootout, bootstrap, kill, Log, Claimed, MacOsClaimState,
  on_claimed, ni_agent, conflicting_apps, usb_servers, issue, stop_process, bootout_call,
  suspend_agent, suspend_app, suspend_apps, reset_server, reset_servers, capture_and_suspend,
  gui_domain,
}
use openmk.Nks.Riff.{same_bytes}
use openmk.Registry.Keys.{same_bytes_refl}

abbrev pub has_pid : ℕ → List ℕ → Bool
has_pid p [] = false
has_pid p (q ∷ qs) = (p == q) || has_pid p qs

-- Whether a process is stopped after a call, by whether it was before.
abbrev pub stops : ℕ → SystemCall → Bool → Bool → Bool
stops p (bootout target) done before = before
stops p (bootstrap domain plist) done before = before
stops p (kill q sigstop) done before = ((p == q) && done) || before
stops p (kill q sigcont) done before = not ((p == q) && done) && before
stops p (kill q sigkill) done before = before

-- A stop of the process succeeded, and no signal to continue has succeeded since.
unfoldable pub is_stopped : ℕ → Log → Bool
is_stopped p [] = false
is_stopped p ((call, done) ∷ log) = stops p call done (is_stopped p log)

-- What `launchctl` knows the agent by: the user's domain, the service in it, and the file that starts it.
abbrev pub user_domain : Str → Str
user_domain uid = codes "gui/" ++ uid

abbrev pub agent_target : Str → Str
agent_target uid = user_domain uid ++ codes "/com.native-instruments.NIHostIntegrationAgent"

abbrev pub agent_plist : Str
agent_plist = codes "/Library/LaunchAgents/com.native-instruments.NIHostIntegrationAgent.plist"

-- Whether the agent is out after a call, by whether it was before.
abbrev pub takes_out : Str → SystemCall → Bool → Bool → Bool
takes_out uid (bootout target) done before =
    (done && same_bytes target (agent_target uid)) || before
takes_out uid (bootstrap domain plist) done before =
    not (done && (same_bytes domain (user_domain uid) && same_bytes plist agent_plist)) && before
takes_out uid (kill q signal) done before = before

-- A boot-out of the agent succeeded, and no bootstrap of it has succeeded since.
unfoldable pub is_out : Str → Log → Bool
is_out uid [] = false
is_out uid ((call, done) ∷ log) = takes_out uid call done (is_out uid log)

-- A property of what a step that did not fail gives.
abbrev pub Ends : {A : Type 0} → (A → Log → Type 0) → Claimed A → Type 0
Ends P (inl e, log) = Unit
Ends P (inr a, log) = P a log

Ends-on_claimed :
    {A B : Type 0} (P : A → Log → Type 0) (Q : B → Log → Type 0) (r : Claimed A)
    (k : A → Log → Claimed B)
    → Ends P r
    → ((a : A) (log : Log) → P a log → Ends Q (k a log))
    → Ends Q (on_claimed r k)
unfolding on_claimed
Ends-on_claimed P Q (inl e, log) k p q = _
Ends-on_claimed P Q (inr a, log) k p q = q a log p

-- Since `base`, the processes `pids` were stopped and the agent was taken out if `agent` holds.
abbrev pub Since : Str → Log → Bool → List ℕ → Log → Type 0
Since uid base agent pids log =
    ((p : ℕ) → is_stopped p log ≡ (has_pid p pids || is_stopped p base))
    × (is_out uid log ≡ (agent || is_out uid base))

has_pid-append : (p q : ℕ) (qs : List ℕ) → has_pid p (qs ++ q ∷ []) ≡ ((p == q) || has_pid p qs)
has_pid-append p q [] = refl
has_pid-append p q (r ∷ qs) = let later = has_pid-append p q qs in ground arith

join : (a b c : Bool) → ((a && true) || (b || c)) ≡ ((a || b) || c)
join true b c = refl
join false b c = refl

join_none : (a c : Bool) → ((a && false) || c) ≡ c
join_none true c = refl
join_none false c = refl

module _ (uid : Str) (pgrep : Str → Log → Option ℕ) (succeeds : SystemCall → Log → Bool)
    (stop_error : ℕ → Log → Str) where
  abbrev Pids : Log → Bool → List ℕ → Log → Type 0
  Pids base agent pids log = Since uid base agent pids log

  stop_process-Ends :
      (base : Log) (agent : Bool) (pid : ℕ) (pids : List ℕ) (log : Log)
      → Since uid base agent pids log
      → Ends (Pids base agent) (stop_process uid pgrep succeeds stop_error pid pids log)
  unfolding stop_process issue is_stopped is_out
  stop_process-Ends base agent pid pids log h =
      elim (Bool-cases (succeeds (kill pid sigstop) log)) [
        | inl done ↦ rw done (
          (λ p.
              ap (λ s. ((p == pid) && true) || s) (h.0 p)
              ∙ join (p == pid) (has_pid p pids) (is_stopped p base)
              ∙ ap (λ s. s || is_stopped p base) (sym (has_pid-append p pid pids))),
          h.1,
        )
        | inr failed ↦ rw failed _
      ]

  suspend_app-Ends :
      (base : Log) (agent : Bool) (found : Option ℕ) (pids : List ℕ) (log : Log)
      → Since uid base agent pids log
      → Ends (Pids base agent) (suspend_app uid pgrep succeeds stop_error found pids log)
  unfolding suspend_app
  suspend_app-Ends base agent none pids log h = h
  suspend_app-Ends base agent (some pid) pids log h = stop_process-Ends base agent pid pids log h

  suspend_apps-Ends :
      (base : Log) (agent : Bool) (apps : List Str) (pids : List ℕ) (log : Log)
      → Since uid base agent pids log
      → Ends (Pids base agent) (suspend_apps uid pgrep succeeds stop_error apps pids log)
  unfolding suspend_apps
  suspend_apps-Ends base agent [] pids log h = h
  suspend_apps-Ends base agent (app ∷ apps) pids log h =
      Ends-on_claimed (Pids base agent) (Pids base agent)
        (suspend_app uid pgrep succeeds stop_error (pgrep app log) pids log) _
        (suspend_app-Ends base agent (pgrep app log) pids log h)
        (λ pids₁ log₁ h₁. suspend_apps-Ends base agent apps pids₁ log₁ h₁)

  abbrev pub Holds : Log → MacOsClaimState → Log → Type 0
  Holds base state log = Since uid base state.agent_was_bootable state.stopped_pids log

  suspend_agent-Ends :
      (found : Option ℕ) (log : Log)
      → Ends (Holds log) (suspend_agent uid pgrep succeeds stop_error found log)
  unfolding suspend_agent gui_domain bootout_call issue is_stopped is_out
  suspend_agent-Ends none log = ((λ p. refl), refl)
  suspend_agent-Ends (some pid) log =
      elim (Bool-cases (succeeds (bootout_call uid pgrep succeeds stop_error) log)) [
        | inl done ↦
            rw done
              ((λ p. refl), ap (λ b. b || is_out uid log) (same_bytes_refl (agent_target uid)))
        | inr failed ↦ rw failed (
            Ends-on_claimed (Pids log false) (Holds log)
              (stop_process uid pgrep succeeds stop_error pid [] _) _
              (stop_process-Ends log false pid [] _ ((λ p. refl), refl)) (λ pids log₁ h. h))
      ]

  reset_servers-Since :
      (base : Log) (agent : Bool) (pids : List ℕ) (names : List Str) (log : Log)
      → Since uid base agent pids log
      → Since uid base agent pids (reset_servers uid pgrep succeeds stop_error names log)
  unfolding reset_servers reset_server issue is_stopped is_out
  reset_servers-Since base agent pids [] log h = h
  reset_servers-Since base agent pids (name ∷ names) log h =
      reset_servers-Since base agent pids names _ (reset (pgrep name log) log h)
    where
      reset :
          (found : Option ℕ) (before : Log)
          → Since uid base agent pids before
          → Since uid base agent pids (reset_server uid pgrep succeeds stop_error found before)
      reset none before g = g
      reset (some pid) before g = g

  pub capture_and_suspend-Ends :
      (log : Log) → Ends (Holds log) (capture_and_suspend uid pgrep succeeds stop_error log)
  unfolding capture_and_suspend
  capture_and_suspend-Ends log =
      Ends-on_claimed (Holds log) (Holds log)
        (suspend_agent uid pgrep succeeds stop_error (pgrep ni_agent log) log) _
        (suspend_agent-Ends (pgrep ni_agent log) log)
        (λ agent log₁ h₁.
          Ends-on_claimed (Pids log agent.agent_was_bootable) (Holds log)
            (suspend_apps uid pgrep succeeds stop_error conflicting_apps agent.stopped_pids log₁) _
            (suspend_apps-Ends log agent.agent_was_bootable conflicting_apps agent.stopped_pids log₁
              h₁)
            (λ pids log₂ h₂.
              reset_servers-Since log agent.agent_was_bootable pids usb_servers log₂ h₂))
