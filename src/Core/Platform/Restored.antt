-- ===== src/Core/Platform/Restored.antt =====
-- What the drop of a claim gives back.
use openmk.Prelude.{
  ℕ, ◌≡◌, ◌∙◌, refl, ap, subst, inl, inr, Bool, true, false, not, ◌&&◌, ◌||◌, ◌==◌, ==_iff, Option,
  List, [], ◌∷◌, Bool-cases,
}
use openmk.Nks.Plid.{Str}
use openmk.Core.Platform.{
  sigcont, SystemCall, bootstrap, kill, Log, MacOsClaimState, issue, capture_and_suspend,
  continue_all, drop_claim, gui_domain, bootstrap_call,
}
use openmk.Registry.Keys.{same_bytes_refl}
use openmk.Core.Platform.Stopped.{
  has_pid, is_stopped, user_domain, agent_plist, takes_out, is_out, Ends, Holds,
  capture_and_suspend-Ends,
}

leave : (a b c : Bool) → (not b && (not a && c)) ≡ (not (a || b) && c)
leave true true c = refl
leave true false c = refl
leave false b c = refl

undo : (a c : Bool) → (not a && (a || c)) ≡ (not a && c)
undo true c = refl
undo false c = refl

undone : (a b c s : Bool) → a ≡ true → b ≡ true → c ≡ true → (not (a && (b && c)) && s) ≡ false
undone a b c s h k l = rw (h, k, l) refl

module _ (uid : Str) (pgrep : Str → Log → Option ℕ) (succeeds : SystemCall → Log → Bool)
    (stop_error : ℕ → Log → Str) where
  continued :
      (p q : ℕ) (s : Bool) (log : Log)
      → ((l : Log) → succeeds (kill p sigcont) l ≡ true)
      → (not ((p == q) && succeeds (kill q sigcont) log) && s) ≡ (not (p == q) && s)
  continued p q s log continues = elim (Bool-cases (p == q)) [
    | inl same ↦
        let done : succeeds (kill q sigcont) log ≡ true =
          subst (λ n. succeeds (kill n sigcont) log ≡ true) ((==_iff p q).0 same) (continues log) in
        rw (same, done) refl
    | inr other ↦ rw other refl
  ]

  continue_all-is_stopped :
      (p : ℕ) (pids : List ℕ) (log : Log)
      → ((l : Log) → succeeds (kill p sigcont) l ≡ true)
      → is_stopped p (continue_all uid pgrep succeeds stop_error pids log)
        ≡ (not (has_pid p pids) && is_stopped p log)
  unfolding continue_all issue is_stopped
  continue_all-is_stopped p [] log continues = refl
  continue_all-is_stopped p (q ∷ qs) log continues =
      continue_all-is_stopped p qs _ continues
      ∙ ap (λ s. not (has_pid p qs) && s) (continued p q (is_stopped p log) log continues)
      ∙ leave (p == q) (has_pid p qs) (is_stopped p log)

  continue_all-is_out :
      (pids : List ℕ) (log : Log)
      → is_out uid (continue_all uid pgrep succeeds stop_error pids log) ≡ is_out uid log
  unfolding continue_all issue is_out
  continue_all-is_out [] log = refl
  continue_all-is_out (q ∷ qs) log = continue_all-is_out qs _

  is_stopped-drop_claim :
      (state : MacOsClaimState) (log : Log) (p : ℕ)
      → ((l : Log) → succeeds (kill p sigcont) l ≡ true)
      → is_stopped p (drop_claim uid pgrep succeeds stop_error state log)
        ≡ (not (has_pid p state.stopped_pids) && is_stopped p log)
  unfolding drop_claim issue is_stopped gui_domain bootstrap_call
  is_stopped-drop_claim state log p continues = elim (Bool-cases state.agent_was_bootable) [
    | inl again ↦ rw again (continue_all-is_stopped p state.stopped_pids log continues)
    | inr kept ↦ rw kept (continue_all-is_stopped p state.stopped_pids log continues)
  ]

  -- The bootstrap of the agent succeeds.
  abbrev pub Restarts : Type 0
  Restarts = (l : Log) → succeeds (bootstrap (user_domain uid) agent_plist) l ≡ true

  bootstrapped :
      (s : Bool) (log : Log)
      → Restarts
      → takes_out uid
          (bootstrap (user_domain uid) agent_plist)
          (succeeds (bootstrap (user_domain uid) agent_plist) log)
          s
        ≡ false
  bootstrapped s log restarts =
      undone _ _ _ s (restarts log) (same_bytes_refl (user_domain uid))
        (same_bytes_refl agent_plist)

  is_out-drop_claim :
      (state : MacOsClaimState) (log : Log)
      → Restarts
      → is_out uid (drop_claim uid pgrep succeeds stop_error state log)
        ≡ (not state.agent_was_bootable && is_out uid log)
  unfolding drop_claim issue is_out gui_domain bootstrap_call
  is_out-drop_claim state log restarts = elim (Bool-cases state.agent_was_bootable) [
    | inl again ↦ rw again (
        bootstrapped
          (is_out uid (continue_all uid pgrep succeeds stop_error state.stopped_pids log))
          (continue_all uid pgrep succeeds stop_error state.stopped_pids log) restarts)
    | inr kept ↦ rw kept (continue_all-is_out state.stopped_pids log)
  ]

  -- A claim that succeeds and is dropped leaves no process stopped by it: after the claim the stopped
  -- processes are those of its state and those that were stopped before, and after the drop the latter
  -- without the former. The agent is out after the claim if the state says so or it was before, and after
  -- the drop only if it was before and the state does not say so. A process counts as stopped when a stop
  -- of it succeeded and no signal to continue has succeeded since; the agent as out when a boot-out of it
  -- succeeded and no bootstrap of it has since. Conditions: the claim does not fail, and at the drop the
  -- signal to continue the process and the bootstrap of the agent, whose results the code ignores, succeed.
  pub drop_claim-capture_and_suspend :
      (log log₁ : Log) (state : MacOsClaimState) (p : ℕ)
      → capture_and_suspend uid pgrep succeeds stop_error log ≡ (inr state, log₁)
      → ((l : Log) → succeeds (kill p sigcont) l ≡ true)
      → Restarts
      → let dropped = drop_claim uid pgrep succeeds stop_error state log₁ in
        (is_stopped p log₁ ≡ (has_pid p state.stopped_pids || is_stopped p log))
        × (is_stopped p dropped ≡ (not (has_pid p state.stopped_pids) && is_stopped p log))
        × (is_out uid log₁ ≡ (state.agent_was_bootable || is_out uid log))
        × (is_out uid dropped ≡ (not state.agent_was_bootable && is_out uid log))
  drop_claim-capture_and_suspend log log₁ state p e continues restarts =
      let held : Holds uid pgrep succeeds stop_error log state log₁ =
        subst (Ends (Holds uid pgrep succeeds stop_error log)) e
          (capture_and_suspend-Ends uid pgrep succeeds stop_error log) in
      (
        held.0 p,
        is_stopped-drop_claim state log₁ p continues
            ∙ ap (λ s. not (has_pid p state.stopped_pids) && s) (held.0 p)
            ∙ undo (has_pid p state.stopped_pids) (is_stopped p log),
        held.1,
        is_out-drop_claim state log₁ restarts
            ∙ ap (λ s. not state.agent_was_bootable && s) held.1
            ∙ undo state.agent_was_bootable (is_out uid log),
      )
