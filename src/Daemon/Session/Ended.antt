-- ===== src/Daemon/Session/Ended.antt =====
-- After the end of the host's output.
use openmk.Prelude.{
  ◌≡◌, ◌⊎◌, ◌∙◌, refl, sym, inl, inr, Bool, true, false, Option, none, some, List, [], ◌∷◌, if_true,
  if_false, subst, Bool-cases, pick,
}
use openmk.Nks.Plid.{Str}
use openmk.Daemon.Session.{
  Envelope, Call, PluginSession, ReadLine, eof, read_error, Action, register_call, begin_call,
  read_step, write_line, write_call, begins, registers, writes, reads, step, run_steps,
}

module _ {Value : Type 0} (from_str : Str → Option (Envelope Value))
    (to_string : Envelope Value → Option Str) where
  -- Nothing is sent, and nothing is read any more.
  abbrev AreSilent : PluginSession Value → PluginSession Value → Type 0
  AreSilent s t = (t.replies ≡ s.replies) × (t.reading ≡ false)

  register_call_silent :
      (o : Option (Call Value × List (Call Value))) (s : PluginSession Value)
      → s.reading ≡ false
      → AreSilent s (register_call o s)
  unfolding register_call
  register_call_silent none s h = (refl, h)
  register_call_silent (some (c, others)) s h = (refl, h)

  write_line_silent :
      (o : Option Str) (c : Call Value) (s : PluginSession Value)
      → s.reading ≡ false
      → AreSilent s (write_line o c s)
  unfolding write_line
  write_line_silent none c s h = (refl, h)
  write_line_silent (some text) c s h = (refl, h)

  write_call_silent :
      (takes : Bool) (o : Option (Call Value × List (Call Value))) (s : PluginSession Value)
      → s.reading ≡ false
      → AreSilent s (write_call to_string takes o s)
  unfolding write_call
  write_call_silent takes none s h = (refl, h)
  write_call_silent true (some (c, others)) s h =
      write_line_silent (to_string c.envelope) c (record s { registered = others }) h
  write_call_silent false (some (c, others)) s h = (refl, h)

  step_silent :
      (a : Action Value) (s : PluginSession Value)
      → s.reading ≡ false
      → AreSilent s (step from_str to_string a s)
  unfolding step begin_call
  step_silent (begins kind body) s h = (refl, h)
  step_silent (registers i) s h = register_call_silent (pick i s.started) s h
  step_silent (writes takes i) s h = write_call_silent takes (pick i s.registered) s h
  step_silent (reads r) s h =
      subst (AreSilent s) (sym (if_false s.reading (read_step from_str r s) s h)) (refl, h)

  run_steps_silent :
      (actions : List (Action Value)) (s : PluginSession Value)
      → s.reading ≡ false
      → (run_steps from_str to_string actions s).replies ≡ s.replies
  unfolding run_steps
  run_steps_silent [] s h = refl
  run_steps_silent (a ∷ actions) s h =
      let (same, ended) = step_silent a s h in
      run_steps_silent actions (step from_str to_string a s) ended ∙ same

  end_silent :
      (r : ReadLine) (s : PluginSession Value)
      → (r ≡ eof) ⊎ (r ≡ read_error)
      → AreSilent s (step from_str to_string (reads r) s)
  unfolding step read_step
  end_silent r s ended = elim (Bool-cases s.reading) [
    | inl runs ↦
        subst (AreSilent s) (sym (if_true s.reading (read_step from_str r s) s runs))
          (elim ended [ inl e ↦ rw e (refl, refl) | inr e ↦ rw e (refl, refl) ])
    | inr silent ↦ step_silent (reads r) s silent
  ]

  -- Once the host's output has ended, or a read of it has failed, no call gets a reply any more,
  -- whatever steps calls take from there on, those of new calls included.
  pub run_steps_ended :
      (r : ReadLine) (actions : List (Action Value)) (s : PluginSession Value)
      → (r ≡ eof) ⊎ (r ≡ read_error)
      → (run_steps from_str to_string (reads r ∷ actions) s).replies ≡ s.replies
  unfolding run_steps
  run_steps_ended r actions s ended =
      let (same, silent) = end_silent r s ended in
      run_steps_silent actions (step from_str to_string (reads r) s) silent ∙ same
