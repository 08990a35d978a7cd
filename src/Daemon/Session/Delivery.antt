-- ===== src/Daemon/Session/Delivery.antt =====
-- Every step keeps the matching of ids and channels, so a reply goes to its call.
use openmk.Prelude.{
  trim, ℕ, ◌+◌, ◌-◌, ◌^◌, ◌≤◌, ◌<◌, ◌≡◌, inl, inr, Bool, true, false, Option, none, some, List, [],
  ◌∷◌, ◌++◌, length, get_elem?, ◌↔◌, ◌==◌, if◌then◌else◌, All, map_get, pick, count_by, pick-cases,
  All-get_elem?, arith,
}
use openmk.Nks.Plid.{Str}
use openmk.Daemon.Session.{
  Envelope, Call, PluginSession, ReadLine, eof, read_error, line, Action, new_session, reply,
  dispatch, dispatch_decoded, begin_call, register_call, read_step, write_line, write_call, begins,
  registers, writes, reads, step, run_steps,
}
use openmk.Daemon.Session.Matching.{
  IsMatched, IsNumbered, IsAnswer, call_channel, reply_channel, new_session-IsMatched,
  begin_call-IsMatched, register_call-IsMatched, reply-IsMatched,
}

module _ {Value : Type 0} where
  -- What does not stand in `uses` may change.
  IsMatched-with :
      (events : List (Envelope Value)) (stdin : List Str) (reading : Bool)
      (registered written : List (Call Value)) (s : PluginSession Value)
      → All IsNumbered registered
      → All IsNumbered written
      → IsMatched s
      → IsMatched (record s {
        events = events;
        stdin = stdin;
        reading = reading;
        registered = registered;
        written = written;
      })
  IsMatched-with events stdin reading registered written s p q v = record {
    next = v.next;
    started_ids = v.started_ids;
    registered_ids = p;
    written_ids = q;
    entries = v.entries;
    answers = v.answers;
    once = v.once;
    fresh = v.fresh;
  }

  if-IsMatched :
      (b : Bool) (s t : PluginSession Value)
      → IsMatched s
      → IsMatched t
      → IsMatched (if b then s else t)
  if-IsMatched true s t v w = v
  if-IsMatched false s t v w = w

  dispatch-IsMatched :
      (env : Envelope Value) (s : PluginSession Value) → IsMatched s → IsMatched (dispatch env s)
  unfolding dispatch
  dispatch-IsMatched env s v =
      if-IsMatched (env.id == 0) _ _
        (IsMatched-with (s.events ++ (env ∷ [])) s.stdin s.reading s.registered s.written s
          v.registered_ids v.written_ids v)
        (reply-IsMatched env s v)

  dispatch_decoded-IsMatched :
      (o : Option (Envelope Value)) (s : PluginSession Value)
      → IsMatched s
      → IsMatched (dispatch_decoded o s)
  unfolding dispatch_decoded
  dispatch_decoded-IsMatched none s v = v
  dispatch_decoded-IsMatched (some env) s v = dispatch-IsMatched env s v

  write_line-IsMatched :
      (o : Option Str) (c : Call Value) (s : PluginSession Value)
      → IsMatched s
      → IsNumbered c
      → IsMatched (write_line o c s)
  unfolding write_line
  write_line-IsMatched none c s v n = v
  write_line-IsMatched (some text) c s v n =
      IsMatched-with s.events _ s.reading s.registered (c ∷ s.written) s v.registered_ids
        (n, v.written_ids) v

  stop-IsMatched :
      (s : PluginSession Value) → IsMatched s → IsMatched (record s { reading = false })
  stop-IsMatched s v =
      IsMatched-with s.events s.stdin false s.registered s.written s v.registered_ids v.written_ids
        v

  calls_if :
      (b : Bool) (s t : PluginSession Value) (n : ℕ)
      → s.calls ≤ n
      → t.calls ≤ n
      → (if b then s else t).calls ≤ n
  calls_if true s t n p q = p
  calls_if false s t n p q = q

  calls-reply :
      (env : Envelope Value) (o : Option ℕ) (s : PluginSession Value)
      → (reply env o s).calls ≤ s.calls + 1
  unfolding reply
  calls-reply env none s = omega arith
  calls-reply env (some tx) s = omega arith

  calls-dispatch_decoded :
      (o : Option (Envelope Value)) (s : PluginSession Value)
      → (dispatch_decoded o s).calls ≤ s.calls + 1
  unfolding dispatch_decoded dispatch
  calls-dispatch_decoded none s = omega arith
  calls-dispatch_decoded (some env) s =
      calls_if (env.id == 0) (record s { events = s.events ++ (env ∷ []) }) _ (s.calls + 1)
        (omega arith) (calls-reply env (map_get ◌==◌ env.id s.pending) s)

  calls-register_call :
      (o : Option (Call Value × List (Call Value))) (s : PluginSession Value)
      → (register_call o s).calls ≤ s.calls + 1
  unfolding register_call
  calls-register_call none s = omega arith
  calls-register_call (some (c, others)) s = omega arith

  calls-write_line :
      (o : Option Str) (c : Call Value) (s : PluginSession Value)
      → (write_line o c s).calls ≤ s.calls + 1
  unfolding write_line
  calls-write_line none c s = omega arith
  calls-write_line (some text) c s = omega arith

module _ {Value : Type 0} (from_str : Str → Option (Envelope Value))
    (to_string : Envelope Value → Option Str) where
  write_call-IsMatched :
      (takes : Bool) (i : ℕ) (s : PluginSession Value)
      → IsMatched s
      → IsMatched (write_call to_string takes (pick i s.registered) s)
  unfolding write_call
  write_call-IsMatched takes i s v =
      elim (pick-cases IsNumbered call_channel i s.registered v.registered_ids) [
        | inl e ↦ rw e v
        | inr (c, others, e, numbered, rest, counts) ↦
            let t =
              IsMatched-with s.events s.stdin s.reading others s.written s rest v.written_ids v in
            rw e (
              if-IsMatched takes _ _ (write_line-IsMatched (to_string c.envelope) c _ t numbered) t)
      ]

  read_step-IsMatched :
      (r : ReadLine) (s : PluginSession Value) → IsMatched s → IsMatched (read_step from_str r s)
  unfolding read_step
  read_step-IsMatched eof s v = stop-IsMatched s v
  read_step-IsMatched read_error s v = stop-IsMatched s v
  read_step-IsMatched (line text) s v = dispatch_decoded-IsMatched (from_str (trim text)) s v

  step-IsMatched :
      (a : Action Value) (s : PluginSession Value)
      → IsMatched s
      → s.calls + 1 < 2 ^ 64 - 1
      → IsMatched (step from_str to_string a s)
  unfolding step
  step-IsMatched (begins kind body) s v h = begin_call-IsMatched kind body s v h
  step-IsMatched (registers i) s v h = register_call-IsMatched i s v
  step-IsMatched (writes takes i) s v h = write_call-IsMatched takes i s v
  step-IsMatched (reads r) s v h = if-IsMatched s.reading _ s (read_step-IsMatched r s v) v

  calls-write_call :
      (takes : Bool) (o : Option (Call Value × List (Call Value))) (s : PluginSession Value)
      → (write_call to_string takes o s).calls ≤ s.calls + 1
  unfolding write_call
  calls-write_call takes none s = omega arith
  calls-write_call takes (some (c, others)) s =
      calls_if takes _ (record s { registered = others }) (s.calls + 1)
        (calls-write_line (to_string c.envelope) c (record s { registered = others })) (omega arith)

  calls-read_step :
      (r : ReadLine) (s : PluginSession Value) → (read_step from_str r s).calls ≤ s.calls + 1
  unfolding read_step
  calls-read_step eof s = omega arith
  calls-read_step read_error s = omega arith
  calls-read_step (line text) s = calls-dispatch_decoded (from_str (trim text)) s

  calls-step :
      (a : Action Value) (s : PluginSession Value)
      → (step from_str to_string a s).calls ≤ s.calls + 1
  unfolding step begin_call
  calls-step (begins kind body) s = omega arith
  calls-step (registers i) s = calls-register_call (pick i s.started) s
  calls-step (writes takes i) s = calls-write_call takes (pick i s.registered) s
  calls-step (reads r) s = calls_if s.reading _ s (s.calls + 1) (calls-read_step r s) (omega arith)

  run_steps-IsMatched :
      (actions : List (Action Value)) (s : PluginSession Value)
      → IsMatched s
      → s.calls + length actions < 2 ^ 64 - 1
      → IsMatched (run_steps from_str to_string actions s)
  unfolding run_steps
  run_steps-IsMatched [] s v h = v
  run_steps-IsMatched (a ∷ actions) s v h =
      run_steps-IsMatched actions (step from_str to_string a s) (step-IsMatched a s v (omega arith))
        (omega (arith, calls-step a s))

  -- However the steps of calls and of the read loop of a new session interleave, an envelope that was
  -- sent on a channel and a call that has written its line have the same id exactly if the channel is
  -- the call's, and no channel gets two envelopes. Condition: fewer than 2 ^ 64 - 1 steps, so the ids do
  -- not wrap around.
  pub reply-call :
      (actions : List (Action Value)) (i j : ℕ) (tx : ℕ) (env : Envelope Value) (call : Call Value)
      → length actions < 2 ^ 64 - 1
      → get_elem? (run_steps from_str to_string actions new_session).replies i ≡ some (tx, env)
      → get_elem? (run_steps from_str to_string actions new_session).written j ≡ some call
      → ((env.id ≡ call.envelope.id) ↔ (tx ≡ call.channel))
        × (count_by reply_channel tx (run_steps from_str to_string actions new_session).replies ≤ 1)
  reply-call actions i j tx env call h e f =
      let v =
        run_steps-IsMatched actions new_session new_session-IsMatched
          (unfold new_session in omega arith) in
      let answer = All-get_elem? IsAnswer i (tx, env) _ v.answers e in
      let numbered = All-get_elem? IsNumbered j call _ v.written_ids f in
      ((λ same. omega arith, λ same. omega arith), omega (arith, v.once tx))
