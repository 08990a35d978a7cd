-- ===== src/Daemon/Session.antt =====
-- crates/maschined/src/session.rs: a session with the plug-in host, its calls and its read loop. A
-- one-shot channel is the number of the call that made it. A lock is held for one step at a time, so
-- the steps of calls and of the read loop interleave. `Value` is a JSON value; JSON is another
-- package's.
pub mod Matching
pub mod Delivery
pub mod Progress
pub mod Ended
use openmk.Prelude.{
  trim, ℕ, suc, ◌+◌, ◌%◌, ◌^◌, Bool, true, false, ◌&&◌, ◌||◌, Option, none, some, List, [], ◌∷◌,
  ◌++◌, ltb, leb, ◌==◌, if◌then◌else◌, map_get, map_remove, map_insert, pick,
}
use openmk.Nks.Plid.{Str}

pub record Envelope (Value : Type 0) : Type 0 where
  pub id : ℕ
  pub kind : Str
  pub body : Value

-- A call that has its id.
pub record Call (Value : Type 0) : Type 0 where
  pub channel : ℕ
  pub envelope : Envelope Value

-- What a read of a line returns; `eof` is `Ok(0)`.
pub data ReadLine : Type 0 where
  eof read_error : ReadLine
  line : Str → ReadLine

-- `pending` and `next_id` are the session's. The others are what it has done and what is under way:
-- envelopes sent to `events_tx`, envelopes sent on channels, lines written to the host, calls that
-- have an id but no entry in `pending`, calls that have yet to write, the calls that have written,
-- whether the read loop runs, and how many calls have begun.
pub record PluginSession (Value : Type 0) : Type 0 where
  pub pending : List (ℕ × ℕ)
  pub next_id : ℕ
  pub events : List (Envelope Value)
  pub replies : List (ℕ × Envelope Value)
  pub stdin : List Str
  pub started : List (Call Value)
  pub registered : List (Call Value)
  pub written : List (Call Value)
  pub reading : Bool
  pub calls : ℕ

-- A step of a call or of the read loop: a new call, the next step of a call that has its id, of one
-- that has its entry, or what a read returns.
pub data Action (Value : Type 0) : Type 0 where
  begins : Str → Value → Action Value
  registers : ℕ → Action Value
  writes : Bool → ℕ → Action Value
  reads : ReadLine → Action Value

module _ {Value : Type 0} where
  -- The session of a new host, `spawn`.
  unfoldable pub new_session : PluginSession Value
  new_session = record {
    pending = [];
    next_id = 1;
    events = [];
    replies = [];
    stdin = [];
    started = [];
    registered = [];
    written = [];
    reading = true;
    calls = 0;
  }

  -- `pending.remove(&env.id)` and the send, if there is an entry.
  unfoldable pub reply : Envelope Value → Option ℕ → PluginSession Value → PluginSession Value
  reply env none s = s
  reply env (some tx) s = record s {
    pending = map_remove ◌==◌ env.id s.pending;
    replies = s.replies ++ ((tx, env) ∷ []);
  }

  -- The loop body after a line is decoded.
  unfoldable pub dispatch : Envelope Value → PluginSession Value → PluginSession Value
  dispatch env s =
      if env.id == 0
      then record s { events = s.events ++ (env ∷ []) }
      else reply env (map_get ◌==◌ env.id s.pending) s

  unfoldable pub dispatch_decoded :
      Option (Envelope Value) → PluginSession Value → PluginSession Value
  dispatch_decoded none s = s
  dispatch_decoded (some env) s = dispatch env s

  -- `call`: the new id.
  unfoldable pub begin_call : Str → Value → PluginSession Value → PluginSession Value
  begin_call kind body s = record s {
    next_id = (s.next_id + 1) % 2 ^ 64;
    calls = s.calls + 1;
    started =
        (record {
          channel = s.calls;
          envelope = record { id = s.next_id; kind = kind; body = body };
        })
        ∷ s.started;
  }

  -- `call`: the entry in `pending`.
  unfoldable pub register_call :
      Option (Call Value × List (Call Value)) → PluginSession Value → PluginSession Value
  register_call none s = s
  register_call (some (c, others)) s = record s {
    started = others;
    registered = c ∷ s.registered;
    pending = map_insert ◌==◌ c.envelope.id c.channel s.pending;
  }

  unfoldable pub write_line : Option Str → Call Value → PluginSession Value → PluginSession Value
  write_line none c s = s
  write_line (some text) c s = record s {
    stdin = s.stdin ++ ((text ++ (10 ∷ [])) ∷ []);
    written = c ∷ s.written;
  }

module _ {Value : Type 0} (from_str : Str → Option (Envelope Value)) where
  -- One turn of the read loop.
  unfoldable pub read_step : ReadLine → PluginSession Value → PluginSession Value
  read_step eof s = record s { reading = false }
  read_step read_error s = record s { reading = false }
  read_step (line text) s = dispatch_decoded (from_str (trim text)) s

  -- The read loop on what its reads return.
  unfoldable pub read_loop : List ReadLine → PluginSession Value → PluginSession Value
  read_loop [] s = s
  read_loop (r ∷ later) s =
      let rest = read_loop later (read_step r s) in if s.reading then rest else s

module _ {Value : Type 0} (to_string : Envelope Value → Option Str) where
  -- `call`: the line, if the host takes it. A call that fails here returns its error.
  unfoldable pub write_call :
      Bool → Option (Call Value × List (Call Value)) → PluginSession Value → PluginSession Value
  write_call takes none s = s
  write_call takes (some (c, others)) s =
      let t = record s { registered = others } in
      if takes then write_line (to_string c.envelope) c t else t

module _ {Value : Type 0} (from_str : Str → Option (Envelope Value))
    (to_string : Envelope Value → Option Str) where
  unfoldable pub step : Action Value → PluginSession Value → PluginSession Value
  step (begins kind body) s = begin_call kind body s
  step (registers i) s = register_call (pick i s.started) s
  step (writes takes i) s = write_call to_string takes (pick i s.registered) s
  step (reads r) s = if s.reading then read_step from_str r s else s

  unfoldable pub run_steps : List (Action Value) → PluginSession Value → PluginSession Value
  run_steps [] s = s
  run_steps (a ∷ actions) s = run_steps actions (step a s)
