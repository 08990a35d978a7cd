-- ===== src/Daemon/Session/Progress.antt =====
-- The read loop answers a call, unless the host's output has ended.
use openmk.Prelude.{
  trim, ℕ, ◌≡◌, ◌≢◌, ◌∙◌, refl, ap, sym, inl, inr, Bool, true, false, Option, none, some, List, [],
  ◌∷◌, ◌++◌, append_assoc, append-nil, length, get_elem?, ◌==◌, if◌then◌else◌, if_true, Bool-cases,
  All, map_get, map_remove, arith,
}
use openmk.Nks.Plid.{Str}
use openmk.Daemon.Session.{
  Envelope, PluginSession, ReadLine, eof, read_error, line, reply, dispatch, dispatch_decoded,
  read_step, read_loop,
}

get-remove :
    (k j : ℕ) (m : List (ℕ × ℕ)) → j ≢ k → map_get ◌==◌ k (map_remove ◌==◌ j m) ≡ map_get ◌==◌ k m
get-remove k j [] h = refl
get-remove k j ((i, v) ∷ m) h = elim (Bool-cases (i == j)) [
  | inl same ↦ let other : (i == k) ≡ false = ground arith in rw (same, other) (get-remove k j m h)
  | inr kept ↦ rw kept (ap (λ o. if i == k then some v else o) (get-remove k j m h))
]

get_elem?-append_length {ℓ} :
    {A : Type ℓ} (xs ys : List A) (y : A) → get_elem? (xs ++ (y ∷ ys)) (length xs) ≡ some y
get_elem?-append_length [] ys y = refl
get_elem?-append_length (x ∷ xs) ys y = get_elem?-append_length xs ys y

module _ {Value : Type 0} where
  -- A decoded line that is not the reply to id `id`.
  abbrev IsOther : ℕ → Option (Envelope Value) → Type 0
  IsOther id none = Unit
  IsOther id (some env) = env.id ≢ id

  -- Envelopes sent on channels by the time of `t`, after those of `s`.
  abbrev Sends : PluginSession Value → PluginSession Value → Type 0
  Sends s t = (more : List (ℕ × Envelope Value)) × (t.replies ≡ s.replies ++ more)

  Sends-none : (s t : PluginSession Value) → t.replies ≡ s.replies → Sends s t
  Sends-none s t e = ([], e ∙ sym (append-nil s.replies))

  Sends-trans : (s t u : PluginSession Value) → Sends s t → Sends t u → Sends s u
  Sends-trans s t u (more, e) (later, f) =
      (more ++ later, f ∙ ap (λ rs. rs ++ later) e ∙ append_assoc s.replies more later)

  Sends-if :
      (b : Bool) (s t u : PluginSession Value)
      → Sends s t
      → Sends s u
      → Sends s (if b then t else u)
  Sends-if true s t u p q = p
  Sends-if false s t u p q = q

  reply-Sends :
      (env : Envelope Value) (o : Option ℕ) (s : PluginSession Value) → Sends s (reply env o s)
  unfolding reply
  reply-Sends env none s = Sends-none s s refl
  reply-Sends env (some tx) s = ((tx, env) ∷ [], refl)

  dispatch_decoded-Sends :
      (o : Option (Envelope Value)) (s : PluginSession Value) → Sends s (dispatch_decoded o s)
  unfolding dispatch_decoded dispatch
  dispatch_decoded-Sends none s = Sends-none s s refl
  dispatch_decoded-Sends (some env) s =
      Sends-if (env.id == 0) s _ _
        (Sends-none s (record s { events = s.events ++ (env ∷ []) }) refl)
        (reply-Sends env (map_get ◌==◌ env.id s.pending) s)

  -- Another line leaves the entry of an id, and the loop running.
  record Waits (id tx : ℕ) (s : PluginSession Value) : Type 0 where
    running : s.reading ≡ true
    entry : map_get ◌==◌ id s.pending ≡ some tx

  reply-Waits :
      (id tx : ℕ) (env : Envelope Value) (o : Option ℕ) (s : PluginSession Value)
      → env.id ≢ id
      → Waits id tx s
      → Waits id tx (reply env o s)
  unfolding reply
  reply-Waits id tx env none s h w = w
  reply-Waits id tx env (some other) s h w = record {
    running = w.running;
    entry = get-remove id env.id s.pending h ∙ w.entry;
  }

  dispatch_decoded-Waits :
      (id tx : ℕ) (o : Option (Envelope Value)) (s : PluginSession Value)
      → IsOther id o
      → Waits id tx s
      → Waits id tx (dispatch_decoded o s)
  unfolding dispatch_decoded dispatch
  dispatch_decoded-Waits id tx none s h w = w
  dispatch_decoded-Waits id tx (some env) s h w = elim (Bool-cases (env.id == 0)) [
    | inl event ↦ rw event (record { running = w.running; entry = w.entry })
    | inr other ↦ rw other (reply-Waits id tx env (map_get ◌==◌ env.id s.pending) s h w)
  ]

  dispatch_decoded-reply :
      (id tx : ℕ) (env : Envelope Value) (s : PluginSession Value)
      → env.id ≡ id
      → id ≢ 0
      → Waits id tx s
      → (dispatch_decoded (some env) s).replies ≡ s.replies ++ ((tx, env) ∷ [])
  unfolding dispatch_decoded dispatch reply
  dispatch_decoded-reply id tx env s e h w =
      let other : (env.id == 0) ≡ false = ground arith in
      let entry : map_get ◌==◌ env.id s.pending ≡ some tx =
        ap (λ k. map_get ◌==◌ k s.pending) e ∙ w.entry in
      rw other (rw entry refl)

module _ {Value : Type 0} (from_str : Str → Option (Envelope Value)) where
  -- A read that neither ends the loop nor brings the reply to id `id`.
  abbrev IsOtherRead : ℕ → ReadLine → Type 0
  IsOtherRead id eof = ⊥
  IsOtherRead id read_error = ⊥
  IsOtherRead id (line text) = IsOther id (from_str (trim text))

  read_step-Sends : (r : ReadLine) (s : PluginSession Value) → Sends s (read_step from_str r s)
  unfolding read_step
  read_step-Sends eof s = Sends-none s (record s { reading = false }) refl
  read_step-Sends read_error s = Sends-none s (record s { reading = false }) refl
  read_step-Sends (line text) s = dispatch_decoded-Sends (from_str (trim text)) s

  read_loop-Sends :
      (rs : List ReadLine) (s : PluginSession Value) → Sends s (read_loop from_str rs s)
  unfolding read_loop
  read_loop-Sends [] s = Sends-none s s refl
  read_loop-Sends (r ∷ rs) s =
      Sends-if s.reading s (read_loop from_str rs (read_step from_str r s)) s
        (Sends-trans s (read_step from_str r s) (read_loop from_str rs (read_step from_str r s))
          (read_step-Sends r s) (read_loop-Sends rs (read_step from_str r s)))
        (Sends-none s s refl)

  read_step-Waits :
      (id tx : ℕ) (r : ReadLine) (s : PluginSession Value)
      → IsOtherRead id r
      → Waits id tx s
      → Waits id tx (read_step from_str r s)
  unfolding read_step
  read_step-Waits id tx eof s h w = absurd h
  read_step-Waits id tx read_error s h w = absurd h
  read_step-Waits id tx (line text) s h w =
      dispatch_decoded-Waits id tx (from_str (trim text)) s h w

  now :
      (id tx : ℕ) (later : List ReadLine) (text : Str) (env : Envelope Value)
      (s : PluginSession Value)
      → from_str (trim text) ≡ some env
      → env.id ≡ id
      → id ≢ 0
      → Waits id tx s
      → get_elem?
          (read_loop from_str later (read_step from_str (line text) s)).replies
          (length s.replies)
        ≡ some (tx, env)
  unfolding read_step
  now id tx later text env s d e z w =
      let (more, f) = read_loop-Sends later (dispatch_decoded (from_str (trim text)) s) in
      let sent : (dispatch_decoded (from_str (trim text)) s).replies
          ≡ s.replies ++ ((tx, env) ∷ []) =
        ap (λ o. (dispatch_decoded o s).replies) d ∙ dispatch_decoded-reply id tx env s e z w in
      ap (λ rs. get_elem? rs (length s.replies))
        (f ∙ ap (λ rs. rs ++ more) sent ∙ append_assoc s.replies ((tx, env) ∷ []) more)
      ∙ get_elem?-append_length s.replies more (tx, env)

  answered :
      (id tx : ℕ) (before later : List ReadLine) (text : Str) (env : Envelope Value)
      (s : PluginSession Value)
      → All (IsOtherRead id) before
      → from_str (trim text) ≡ some env
      → env.id ≡ id
      → id ≢ 0
      → Waits id tx s
      → (i : ℕ) × (get_elem? (read_loop from_str (before ++ (line text ∷ later)) s).replies i
          ≡ some (tx, env))
  unfolding read_loop
  answered id tx [] later text env s h d e z w = (
    length s.replies,
    ap (λ t. get_elem? t.replies (length s.replies)) (if_true s.reading _ s w.running)
        ∙ now id tx later text env s d e z w,
  )
  answered id tx (r ∷ before) later text env s (h, hs) d e z w =
      let (i, found) =
        answered id tx before later text env (read_step from_str r s) hs d e z
          (read_step-Waits id tx r s h w) in
      (i, ap (λ t. get_elem? t.replies i) (if_true s.reading _ s w.running) ∙ found)

-- A call is answered: while the read loop runs, once a line with the call's id comes, and no line
-- before it has that id nor ends the host's output, the call's channel gets the envelope of that line,
-- whatever the other lines are and whatever comes later. Condition: the call has its entry in
-- `pending`, and its id is not 0.
pub read_loop-answers :
    {Value : Type 0} (from_str : Str → Option (Envelope Value)) (id tx : ℕ)
    (before later : List ReadLine) (text : Str) (env : Envelope Value) (s : PluginSession Value)
    → All (IsOtherRead from_str id) before
    → from_str (trim text) ≡ some env
    → env.id ≡ id
    → id ≢ 0
    → s.reading ≡ true
    → map_get ◌==◌ id s.pending ≡ some tx
    → (i : ℕ) × (get_elem? (read_loop from_str (before ++ (line text ∷ later)) s).replies i
        ≡ some (tx, env))
read_loop-answers from_str id tx before later text env s h d e z runs entry =
    answered from_str id tx before later text env s h d e z
      (record { running = runs; entry = entry })
