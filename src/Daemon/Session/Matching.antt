-- ===== src/Daemon/Session/Matching.antt =====
-- Which call a reply goes to.
use openmk.Prelude.{
  ℕ, ◌+◌, ◌-◌, ◌^◌, ◌≤◌, ◌<◌, ◌≡◌, ◌⊎◌, refl, sym, inl, inr, Bool, true, false, Option, some, List,
  [], ◌∷◌, ◌==◌, if◌then◌else◌, Bool-cases, Option-cases, All, map_get, map_remove, pick, count_by,
  count_by-append, All-append, pick-cases, arith,
}
use openmk.Nks.Plid.{Str}
use openmk.Daemon.Session.{
  Envelope, Call, PluginSession, new_session, reply, begin_call, register_call,
}

-- The channel under which an entry of `pending` stands, or on which a reply was sent.
abbrev pub entry_channel : ℕ × ℕ → ℕ
entry_channel p = p.1

abbrev pub IsEntry : ℕ × ℕ → Type 0
IsEntry p = p.0 ≡ p.1 + 1

map_remove-All :
    (P : ℕ × ℕ → Type 0) (k : ℕ) (m : List (ℕ × ℕ)) → All P m → All P (map_remove ◌==◌ k m)
map_remove-All P k [] p = tt
map_remove-All P k ((j, v) ∷ m) (p, ps) = elim (Bool-cases (j == k)) [
  | inl same ↦ rw same (map_remove-All P k m ps)
  | inr other ↦ rw other (p, map_remove-All P k m ps)
]

count-map_remove :
    (k c : ℕ) (m : List (ℕ × ℕ))
    → count_by entry_channel c (map_remove ◌==◌ k m) ≤ count_by entry_channel c m
count-map_remove k c [] = omega arith
count-map_remove k c ((j, v) ∷ m) = elim (Bool-cases (j == k)) [
  | inl same ↦ rw same (omega (arith, count-map_remove k c m))
  | inr other ↦ rw other (omega (arith, count-map_remove k c m))
]

get_if :
    (b : Bool) (v tx : ℕ) (o : Option ℕ)
    → (if b then some v else o) ≡ some tx
    → ((b ≡ true) × (v ≡ tx)) ⊎ ((b ≡ false) × (o ≡ some tx))
get_if true v tx o e = inl (refl, ground arith)
get_if false v tx o e = inr (refl, e)

-- The entry that a reply takes.
taken :
    (k tx : ℕ) (m : List (ℕ × ℕ))
    → All IsEntry m
    → map_get ◌==◌ k m ≡ some tx
    → (k ≡ tx + 1)
      × ((c : ℕ)
          → count_by entry_channel c (map_remove ◌==◌ k m) + (if tx == c then 1 else 0)
            ≤ count_by entry_channel c m)
taken k tx [] p e = absurd (ground arith)
taken k tx ((j, v) ∷ m) (p, ps) e = elim (get_if (j == k) v tx (map_get ◌==◌ k m) e) [
  | inl (same, channel) ↦
      rw (same, sym channel) (ground arith, λ c. omega (arith, count-map_remove k c m))
  | inr (other, later) ↦
      let (id, counts) = taken k tx m ps later in rw other (id, λ c. omega (arith, counts c))
]

module _ {Value : Type 0} where
  abbrev pub reply_channel : ℕ × Envelope Value → ℕ
  reply_channel r = r.0

  abbrev pub call_channel : Call Value → ℕ
  call_channel c = c.channel

  -- How many times a channel is in use: by a call without entry, by an entry, by a reply.
  abbrev pub uses : PluginSession Value → ℕ → ℕ
  uses s c =
      count_by call_channel c s.started
      + count_by entry_channel c s.pending
      + count_by reply_channel c s.replies

  abbrev pub IsNumbered : Call Value → Type 0
  IsNumbered c = c.envelope.id ≡ c.channel + 1

  abbrev pub IsAnswer : ℕ × Envelope Value → Type 0
  IsAnswer r = r.1.id ≡ r.0 + 1

  -- Ids are the channels' numbers from 1 on, and a channel is in use once at most.
  pub record IsMatched (s : PluginSession Value) : Type 0 where
    pub next : s.next_id ≡ s.calls + 1
    pub started_ids : All IsNumbered s.started
    pub registered_ids : All IsNumbered s.registered
    pub written_ids : All IsNumbered s.written
    pub entries : All IsEntry s.pending
    pub answers : All IsAnswer s.replies
    pub once : (c : ℕ) → uses s c ≤ 1
    pub fresh : (c : ℕ) → s.calls ≤ c → uses s c ≡ 0

  pub new_session-IsMatched : IsMatched new_session
  unfolding new_session
  new_session-IsMatched = record {
    next = refl;
    started_ids = tt;
    registered_ids = tt;
    written_ids = tt;
    entries = tt;
    answers = tt;
    once = λ c. omega arith;
    fresh = λ c h. omega arith;
  }

  pub begin_call-IsMatched :
      (kind : Str) (body : Value) (s : PluginSession Value)
      → IsMatched s
      → s.calls + 1 < 2 ^ 64 - 1
      → IsMatched (begin_call kind body s)
  unfolding begin_call
  begin_call-IsMatched kind body s v h = record {
    next = omega (arith, v.next);
    started_ids = (v.next, v.started_ids);
    registered_ids = v.registered_ids;
    written_ids = v.written_ids;
    entries = v.entries;
    answers = v.answers;
    once = λ c. ground (arith, v.once c, v.fresh c);
    fresh = λ c p. ground (arith, v.fresh c);
  }

  pub register_call-IsMatched :
      (i : ℕ) (s : PluginSession Value)
      → IsMatched s
      → IsMatched (register_call (pick i s.started) s)
  unfolding register_call
  register_call-IsMatched i s v =
      elim (pick-cases IsNumbered call_channel i s.started v.started_ids) [
        | inl e ↦ rw e v
        | inr (c, others, e, numbered, rest, counts) ↦ rw e (record {
          next = v.next;
          started_ids = rest;
          registered_ids = (numbered, v.registered_ids);
          written_ids = v.written_ids;
          entries = (numbered, map_remove-All IsEntry _ s.pending v.entries);
          answers = v.answers;
          once = λ n. omega (arith, v.once n, counts n, count-map_remove c.envelope.id n s.pending);
          fresh = λ n p.
              omega (arith, v.fresh n p, counts n, count-map_remove c.envelope.id n s.pending);
        })
      ]

  pub reply-IsMatched :
      (env : Envelope Value) (s : PluginSession Value)
      → IsMatched s
      → IsMatched (reply env (map_get ◌==◌ env.id s.pending) s)
  unfolding reply
  reply-IsMatched env s v = elim (Option-cases (map_get ◌==◌ env.id s.pending)) [
    | inl e ↦ rw e v
    | inr (tx, e) ↦
        let (id, counts) = taken env.id tx s.pending v.entries e in
        rw e (record {
          next = v.next;
          started_ids = v.started_ids;
          registered_ids = v.registered_ids;
          written_ids = v.written_ids;
          entries = map_remove-All IsEntry _ s.pending v.entries;
          answers = All-append IsAnswer s.replies _ v.answers (id, tt);
          once = λ n. omega (
            arith,
            v.once n,
            counts n,
            count_by-append reply_channel n s.replies ((tx, env) ∷ []),
          );
          fresh = λ n p. omega (
            arith,
            v.fresh n p,
            counts n,
            count_by-append reply_channel n s.replies ((tx, env) ∷ []),
          );
        })
  ]
