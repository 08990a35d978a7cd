-- ===== src/Daemon/Osc/Subscribers.antt =====
-- Whom an event is sent to.
use openmk.Prelude.{
  ℕ, ◌-◌, ◌≡◌, ◌∙◌, refl, ap, sym, inl, inr, Bool, true, false, Option, none, some, List, [], ◌∷◌,
  map, take, subst, ltb, map_get, map_remove, map_insert, get_same, get_removed,
  get-map_remove_self, AreDistinct, if◌then◌else◌, if_true, Bool-cases, arith,
}
use openmk.Nks.Plid.{Str}
use openmk.Daemon.Osc.{
  OscServer, OscPacket, message, bundle, forward, receive, retain, send_all, emit, subscriber_ttl,
}

module _ {Addr : Type 0} (same_addr : Addr → Addr → Bool)
    (same_refl : (a : Addr) → same_addr a a ≡ true)
    (same_sym : (a b : Addr) → same_addr a b ≡ true → same_addr b a ≡ true)
    (same_trans : (a b c : Addr)
      → same_addr a b ≡ true
      → same_addr b c ≡ true
      → same_addr a c ≡ true) where
  -- A time that is recent at `now`.
  abbrev pub recent : ℕ → Option ℕ → Option ℕ
  recent now none = none
  recent now (some seen) = if ltb (now - seen) subscriber_ttl then some seen else none

  get-retain :
      (now : ℕ) (a : Addr) (subs : List (Addr × ℕ))
      → AreDistinct same_addr subs
      → map_get same_addr a (retain now subs) ≡ recent now (map_get same_addr a subs)
  unfolding retain
  get-retain now a [] d = refl
  get-retain now a ((c, seen) ∷ subs) (fresh, d) = elim (Bool-cases (same_addr c a)) [
    | inl same ↦ elim (Bool-cases (ltb (now - seen) subscriber_ttl)) [
      | inl young ↦ rw (young, same) (sym (if_true _ (some seen) none young))
      | inr old ↦
          let gone : map_get same_addr a subs ≡ none =
            sym (get_same same_addr same_refl same_sym same_trans c a subs same) ∙ fresh in
          rw (same, old) (get-retain now a subs d ∙ ap (recent now) gone)
    ]
    | inr other ↦ elim (Bool-cases (ltb (now - seen) subscriber_ttl)) [
      | inl young ↦ rw (young, other) (get-retain now a subs d)
      | inr old ↦ rw (old, other) (get-retain now a subs d)
    ]
  ]

  -- The datagrams that come, in order, each with its source and its time.
  unfoldable pub receive_all :
      {Message Bundle : Type 0}
      → (List ℕ → Option (OscPacket Message Bundle))
      → List (List ℕ × (Addr × ℕ))
      → OscServer Addr Message
      → OscServer Addr Message
  receive_all decode_udp [] s = s
  receive_all decode_udp ((datagram, (src, now)) ∷ later) s =
      receive_all decode_udp later (receive same_addr decode_udp datagram src now s)

  -- When the last datagram of an address came, `before` if none did.
  abbrev pub last_seen : Addr → Option ℕ → List (List ℕ × (Addr × ℕ)) → Option ℕ
  last_seen a before [] = before
  last_seen a before ((datagram, (src, now)) ∷ later) =
      last_seen a (if same_addr src a then some now else before) later

  subs-forward :
      {Message Bundle : Type 0} (src : Addr) (o : Option (OscPacket Message Bundle))
      (s : OscServer Addr Message)
      → (forward src o s).subs ≡ s.subs
  unfolding forward
  subs-forward src none s = refl
  subs-forward src (some (message m)) s = refl
  subs-forward src (some (bundle b)) s = refl

  AreDistinct-map_remove :
      (k : Addr) (m : List (Addr × ℕ))
      → AreDistinct same_addr m
      → AreDistinct same_addr (map_remove same_addr k m)
  AreDistinct-map_remove k [] d = tt
  AreDistinct-map_remove k ((c, v) ∷ m) (fresh, d) = elim (Bool-cases (same_addr c k)) [
    | inl gone ↦ rw gone (AreDistinct-map_remove k m d)
    | inr kept ↦
        let other : same_addr k c ≡ false = elim (Bool-cases (same_addr k c)) [
          | inl same ↦ absurd (ground (arith, kept, same_sym k c same))
          | inr differs ↦ differs
        ] in
        rw kept (
          get_removed same_addr same_refl same_sym same_trans c k m other ∙ fresh,
          AreDistinct-map_remove k m d,
        )
  ]

  get-map_insert :
      (a src : Addr) (now : ℕ) (m : List (Addr × ℕ))
      → map_get same_addr a (map_insert same_addr src now m)
        ≡ (if same_addr src a then some now else map_get same_addr a m)
  get-map_insert a src now m = elim (Bool-cases (same_addr src a)) [
    | inl same ↦ rw same refl
    | inr other ↦ rw (other, get_removed same_addr same_refl same_sym same_trans a src m other) refl
  ]

  module _ {Message Bundle : Type 0} (decode_udp : List ℕ → Option (OscPacket Message Bundle)) where
    subs-receive :
        (datagram : List ℕ) (src : Addr) (now : ℕ) (s : OscServer Addr Message)
        → (receive same_addr decode_udp datagram src now s).subs
          ≡ map_insert same_addr src now s.subs
    unfolding receive
    subs-receive datagram src now s = subs-forward src (decode_udp (take 2048 datagram)) _

    subs-receive_all :
        (ds : List (List ℕ × (Addr × ℕ))) (a : Addr) (s : OscServer Addr Message)
        → AreDistinct same_addr s.subs
        → (map_get same_addr a (receive_all decode_udp ds s).subs
            ≡ last_seen a (map_get same_addr a s.subs) ds)
          × AreDistinct same_addr (receive_all decode_udp ds s).subs
    unfolding receive_all
    subs-receive_all [] a s d = (refl, d)
    subs-receive_all ((datagram, (src, now)) ∷ later) a s d =
        let new = subs-receive datagram src now s in
        let (found, distinct) =
          subs-receive_all later a (receive same_addr decode_udp datagram src now s) (
            subst (AreDistinct same_addr) (sym new)
              (get-map_remove_self same_addr src s.subs, AreDistinct-map_remove src s.subs d)) in
        (
          found
              ∙ ap (λ o. last_seen a o later)
                  (ap (map_get same_addr a) new ∙ get-map_insert a src now s.subs),
          distinct,
        )

  abbrev pub datagram_for : List ℕ → Option ℕ → Option (List ℕ)
  datagram_for buf none = none
  datagram_for buf (some seen) = some buf

  get-sent :
      (a : Addr) (buf : List ℕ) (subs : List (Addr × ℕ))
      → map_get same_addr a (map (λ p. (p.0, buf)) subs)
        ≡ datagram_for buf (map_get same_addr a subs)
  get-sent a buf [] = refl
  get-sent a buf ((c, v) ∷ subs) = elim (Bool-cases (same_addr c a)) [
    | inl same ↦ rw same refl
    | inr other ↦ rw other (get-sent a buf subs)
  ]

  -- After any datagrams, a message is sent to exactly the addresses whose last datagram came less than a
  -- minute before, as the encoded message. Condition: the message can be encoded, and the equality of
  -- addresses is an equivalence.
  pub emit-last_seen :
      {Message Bundle Arg : Type 0} (decode_udp : List ℕ → Option (OscPacket Message Bundle))
      (encode : Str → List Arg → Option (List ℕ)) (addr : Str) (args : List Arg) (buf : List ℕ)
      (ds : List (List ℕ × (Addr × ℕ))) (now : ℕ) (a : Addr)
      → encode addr args ≡ some buf
      → map_get same_addr a
          (emit encode addr args now
            (receive_all decode_udp ds (record { subs = []; cmd_tx = [] }))).0
        ≡ datagram_for buf (recent now (last_seen a none ds))
  unfolding emit send_all
  emit-last_seen decode_udp encode addr args buf ds now a e =
      let (found, distinct) =
        subs-receive_all decode_udp ds a (record { subs = []; cmd_tx = [] }) tt in
      let server = receive_all decode_udp ds (record { subs = []; cmd_tx = [] }) in
      rw e (
        get-sent a buf (retain now server.subs)
        ∙ ap (datagram_for buf) (get-retain now a server.subs distinct ∙ ap (recent now) found))
