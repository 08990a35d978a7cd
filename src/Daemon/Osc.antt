-- ===== src/Daemon/Osc.antt =====
-- crates/maschined/src/osc.rs: the subscribers of the OSC server. `Addr` is a socket address; OSC
-- packets are another package's. A time is in milliseconds.
pub mod Subscribers
use openmk.Prelude.{
  ℕ, ◌-◌, Bool, Option, none, some, List, [], ◌∷◌, ◌++◌, map, take, ltb, if◌then◌else◌, map_insert,
}
use openmk.Nks.Plid.{Str}

-- `SUBSCRIBER_TTL`
abbrev pub subscriber_ttl : ℕ
subscriber_ttl = 60000

pub data OscPacket (Message Bundle : Type 0) : Type 0 where
  message : Message → OscPacket Message Bundle
  bundle : Bundle → OscPacket Message Bundle

-- `subs`, and what was sent on `cmd_tx`.
pub record OscServer (Addr Message : Type 0) : Type 0 where
  pub subs : List (Addr × ℕ)
  pub cmd_tx : List (Addr × Message)

unfoldable pub forward :
    {Addr Message Bundle : Type 0}
    → Addr
    → Option (OscPacket Message Bundle)
    → OscServer Addr Message
    → OscServer Addr Message
forward src (some (message m)) s = record s { cmd_tx = s.cmd_tx ++ ((src, m) ∷ []) }
forward src _ s = s

module _ {Addr Message Bundle : Type 0} (same_addr : Addr → Addr → Bool)
    (decode_udp : List ℕ → Option (OscPacket Message Bundle)) where
  -- The loop body of the task that receives: a datagram of `src` at time `now`. The buffer has 2048
  -- bytes.
  unfoldable pub receive : List ℕ → Addr → ℕ → OscServer Addr Message → OscServer Addr Message
  receive datagram src now s =
      forward src (decode_udp (take 2048 datagram))
        (record s { subs = map_insert same_addr src now s.subs })

-- `retain`
unfoldable pub retain : {Addr : Type 0} → ℕ → List (Addr × ℕ) → List (Addr × ℕ)
retain now [] = []
retain now ((dst, seen) ∷ subs) =
    let rest = retain now subs in
    if ltb (now - seen) subscriber_ttl then (dst, seen) ∷ rest else rest

unfoldable pub send_all :
    {Addr Message : Type 0}
    → Option (List ℕ)
    → ℕ
    → OscServer Addr Message
    → List (Addr × List ℕ) × OscServer Addr Message
send_all none now s = ([], s)
send_all (some buf) now s =
    let subs = retain now s.subs in (map (λ p. (p.0, buf)) subs, record s { subs = subs })

-- `emit` at time `now`: the datagrams that are sent, and the server after.
unfoldable pub emit :
    {Addr Message Arg : Type 0}
    → (Str → List Arg → Option (List ℕ))
    → Str
    → List Arg
    → ℕ
    → OscServer Addr Message
    → List (Addr × List ℕ) × OscServer Addr Message
emit encode addr args now s = send_all (encode addr args) now s
