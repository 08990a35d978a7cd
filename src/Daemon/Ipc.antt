-- ===== src/Daemon/Ipc.antt =====
-- crates/maschined/src/ipc.rs: the requests of a client and their replies. JSON is another package's.
use openmk.Prelude.{
  ℤ, ℕ, Bool, false, Option, none, some, List, [], ◌∷◌, ◌++◌, codes, ◌⊎◌, inl, inr,
}
use openmk.Nks.Plid.{Str}

pub record BrowseArgs : Type 0 where
  pub text : Option Str
  pub vendor : Option Str
  pub type : Option Str
  pub limit : Option ℕ

pub data Op : Type 0 where
  status scan_libraries : Op
  browse : BrowseArgs → Op
  -- preset_id
  load : ℤ → Op

pub record Reply (Value : Type 0) : Type 0 where
  pub ok : Bool
  pub payload : Value

-- `unwrap_or_default`
abbrev pub or_empty : Option Str → Str
or_empty none = []
or_empty (some s) = s

-- `unwrap_or` with the reply to a request that nobody answers.
abbrev pub or_no_reply {ℓ} : {Value : Type ℓ} → Value → Option Value → Value
or_no_reply unanswered none = unanswered
or_no_reply unanswered (some r) = r

-- `from_str` returns an operation or the text of an error, `error_json` builds `{"error": …}`. The
-- handler at the other end of the channel may drop a request.
module _ {Value State : Type 0} (to_string : Reply Value → Option Str) (error_json : Str → Value)
    (handler : Op → State → Option (Reply Value) × State) where
  -- The answer to a line that is decoded, and the handler's state.
  unfoldable pub answer_op : Op → State → Str × State
  answer_op op s =
      let (reply, s₁) = handler op s in
      (
        or_empty (
              to_string (
                or_no_reply (record { ok = false; payload = error_json (codes "no reply") }) reply))
            ++ (10 ∷ []),
        s₁,
      )

  unfoldable pub answer_bad_line : Str → State → Str × State
  answer_bad_line e s =
      (codes "{\"ok\":false,\"payload\":{\"error\":\"" ++ (e ++ codes "\"}}\n"), s)

  unfoldable pub answer_decoded : Op ⊎ Str → State → Str × State
  answer_decoded (inl op) s = answer_op op s
  answer_decoded (inr e) s = answer_bad_line e s

  -- The loop over the lines of a client: what is written back, line by line.
  unfoldable pub serve_lines : (Str → Op ⊎ Str) → List Str → State → List Str × State
  serve_lines from_str [] s = ([], s)
  serve_lines from_str (line ∷ lines) s =
      let (text, s₁) = answer_decoded (from_str line) s in
      let (texts, s₂) = serve_lines from_str lines s₁ in (text ∷ texts, s₂)
