-- ===== src/Proto/Writer.antt =====
-- What the encoders of this crate have in common.
use openmk.Prelude.{
  ℕ, zero, suc, [], ◌∷◌, refl, append-nil, arith, ◌≤◌, ◌<◌, ◌≡◌, ap, sym, ◌∙◌, List, ◌++◌,
  append_assoc, length, drop, Outcome, ok, err, map_ok, on_tail, on_tail-append, ltb, ltb→lt,
  ltb→le, le→ltb, if◌then◌else◌, Bool-cases, inl, inr,
}
use openmk.Proto.Types.{ProtoError, output_too_small}

-- An encoder with payload `report`, which needs as many bytes: it refuses a shorter buffer with both
-- lengths, and else writes the report to the front of the buffer and leaves the rest alone.
abbrev pub Writes : List ℕ → (List ℕ → Outcome ProtoError (ℕ × List ℕ)) → List ℕ → Type 0
Writes report encode out = encode out ≡ (
    if ltb (length out) (length report)
    then err (output_too_small (length report) (length out))
    else ok (length report, report ++ drop (length report) out))

pub Writes-intro :
    (report : List ℕ) (encode : List ℕ → Outcome ProtoError (ℕ × List ℕ)) (out : List ℕ)
    → (length out < length report
        → encode out ≡ err (output_too_small (length report) (length out)))
    → (length report ≤ length out
        → encode out ≡ ok (length report, report ++ drop (length report) out))
    → Writes report encode out
Writes-intro report encode out few enough = elim (Bool-cases (ltb (length out) (length report))) [
  | inl h ↦ rw h (few (ltb→lt _ _ h))
  | inr h ↦ rw h (enough (ltb→le _ _ h))
]

Writes-enough :
    (report : List ℕ) (encode : List ℕ → Outcome ProtoError (ℕ × List ℕ)) (out : List ℕ)
    → Writes report encode out
    → length report ≤ length out
    → encode out ≡ ok (length report, report ++ drop (length report) out)
Writes-enough report encode out writes fits = rw (le→ltb _ _ fits) at writes

drop_all : (xs : List ℕ) (n : ℕ) → length xs ≡ n → drop n xs ≡ []
drop_all [] zero e = refl
drop_all [] (suc n) e = refl
drop_all (x ∷ xs) zero e = absurd (omega arith)
drop_all (x ∷ xs) (suc n) e = drop_all xs n (omega arith)

-- A buffer of the report's length holds the report and nothing else.
pub Writes-exact :
    (report : List ℕ) (encode : List ℕ → Outcome ProtoError (ℕ × List ℕ)) (out : List ℕ)
    → Writes report encode out
    → length out ≡ length report
    → encode out ≡ ok (length report, report)
Writes-exact report encode out writes e =
    Writes-enough report encode out writes (omega arith)
    ∙ ap {B = Outcome ProtoError (ℕ × List ℕ)} (λ (ys : List ℕ). ok (length report, report ++ ys))
        (drop_all out (length report) e)
    ∙ ap {B = Outcome ProtoError (ℕ × List ℕ)} (λ (ys : List ℕ). ok (length report, ys))
        (append-nil report)

-- Called on the part of a buffer behind `pre`, it extends `pre` by its report.
pub on_tail-Writes :
    (report pre rest : List ℕ) (encode : List ℕ → Outcome ProtoError (ℕ × List ℕ)) (off : ℕ)
    → Writes report encode rest
    → off ≡ length pre
    → length report ≤ length rest
    → on_tail off encode (pre ++ rest)
      ≡ ok (length report, pre ++ report ++ drop (length report) rest)
on_tail-Writes report pre rest encode off writes e fits =
    on_tail-append encode pre rest off e
    ∙ ap (map_ok (λ r. (r.0, pre ++ r.1))) (Writes-enough report encode rest writes fits)
    ∙ ap {B = Outcome ProtoError (ℕ × List ℕ)} (λ (ys : List ℕ). ok (length report, ys))
        (sym (append_assoc pre report (drop (length report) rest)))
