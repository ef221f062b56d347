-- ===== src/Prompts/Refusals.antt =====
-- What `parse_g4_response` of gatekeeper/gates/prompts.py does with an answer that names a verdict.

use lakshmana_core.Prelude.{
  ◌≢◌, ℕ, ◌+◌, true, false, String, str_eq, Option, none, some, ◌≡◌, refl, ◌∙◌, ap, ◌⊎◌, inl, inr,
  Option-cases,
}
use lakshmana_core.Enums.{Verdict, neutral, repeats, corroborates, contradicts}
use lakshmana_core.Decisions.{Score}
use lakshmana_core.Wire.{by_value}
use lakshmana_core.Prompts.{
  Double, finite, minus, one, Json, null, boolean, integer, negative, real, text, array, object,
  Items, item, Object, value_of, LlmVerdict, answered, raised, overflow, is_object, verdict_value,
  verdicts, first_object, verdict_object, read_relation, read_confidence, read_row, verdict_from,
  parse_g4_response,
}
use lakshmana_core.Prompts.Answers.{IsFirst, here, later, IsVerdictObject, bare, listed}

first_object-skip :
    (j : Json) (rest : Items) → is_object j ≡ false → first_object (item j rest) ≡ first_object rest
unfolding first_object
first_object-skip null rest h = refl
first_object-skip (boolean b) rest h = refl
first_object-skip (integer n) rest h = refl
first_object-skip (negative n) rest h = refl
first_object-skip (real c) rest h = refl
first_object-skip (text w) rest h = refl
first_object-skip (array items) rest h = refl
first_object-skip (object o) rest h = cc

IsFirst-first_object : {items : Items} {o : Object} → IsFirst items o → first_object items ≡ some o
unfolding first_object
IsFirst-first_object (here o rest) = refl
IsFirst-first_object (later j rest o h first) =
    first_object-skip j rest h ∙ IsFirst-first_object first

IsVerdictObject-verdict_object :
    {j : Json} {o : Object} → IsVerdictObject j o → verdict_object j ≡ answered o
unfolding verdict_object
IsVerdictObject-verdict_object (bare o) = refl
IsVerdictObject-verdict_object (listed items o first) =
    rw (IsFirst-first_object first, verdict_object)

by_value-verdict_value : (r : Verdict) → by_value verdict_value verdicts (verdict_value r) ≡ some r
by_value-verdict_value neutral = refl
by_value-verdict_value repeats = refl
by_value-verdict_value corroborates = refl
by_value-verdict_value contradicts = refl

-- A whole number that no double is near, as `float` finds.
abbrev pub IsTooLarge : (ℕ → Option Score) → Option Json → Type 0
IsTooLarge float value =
    (n : ℕ) × (float n ≡ none)
    × ((value ≡ some (integer n)) ⊎ ((m : ℕ) × (n ≡ m + 1) × (value ≡ some (negative m))))

not_large :
    (float : ℕ → Option Score) (value : Option Json)
    → ((n : ℕ) → value ≡ some (integer n) → float n ≢ none)
    → ((n : ℕ) → value ≡ some (negative n) → float (n + 1) ≢ none)
    → ¬ IsTooLarge float value
not_large float value pos neg (n, gone, inl e) = pos n e gone
not_large float value pos neg (n, gone, inr (m, d, e)) = neg m e (cc (gone, d))

module _ (strip upper strip_fences : String → String) (loads : String → Option Json)
    (float : ℕ → Option Score) where
  read_confidence-ends :
      (value : Option Json)
      → ((c : Double) × (read_confidence strip upper strip_fences loads float value ≡ answered c)
          × (¬ IsTooLarge float value))
        ⊎ (IsTooLarge float value
            × (read_confidence strip upper strip_fences loads float value ≡ raised overflow))
  unfolding read_confidence
  read_confidence-ends none =
      inl (finite 0, refl, not_large float _ (λ n e g. cc e) (λ n e g. cc e))
  read_confidence-ends (some (boolean true)) =
      inl (finite one, refl, not_large float _ (λ n e g. cc e) (λ n e g. cc e))
  read_confidence-ends (some (boolean false)) =
      inl (finite 0, refl, not_large float _ (λ n e g. cc e) (λ n e g. cc e))
  read_confidence-ends (some (integer n)) = elim (Option-cases (float n)) [
    | inl e ↦ inr ((n, e, inl refl), rw (e, read_confidence))
    | inr (c, f) ↦ inl (
      finite c,
      rw (f, read_confidence),
      not_large float _ (λ m e g. cc (e, f, g)) (λ m e g. cc e),
    )
  ]
  read_confidence-ends (some (negative n)) = elim (Option-cases (float (n + 1))) [
    | inl e ↦ inr ((n + 1, e, inr (n, refl, refl)), rw (e, read_confidence))
    | inr (c, f) ↦ inl (
      minus c,
      rw (f, read_confidence),
      not_large float _ (λ m e g. cc e) (λ m e g. cc (e, f, g)),
    )
  ]
  read_confidence-ends (some (real c)) =
      inl (c, refl, not_large float _ (λ n e g. cc e) (λ n e g. cc e))
  read_confidence-ends (some null) =
      inl (finite 0, refl, not_large float _ (λ n e g. cc e) (λ n e g. cc e))
  read_confidence-ends (some (text w)) =
      inl (finite 0, refl, not_large float _ (λ n e g. cc e) (λ n e g. cc e))
  read_confidence-ends (some (array items)) =
      inl (finite 0, refl, not_large float _ (λ n e g. cc e) (λ n e g. cc e))
  read_confidence-ends (some (object o)) =
      inl (finite 0, refl, not_large float _ (λ n e g. cc e) (λ n e g. cc e))

  read_relation-named :
      (o : Object) (w : String) (r : Verdict)
      → value_of o "relation" ≡ some (text w)
      → upper (strip w) ≡ verdict_value r
      → read_relation strip upper strip_fences loads float (value_of o "relation") ≡ answered r
  unfolding read_relation
  read_relation-named o w r named word =
      let known = ap (by_value verdict_value verdicts) word ∙ by_value-verdict_value r in
      rw (named, known, read_relation)

  read_row-ends :
      (o : Object) (w : String) (r : Verdict)
      → value_of o "relation" ≡ some (text w)
      → upper (strip w) ≡ verdict_value r
      → ((v : LlmVerdict) × (read_row strip upper strip_fences loads float o ≡ answered v)
          × (v.relation ≡ r)
          × (¬ IsTooLarge float (value_of o "confidence")))
        ⊎ (IsTooLarge float (value_of o "confidence")
            × (read_row strip upper strip_fences loads float o ≡ raised overflow))
  unfolding read_row
  read_row-ends o w r named word =
      let known = read_relation-named o w r named word in
      elim (read_confidence-ends (value_of o "confidence")) [
        | inl (c, e, fits) ↦ inl (
          verdict_from strip upper strip_fences loads float o r c,
          rw (known, e, read_row),
          refl,
          fits,
        )
        | inr (large, e) ↦ inr (large, rw (known, e, read_row))
      ]

  -- Of an answer that names a verdict, the object bare or in an array, one of two things is true. Its
  -- confidence is a whole number that `float` finds no double for, and the parser raises OverflowError;
  -- or it is not, and the answer is read as that verdict, whatever else it holds.
  pub parse_g4_response-ends :
      (raw : String) (j : Json) (o : Object) (w : String) (r : Verdict)
      → str_eq (strip_fences raw) "" ≡ false
      → loads (strip_fences raw) ≡ some j
      → IsVerdictObject j o
      → value_of o "relation" ≡ some (text w)
      → upper (strip w) ≡ verdict_value r
      → ((v : LlmVerdict) × (parse_g4_response strip upper strip_fences loads float raw
            ≡ answered v)
          × (v.relation ≡ r)
          × (¬ IsTooLarge float (value_of o "confidence")))
        ⊎ (IsTooLarge float (value_of o "confidence")
            × (parse_g4_response strip upper strip_fences loads float raw ≡ raised overflow))
  unfolding parse_g4_response
  parse_g4_response-ends raw j o w r full loaded first named word =
      let same : parse_g4_response strip upper strip_fences loads float raw
          ≡ read_row strip upper strip_fences loads float o =
        rw (full, loaded, IsVerdictObject-verdict_object first) in
      elim (read_row-ends o w r named word) [
        | inl (v, e, is_r, fits) ↦ inl (v, same ∙ e, is_r, fits)
        | inr (large, e) ↦ inr (large, same ∙ e)
      ]
