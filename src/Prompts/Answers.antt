-- ===== src/Prompts/Answers.antt =====
-- What `parse_g4_response` of gatekeeper/gates/prompts.py accepts.
use mathlib.Core.Option.{some-injective}
use mathlib.Core.Path.{subst}
use lakshmana_core.Prelude.{
  ℕ, Bool, true, false, String, Option, some, ◌≡◌, refl, sym, if◌then◌else◌, inl, inr, leb, ltb,
  arith, Bool-cases, Option-cases,
}
use lakshmana_core.Enums.{Verdict}
use lakshmana_core.Decisions.{Score}
use lakshmana_core.Wire.{by_value, by_value-eq-some}
use lakshmana_core.Prompts.{
  Double, finite, below, infinity, minus_infinity, not_a_number, null, boolean, integer, negative,
  real, no_items, is_object, double_min, double_max, one, Json, array, object, text, Items, item,
  Object, value_of, LlmVerdict, answered, verdict_value, verdicts, first_object, verdict_object,
  read_relation, read_confidence, read_row, parse_g4_response,
}

-- `o` is the object that the answer `j` carries: the answer itself, or the first object of an array.
pub data IsFirst : Items → Object → Type 0 where
  here : (o : Object) (rest : Items) → IsFirst (item (object o) rest) o
  later :
      (j : Json) (rest : Items) (o : Object)
      → is_object j ≡ false
      → IsFirst rest o
      → IsFirst (item j rest) o

pub data IsVerdictObject : Json → Object → Type 0 where
  bare : (o : Object) → IsVerdictObject (object o) o
  listed : (items : Items) (o : Object) → IsFirst items o → IsVerdictObject (array items) o

-- A number between 0.0 and the bound, or no number.
pub data IsWithin (top : Score) : Double → Type 0 where
  within : (c : Score) → leb c top ≡ true → IsWithin top (finite c)
  unordered : IsWithin top not_a_number

clamped_at : Score → Double → Double
clamped_at top c = double_min (double_max c (finite 0)) (finite top)

min-IsWithin : (top c : Score) → IsWithin top (double_min (finite c) (finite top))
min-IsWithin top c = elim (Bool-cases (ltb top c)) [
  | inl e ↦ subst (IsWithin top) (sym (rw e)) (within top (ground arith))
  | inr e ↦ subst (IsWithin top) (sym (rw e)) (within c (ground arith))
]

either : (P : Double → Type 0) (b : Bool) {c d : Double} → P c → P d → P (if b then c else d)
either P true p q = p
either P false p q = q

clamped_at-IsWithin : (top : Score) (c : Double) → IsWithin top (clamped_at top c)
unfolding clamped_at
clamped_at-IsWithin top (finite c) =
    either (λ d. IsWithin top (double_min d (finite top))) (ltb c 0) (min-IsWithin top 0)
      (min-IsWithin top c)
clamped_at-IsWithin top (below n) = min-IsWithin top 0
clamped_at-IsWithin top infinity = within top (ground arith)
clamped_at-IsWithin top minus_infinity = min-IsWithin top 0
clamped_at-IsWithin top not_a_number = unordered

first_object-IsFirst : (items : Items) (o : Object) → first_object items ≡ some o → IsFirst items o
unfolding first_object
first_object-IsFirst no_items o h = cc
first_object-IsFirst (item (object p) rest) o h =
    subst (IsFirst (item (object p) rest)) (some-injective p o h) (here p rest)
first_object-IsFirst (item null rest) o h = later null rest o refl (first_object-IsFirst rest o h)
first_object-IsFirst (item (boolean b) rest) o h =
    later (boolean b) rest o refl (first_object-IsFirst rest o h)
first_object-IsFirst (item (integer n) rest) o h =
    later (integer n) rest o refl (first_object-IsFirst rest o h)
first_object-IsFirst (item (negative n) rest) o h =
    later (negative n) rest o refl (first_object-IsFirst rest o h)
first_object-IsFirst (item (real c) rest) o h =
    later (real c) rest o refl (first_object-IsFirst rest o h)
first_object-IsFirst (item (text w) rest) o h =
    later (text w) rest o refl (first_object-IsFirst rest o h)
first_object-IsFirst (item (array items) rest) o h =
    later (array items) rest o refl (first_object-IsFirst rest o h)

verdict_object-IsVerdictObject :
    (j : Json) (o : Object) → verdict_object j ≡ answered o → IsVerdictObject j o
unfolding verdict_object
verdict_object-IsVerdictObject (array items) o h = elim (Option-cases (first_object items)) [
  | inl e ↦ ground arith
  | inr (p, e) ↦ listed items o (first_object-IsFirst items o (ground arith))
]
verdict_object-IsVerdictObject (object p) o h = subst (IsVerdictObject (object p)) (cc) (bare p)
verdict_object-IsVerdictObject null o h = cc
verdict_object-IsVerdictObject (boolean b) o h = cc
verdict_object-IsVerdictObject (integer n) o h = cc
verdict_object-IsVerdictObject (negative n) o h = cc
verdict_object-IsVerdictObject (real c) o h = cc
verdict_object-IsVerdictObject (text w) o h = cc

module _ (strip upper strip_fences : String → String) (loads : String → Option Json)
    (float : ℕ → Option Score) where
  -- The steps of a parse that ends.
  parse_g4_response-steps :
      (raw : String) (v : LlmVerdict)
      → parse_g4_response strip upper strip_fences loads float raw ≡ answered v
      → (j : Json) × (o : Object) × (loads (strip_fences raw) ≡ some j)
        × (verdict_object j ≡ answered o)
        × (read_row strip upper strip_fences loads float o ≡ answered v)
  unfolding parse_g4_response
  parse_g4_response-steps raw v h = ground arith

  read_row-steps :
      (o : Object) (v : LlmVerdict)
      → read_row strip upper strip_fences loads float o ≡ answered v
      → (c : Double) × (read_relation strip upper strip_fences loads float (value_of o "relation")
          ≡ answered v.relation)
        × (read_confidence strip upper strip_fences loads float (value_of o "confidence")
            ≡ answered c)
        × (v.confidence ≡ clamped_at one c)
  unfolding read_row clamped_at
  read_row-steps o v h = ground arith

  read_relation-steps :
      (value : Option Json) (r : Verdict)
      → read_relation strip upper strip_fences loads float value ≡ answered r
      → (w : String) × (value ≡ some (text w))
        × (by_value verdict_value verdicts (upper (strip w)) ≡ some r)
  unfolding read_relation
  read_relation-steps value r h = ground arith

  -- What the parser accepts is a verdict: the answer is an object, or an array with one, whose first
  -- object's relation, stripped and in capitals, is the name of the verdict; the confidence lies
  -- between 0.0 and 1.0, or is NaN.
  pub parse_g4_response_ok :
      (raw : String) (v : LlmVerdict)
      → parse_g4_response strip upper strip_fences loads float raw ≡ answered v
      → (j : Json) × (o : Object) × (w : String) × (loads (strip_fences raw) ≡ some j)
        × IsVerdictObject j o
        × (value_of o "relation" ≡ some (text w))
        × (verdict_value v.relation ≡ upper (strip w))
        × IsWithin one v.confidence
  parse_g4_response_ok raw v h =
      let (j, o, loaded, first, row) = parse_g4_response-steps raw v h in
      let (c, relation, confidence, clamped) = read_row-steps o v row in
      let (w, named, found) = read_relation-steps (value_of o "relation") v.relation relation in
      (
        j,
        o,
        w,
        loaded,
        verdict_object-IsVerdictObject j o first,
        named,
        by_value-eq-some verdict_value verdicts (upper (strip w)) found,
        subst (IsWithin one) (sym clamped) (clamped_at-IsWithin one c),
      )
