-- ===== src/Examples/Answers.antt =====
-- Answers of the model at concrete inputs, and the theorems about them.
use lakshmana_core.Prelude.{
  ℕ, String, str_eq, Option, none, some, ◌≡◌, refl, ◌⊎◌, if◌then◌else◌, leb,
}
use lakshmana_core.Enums.{repeats}
use lakshmana_core.Decisions.{Score}
use lakshmana_core.Prompts.{
  finite, one, infinity, Json, null, integer, real, text, array, object, no_items, item, Object,
  no_pairs, pair, value_of, LlmVerdict, answered, raised, overflow, verdict_value, first_object,
  verdict_object, read_relation, read_confidence, read_row, text_or_none, bool_or_none,
  parse_g4_response,
}
use lakshmana_core.Prompts.Answers.{
  IsVerdictObject, listed, here, later, IsWithin, parse_g4_response_ok,
}
use lakshmana_core.Prompts.Refusals.{IsTooLarge, parse_g4_response-ends}

abbrev strip : String → String
strip s = if str_eq s " repeats " then "repeats" else s

abbrev upper : String → String
upper s = if str_eq s "repeats" then "REPEATS" else s

-- A row with a confidence, behind an element that is no object.
abbrev answer_row : Json → Object
answer_row confidence =
    pair "relation" (text " repeats ")
      (pair "confidence" confidence (pair "rationale" (text "the same event") no_pairs))

abbrev answer : Json → Json
answer confidence = array (item null (item (object (answer_row confidence)) no_items))

abbrev loads : String → Option Json
loads s = if str_eq s "large" then some (answer (integer 10)) else some (answer (real infinity))

-- `float` of a number that is small enough for this example.
abbrev float : ℕ → Option Score
float n = if leb n 9 then some 0 else none

abbrev fences : String → String
fences s = s

abbrev read_verdict : LlmVerdict
read_verdict = record {
  relation = repeats;
  confidence = finite one;
  rationale = some "the same event";
  temporal_note = none;
  explanation_relevant = none;
}

answer_read : parse_g4_response strip upper fences loads float "body" ≡ answered read_verdict
unfolding parse_g4_response verdict_object first_object read_row read_relation read_confidence
    text_or_none bool_or_none
answer_read = refl

-- An `int` that no double is near raises what `_judge_batch` does not catch.
answer_overflow : parse_g4_response strip upper fences loads float "large" ≡ raised overflow
unfolding parse_g4_response verdict_object first_object read_row read_relation read_confidence
answer_overflow = refl

parse_g4_response_ok_example :
    (j : Json) × (o : Object) × (w : String) × (loads "body" ≡ some j)
    × IsVerdictObject j o
    × (value_of o "relation" ≡ some (text w))
    × (verdict_value repeats ≡ upper (strip w))
    × IsWithin one (finite one)
parse_g4_response_ok_example =
    parse_g4_response_ok strip upper fences loads float "body" read_verdict answer_read

parse_g4_response-ends_example :
    ((v : LlmVerdict) × (parse_g4_response strip upper fences loads float "large" ≡ answered v)
      × (v.relation ≡ repeats)
      × (¬ IsTooLarge float (some (integer 10))))
    ⊎ (IsTooLarge float (some (integer 10))
        × (parse_g4_response strip upper fences loads float "large" ≡ raised overflow))
parse_g4_response-ends_example =
    parse_g4_response-ends strip upper fences loads float "large" (answer (integer 10))
      (answer_row (integer 10)) " repeats " repeats refl refl
      (listed _ _ (later null _ _ refl (here (answer_row (integer 10)) no_items))) refl refl
