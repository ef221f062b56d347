-- ===== src/Prompts.antt =====
-- The reading of the model's answer: `parse_g4_response` of gatekeeper/gates/prompts.py.
-- `str.strip`, `str.upper`, the regular expression of `_strip_fences` with the strips around it,
-- `json.loads` and the rounding of an `int` by `float` are parameters. The prompt's text is not modelled.
pub mod Answers
pub mod Refusals
use lakshmana_core.Prelude.{
  ℕ, zero, suc, ◌+◌, Bool, true, false, String, str_eq, Option, none, some, List, [], ◌∷◌,
  if◌then◌else◌, ltb, ◌^◌,
}
use lakshmana_core.Enums.{Verdict, neutral, repeats, corroborates, contradicts}
use lakshmana_core.Decisions.{Score}
use lakshmana_core.Wire.{by_value}
pub use lakshmana_core.Values.{Double, finite, below, infinity, minus_infinity, not_a_number}

-- `<` on doubles, which no NaN stands in.
abbrev pub double_lt : Double → Double → Bool
double_lt not_a_number _ = false
double_lt _ not_a_number = false
double_lt (finite a) (finite b) = ltb a b
double_lt (finite a) (below n) = false
double_lt (finite a) infinity = true
double_lt (finite a) minus_infinity = false
double_lt (below m) (finite b) = true
double_lt (below m) (below n) = ltb n m
double_lt (below m) infinity = true
double_lt (below m) minus_infinity = false
double_lt infinity _ = false
double_lt minus_infinity (finite b) = true
double_lt minus_infinity (below n) = true
double_lt minus_infinity infinity = true
double_lt minus_infinity minus_infinity = false

-- Python's `max(a, b)` and `min(a, b)`: the first, unless the second is better.
abbrev pub double_max : Double → Double → Double
double_max a b = if double_lt a b then b else a

abbrev pub double_min : Double → Double → Double
double_min a b = if double_lt b a then b else a

-- The negative of a double that is finite and not negative.
abbrev pub minus : Score → Double
minus zero = finite zero
minus (suc n) = below n

-- 1.0
abbrev pub one : Score
one = 2 ^ 1074

-- What `json.loads` makes: a `dict` is the list of its pairs.
mutual
  pub data Json : Type 0 where
    null : Json
    boolean : Bool → Json
    integer : ℕ → Json
    -- −(n + 1)
    negative : ℕ → Json
    real : Double → Json
    text : String → Json
    array : Items → Json
    object : Object → Json

  pub data Items : Type 0 where
    no_items : Items
    item : Json → Items → Items

  pub data Object : Type 0 where
    no_pairs : Object
    pair : String → Json → Object → Object

abbrev pub value_of : Object → String → Option Json
value_of no_pairs key = none
value_of (pair k v rest) key =
    let found = value_of rest key in if str_eq k key then some v else found

pub record LlmVerdict : Type 0 where
  pub relation : Verdict
  pub confidence : Double
  pub rationale : Option String
  pub temporal_note : Option String
  pub explanation_relevant : Option Bool

-- The exceptions that the parser may raise: the ValueErrors that it names, and the OverflowError of
-- `float` on an `int` that no double is near.
pub data Raised : Type 0 where
  empty_response not_json no_objects not_a_verdict no_relation unknown_relation overflow : Raised

pub data Reading (A : Type 0) : Type 0 where
  answered : A → Reading A
  raised : Raised → Reading A

abbrev pub verdict_value : Verdict → String
verdict_value neutral = "NEUTRAL"
verdict_value repeats = "REPEATS"
verdict_value corroborates = "CORROBORATES"
verdict_value contradicts = "CONTRADICTS"

abbrev pub verdicts : List Verdict
verdicts = neutral ∷ repeats ∷ corroborates ∷ contradicts ∷ []

-- `isinstance(row, dict)`
abbrev pub is_object : Json → Bool
is_object (object o) = true
is_object _ = false

-- `[row for row in parsed if isinstance(row, dict)]`, as far as its first element.
unfoldable pub first_object : Items → Option Object
first_object no_items = none
first_object (item (object o) rest) = some o
first_object (item _ rest) = first_object rest

unfoldable pub verdict_object : Json → Reading Object
verdict_object (array items) = elim (first_object items) [
  | none ↦ raised no_objects
  | some o ↦ answered o
]
verdict_object (object o) = answered o
verdict_object _ = raised not_a_verdict

module _ (strip upper strip_fences : String → String) (loads : String → Option Json)
    (float : ℕ → Option Score) where
  -- `Verdict(relation_raw.strip().upper())`
  unfoldable pub read_relation : Option Json → Reading Verdict
  read_relation (some (text w)) = elim (by_value verdict_value verdicts (upper (strip w))) [
    | none ↦ raised unknown_relation
    | some v ↦ answered v
  ]
  read_relation _ = raised no_relation

  -- `float(raw_confidence)`; a `bool` is an `int`.
  unfoldable pub read_confidence : Option Json → Reading Double
  read_confidence (some (boolean true)) = answered (finite one)
  read_confidence (some (integer n)) = elim (float n) [
    | none ↦ raised overflow
    | some c ↦ answered (finite c)
  ]
  read_confidence (some (negative n)) = elim (float (n + 1)) [
    | none ↦ raised overflow
    | some c ↦ answered (minus c)
  ]
  read_confidence (some (real c)) = answered c
  read_confidence _ = answered (finite 0)

  -- `_text_or_none`
  unfoldable pub text_or_none : Option Json → Option String
  text_or_none (some (text w)) = if str_eq (strip w) "" then none else some (strip w)
  text_or_none _ = none

  unfoldable pub bool_or_none : Option Json → Option Bool
  bool_or_none (some (boolean b)) = some b
  bool_or_none _ = none

  -- `LlmVerdict(…)`
  abbrev pub verdict_from : Object → Verdict → Double → LlmVerdict
  verdict_from o relation confidence = record {
    relation = relation;
    confidence = double_min (double_max confidence (finite 0)) (finite one);
    rationale = text_or_none (value_of o "rationale");
    temporal_note = text_or_none (value_of o "temporalNote");
    explanation_relevant = bool_or_none (value_of o "explanationRelevant");
  }

  -- From the row on.
  unfoldable pub read_row : Object → Reading LlmVerdict
  read_row o = elim (read_relation (value_of o "relation")) [
    | raised e ↦ raised e
    | answered relation ↦ elim (read_confidence (value_of o "confidence")) [
      | raised e ↦ raised e
      | answered confidence ↦ answered (verdict_from o relation confidence)
    ]
  ]

  unfoldable pub parse_g4_response : String → Reading LlmVerdict
  parse_g4_response raw =
      let body = strip_fences raw in
      if str_eq body "" then raised empty_response else elim (loads body) [
        | none ↦ raised not_json
        | some parsed ↦ elim (verdict_object parsed) [
          | raised e ↦ raised e
          | answered row ↦ read_row row
        ]
      ]
