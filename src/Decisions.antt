-- ===== src/Decisions.antt =====
-- The decision rules of gatekeeper/gates/decisions.py, with the score records of
-- gatekeeper/scoring/encoder.py.
-- A score is a finite, non-negative double. Every such double is a whole multiple of 2 ^ -1074, so
-- it is modelled exactly by that multiple, a natural number, and the order of doubles is the order
-- of the naturals. The `notes` dictionary of a decision is for reports only and is left out.
pub mod G1
pub mod G2
pub mod G3
use lakshmana_core.Prelude.{
  ℕ, ◌*◌, ◌^◌, Bool, true, false, not, ◌&&◌, ◌||◌, Option, none, some, List, [], ◌∷◌, ◌++◌, ltb,
  leb, max, min, all, if◌then◌else◌, ◌-◌,
}
use lakshmana_core.Enums.{
  Verdict, neutral, repeats, corroborates, Method, gk_g1_nli, gk_g2_grounding, gk_g3_xcheck,
  EscalationReason, context_disagreement, contradiction_signal, stage_disagreement,
}

abbrev pub Score : Type 0
Score = ℕ

pub record NliScores : Type 0 where
  pub entailment : Score
  pub neutral_score : Score
  pub contradiction : Score
  pub was_truncated : Bool

pub record GroundingScore : Type 0 where
  pub support : Score
  pub was_truncated : Bool

pub data Disposition : Type 0 where
  decided forward escalate_g4 route_human : Disposition

pub data Direction : Type 0 where
  forward backward grounded : Direction

pub record Decision : Type 0 where
  pub disposition : Disposition
  pub verdict : Option Verdict
  pub method : Option Method
  pub escalation_reason : Option EscalationReason
  pub contradiction_flag : Bool
  pub direction : Option Direction
  pub confidence : Option Score
  pub was_truncated : Bool

-- The dataclass's defaults, around the one field that has none.
abbrev pub decision : Disposition → Decision
decision d = record {
  disposition = d;
  verdict = none;
  method = none;
  escalation_reason = none;
  contradiction_flag = false;
  direction = none;
  confidence = none;
  was_truncated = false;
}

pub record Thresholds : Type 0 where
  pub neutral_min : Score
  pub repeat_min : Score
  pub contra_escape : Score
  pub support_min : Score
  pub support_floor : Score
  pub contra_min : Score
  pub neutral_consensus : Score

-- A double below 1 with mantissa `m` and 53 + `k` binary places.
abbrev pub double : ℕ → ℕ → Score
double m k = m * 2 ^ (1021 - k)

-- The doubles nearest to 0.95, 0.90, 0.02, 0.90, 0.50, 0.85 and 0.10.
abbrev pub default_thresholds : Thresholds
default_thresholds = record {
  neutral_min = double 8556839292003942 0;
  repeat_min = double 8106479329266893 0;
  contra_escape = double 5764607523034235 5;
  support_min = double 8106479329266893 0;
  support_floor = double 4503599627370496 0;
  contra_min = double 7656119366529843 0;
  neutral_consensus = double 7205759403792794 3;
}

-- The slots `g1`, `g2` and `g3` of a `configSnapshot`, as far as the thresholds are read off it; a
-- key that is missing is `none`.
pub record ThresholdSlots : Type 0 where
  pub neutral_min : Option Score
  pub repeat_min : Option Score
  pub contra_escape : Option Score
  pub support_min : Option Score
  pub support_floor : Option Score
  pub contra_min : Option Score
  pub neutral_consensus : Option Score

-- `d.get(key, default)`
abbrev pub get_or {ℓ} : {A : Type ℓ} → Option A → A → A
get_or none d = d
get_or (some a) d = a

abbrev pub thresholds_from_snapshot : ThresholdSlots → Thresholds
thresholds_from_snapshot s =
    let d = default_thresholds in
    record {
      neutral_min = get_or s.neutral_min d.neutral_min;
      repeat_min = get_or s.repeat_min d.repeat_min;
      contra_escape = get_or s.contra_escape d.contra_escape;
      support_min = get_or s.support_min d.support_min;
      support_floor = get_or s.support_floor d.support_floor;
      contra_min = get_or s.contra_min d.contra_min;
      neutral_consensus = get_or s.neutral_consensus d.neutral_consensus;
    }

pub record G1Scores : Type 0 where
  pub forward : NliScores
  pub backward : NliScores
  pub context_forward : Option NliScores
  pub context_backward : Option NliScores

unfoldable pub g1_max_contradiction : G1Scores → Score
g1_max_contradiction s = max s.forward.contradiction s.backward.contradiction

unfoldable pub g1_truncated : G1Scores → Bool
g1_truncated s = s.forward.was_truncated || s.backward.was_truncated

unfoldable pub bare_outcome : NliScores → NliScores → Thresholds → Option Verdict
bare_outcome f b t =
    if leb t.neutral_min f.neutral_score && leb t.neutral_min b.neutral_score
    then some neutral
    else if leb t.repeat_min f.entailment && leb t.repeat_min b.entailment
    then some repeats
    else none

-- `a is b` on optional verdicts.
abbrev pub same_verdict : Option Verdict → Option Verdict → Bool
same_verdict none none = true
same_verdict (some neutral) (some neutral) = true
same_verdict (some repeats) (some repeats) = true
same_verdict (some corroborates) (some corroborates) = true
same_verdict (some Verdict.contradicts) (some Verdict.contradicts) = true
same_verdict _ _ = false

-- Whether the contexted variant was scored (`with_context`) and disagrees with the bare outcome.
unfoldable pub context_disagrees : G1Scores → Thresholds → Option Verdict → Bool
context_disagrees s t bare = elim s.context_forward [
  | none ↦ false
  | some cf ↦ elim s.context_backward [
    | none ↦ false
    | some cb ↦ not (same_verdict bare (bare_outcome cf cb t))
  ]
]

unfoldable pub decide_g1 : G1Scores → Thresholds → Decision
decide_g1 s t =
    let bare = bare_outcome s.forward s.backward t in
    if ltb t.contra_escape (g1_max_contradiction s)
    then record (decision Disposition.forward) {
      contradiction_flag = true;
      was_truncated = g1_truncated s;
    }
    else if context_disagrees s t bare
    then record (decision escalate_g4) {
      escalation_reason = some context_disagreement;
      was_truncated = g1_truncated s;
    }
    else elim bare [
      | some v ↦ record (decision decided) {
        verdict = some v;
        method = some gk_g1_nli;
        was_truncated = g1_truncated s;
      }
      | none ↦ record (decision Disposition.forward) { was_truncated = g1_truncated s }
    ]

pub record G2Scores : Type 0 where
  pub forward : GroundingScore
  pub backward : GroundingScore
  pub grounded : Option GroundingScore

unfoldable pub g2_truncated : G2Scores → Bool
g2_truncated s =
    s.forward.was_truncated
    || (s.backward.was_truncated || elim s.grounded [ none ↦ false | some g ↦ g.was_truncated ])

-- The order of the direction's spelling: BACKWARD, FORWARD, GROUNDED.
abbrev pub direction_rank : Direction → ℕ
direction_rank Direction.backward = 0
direction_rank Direction.forward = 1
direction_rank Direction.grounded = 2

-- `max` of a list of (score, direction) pairs: tuples compare by the score, then by the direction.
abbrev pub max_pair : Score × Direction → Score × Direction → Score × Direction
max_pair (a, d) (b, e) =
    if ltb a b
    then (b, e)
    else if ltb b a
    then (a, d)
    else if ltb (direction_rank d) (direction_rank e)
    then (b, e)
    else (a, d)

unfoldable pub best_support : G2Scores → Score × Direction
best_support s =
    let plain =
      max_pair (s.forward.support, Direction.forward) (s.backward.support, Direction.backward) in
    elim s.grounded [ none ↦ plain | some g ↦ max_pair plain (g.support, Direction.grounded) ]

unfoldable pub decide_g2 : G2Scores → Thresholds → Decision
decide_g2 s t =
    let (best, direction) = best_support s in
    if leb t.support_min best
    then record (decision decided) {
      verdict = some corroborates;
      method = some gk_g2_grounding;
      direction = some direction;
      confidence = some best;
      was_truncated = g2_truncated s;
    }
    else record (decision Disposition.forward) { was_truncated = g2_truncated s }

pub record G3Scores : Type 0 where
  pub family_b_forward : NliScores
  pub family_b_backward : NliScores

unfoldable pub g3_max_contradiction : G3Scores → Score
g3_max_contradiction s = max s.family_b_forward.contradiction s.family_b_backward.contradiction

unfoldable pub g3_truncated : G3Scores → Bool
g3_truncated s = s.family_b_forward.was_truncated || s.family_b_backward.was_truncated

unfoldable pub leans_neutral : NliScores → Bool
leans_neutral s = leb s.entailment s.neutral_score && leb s.contradiction s.neutral_score

unfoldable pub both_neutral_lean : G1Scores → G3Scores → Bool
both_neutral_lean g1 g3 =
    all leans_neutral (g1.forward ∷ g1.backward ∷ g3.family_b_forward ∷ g3.family_b_backward ∷ [])

unfoldable pub decide_g3 : G1Scores → G3Scores → Thresholds → Decision
decide_g3 g1 g3 t =
    let family_a = g1_max_contradiction g1 in
    let family_b = g3_max_contradiction g3 in
    let cut = g1_truncated g1 || g3_truncated g3 in
    if leb t.contra_min family_a && leb t.contra_min family_b
    then record (decision route_human) {
      method = some gk_g3_xcheck;
      escalation_reason = some contradiction_signal;
      contradiction_flag = true;
      confidence = some (min family_a family_b);
      was_truncated = cut;
    }
    else if ltb family_a t.neutral_consensus
        && (ltb family_b t.neutral_consensus && both_neutral_lean g1 g3)
    then record (decision decided) {
      verdict = some neutral;
      method = some gk_g3_xcheck;
      was_truncated = cut;
    }
    else record (decision escalate_g4) {
      escalation_reason = some stage_disagreement;
      was_truncated = cut;
    }
