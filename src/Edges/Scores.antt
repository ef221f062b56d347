-- ===== src/Edges/Scores.antt =====
-- The stage scores that a gate stores on an edge row, and G1's scores as G3 reads them back.
use lakshmana_core.Prelude.{
  ◌+◌, ◌-◌, false, String, str_eq, Option, none, some, List, [], ◌∷◌, ◌++◌, ◌≡◌, refl, max, arith,
  if◌then◌else◌,
}
use lakshmana_core.Decisions.{
  Score, NliScores, GroundingScore, Decision, Thresholds, G1Scores, G3Scores, decide_g3,
  g1_max_contradiction, g1_truncated, g3_truncated, both_neutral_lean, leans_neutral,
}

-- `abs(a - b)`
abbrev pub distance : Score → Score → Score
distance a b = (a - b) + (b - a)

abbrev pub StageScores : Type 0
StageScores = List (String × Score)

unfoldable pub g1_stage_scores :
    NliScores → NliScores → Option NliScores → Option NliScores → StageScores
g1_stage_scores forward backward context_forward context_backward =
    ("entFwd", forward.entailment)
    ∷ ("entBwd", backward.entailment)
    ∷ ("neuFwd", forward.neutral_score)
    ∷ ("neuBwd", backward.neutral_score)
    ∷ ("conFwd", forward.contradiction)
    ∷ ("conBwd", backward.contradiction)
    ∷ elim context_forward [
      | none ↦ []
      | some f ↦ elim context_backward [
        | none ↦ []
        | some b ↦
            (
              "ctxDelta",
              max (distance f.neutral_score forward.neutral_score)
                  (distance b.neutral_score backward.neutral_score),
            )
            ∷ []
      ]
    ]

-- `if score is not None: scores[name] = score.support`
abbrev pub when_scored : String → Option GroundingScore → StageScores
when_scored name none = []
when_scored name (some s) = (name, s.support) ∷ []

-- The larger support of the orientations that there are.
abbrev pub available : Option GroundingScore → Option GroundingScore → StageScores
available none none = []
available (some f) none = ("supportGrounded", f.support) ∷ []
available none (some b) = ("supportGrounded", b.support) ∷ []
available (some f) (some b) = ("supportGrounded", max f.support b.support) ∷ []

unfoldable pub g2_stage_scores :
    GroundingScore → GroundingScore → Option GroundingScore → Option GroundingScore → StageScores
g2_stage_scores forward backward grounded_forward grounded_backward =
    ("supportFwd", forward.support)
    ∷ ("supportBwd", backward.support)
    ∷ (when_scored "supportGroundedFwd" grounded_forward
        ++ (when_scored "supportGroundedBwd" grounded_backward
            ++ available grounded_forward grounded_backward))

unfoldable pub g3_stage_scores : NliScores → NliScores → StageScores
g3_stage_scores forward backward =
    ("entFwdB", forward.entailment)
    ∷ ("entBwdB", backward.entailment)
    ∷ ("neuFwdB", forward.neutral_score)
    ∷ ("neuBwdB", backward.neutral_score)
    ∷ ("conFwdB", forward.contradiction)
    ∷ ("conBwdB", backward.contradiction)
    ∷ []

abbrev pub score_at : StageScores → String → Option Score
score_at [] key = none
score_at ((k, x) ∷ rest) key =
    let found = score_at rest key in if str_eq k key then some x else found

-- `NliScores(entailment=…, neutral=…, contradiction=…)`, with `none` where a key is missing.
abbrev pub nli_at : StageScores → String → String → String → Option NliScores
nli_at m ent neu con = elim (score_at m ent) [
  | none ↦ none
  | some e ↦ elim (score_at m neu) [
    | none ↦ none
    | some n ↦ elim (score_at m con) [
      | none ↦ none
      | some c ↦
          some
            (record { entailment = e; neutral_score = n; contradiction = c; was_truncated = false })
    ]
  ]
]

-- `none` where the map is absent, empty or lacks one of the six keys.
unfoldable pub g1_scores_from_stage_scores : StageScores → Option G1Scores
g1_scores_from_stage_scores m = elim (nli_at m "entFwd" "neuFwd" "conFwd") [
  | none ↦ none
  | some f ↦ elim (nli_at m "entBwd" "neuBwd" "conBwd") [
    | none ↦ none
    | some b ↦
        some (record { forward = f; backward = b; context_forward = none; context_backward = none })
  ]
]

-- A decision, but for the mark that a text was truncated.
abbrev pub SameDecision : Decision → Decision → Type 0
SameDecision d e =
    (d.disposition ≡ e.disposition)
    × (d.verdict ≡ e.verdict)
    × (d.method ≡ e.method)
    × (d.escalation_reason ≡ e.escalation_reason)
    × (d.contradiction_flag ≡ e.contradiction_flag)
    × (d.confidence ≡ e.confidence)

-- G1's scores without what the row does not keep.
abbrev stripped : G1Scores → G1Scores
stripped s = record {
  forward = record s.forward { was_truncated = false };
  backward = record s.backward { was_truncated = false };
  context_forward = none;
  context_backward = none;
}

stripped-decide_g3 :
    (s : G1Scores) (u : G3Scores) (t : Thresholds)
    → SameDecision (decide_g3 (stripped s) u t) (decide_g3 s u t)
      × ((decide_g3 (stripped s) u t).was_truncated ≡ g3_truncated u)
unfolding decide_g3 g1_max_contradiction g1_truncated both_neutral_lean leans_neutral
stripped-decide_g3 s u t = ground arith

-- G3 cross-checks against what G1 saw: the map that G1 stores for a pair, with a contexted variant or
-- without one, is read back, and G3 decides with the scores read back as with G1's own, for any second
-- family and thresholds. Only the truncation mark is not G1's: it is read back as unset.
pub g1_scores_lem :
    (s : G1Scores) (u : G3Scores) (t : Thresholds)
    → let stored = g1_stage_scores s.forward s.backward s.context_forward s.context_backward in
      (back : G1Scores) × (g1_scores_from_stage_scores stored ≡ some back)
      × SameDecision (decide_g3 back u t) (decide_g3 s u t)
      × ((decide_g3 back u t).was_truncated ≡ g3_truncated u)
unfolding g1_stage_scores g1_scores_from_stage_scores
g1_scores_lem s u t = let h = stripped-decide_g3 s u t in (stripped s, refl, h.0, h.1)
