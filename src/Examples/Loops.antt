-- ===== src/Examples/Loops.antt =====
-- The batch loops.
use lakshmana_core.Prelude.{◌≢◌, arith, true, none, some, List, [], ◌∷◌, ◌≡◌, ◌≢◌, refl, arith, All}
use lakshmana_core.Enums.{g1_neutral, neutral}
use lakshmana_core.Decisions.{G1Scores, G2Scores, G3Scores, GroundingScore, default_thresholds}
use lakshmana_core.Finalize.{tally, reconciles}
use lakshmana_core.Queue.{QueuedPair, GraphPair, all_pairs}
use lakshmana_core.Tail.{Response, given, refused, uncaught}
use lakshmana_core.Loop.{drained, out_of_fuel, Step, g1_step, gate_loop}
use lakshmana_core.Loop.Drain.{gate_loop-terminates}
use lakshmana_core.Loop.Steps.{IsPast, IsPast-leaves, g1_step-IsJudge}
use lakshmana_core.Cascade.{Execution, run_g1, run_g2, run_g3, run_g4}
use lakshmana_core.Cascade.Ready.{IsSteady}
use lakshmana_core.Cascade.Whole.{IsJudged, cascade-settles}
use lakshmana_core.Examples.{pairs, edge, scores, opened_run}
use lakshmana_core.Examples.Pairs.{two_rows, two_rows-IsKeyed}

-- Scores that no gate decides on: every pair goes to the tail.
abbrev g1_scores : G1Scores
g1_scores = record {
  forward = scores 5 3 2;
  backward = scores 5 3 2;
  context_forward = none;
  context_backward = none;
}

abbrev support : GroundingScore
support = record { support = 7; was_truncated = true }

abbrev g2_scores : G2Scores
g2_scores = record { forward = support; backward = support; grounded = none }

abbrev g3_scores : G3Scores
g3_scores = record { family_b_forward = scores 5 3 2; family_b_backward = scores 5 3 2 }

-- The model answers for one of the pairs, and fails for the others.
abbrev answer : QueuedPair → Response
answer p = elim p.with_context [
  | true ↦ refused
  | _ ↦ given (record {
    relation = neutral;
    confidence = none;
    rationale = none;
    temporal_note = none;
    prompt_tokens = 10;
    output_tokens = 2;
  })
]

answer-caught : (p : QueuedPair) → answer p ≢ uncaught
answer-caught p = ground arith

abbrev step : Step Unit
step = g1_step (λ ps. some (λ p. g1_scores)) default_thresholds "r1"

gate_loop-terminates_example :
    (gate_loop pairs step (λ i. true) (λ i. 100) "stage3" g1_neutral "w1" 1 50 3 0 tt two_rows).2
    ≢ out_of_fuel
gate_loop-terminates_example =
    gate_loop-terminates pairs step (λ i. true) (λ i. 100) "stage3" g1_neutral "w1" 1 50
      (IsPast g1_neutral) (g1_step-IsJudge (λ ps. some (λ p. g1_scores)) default_thresholds "r1")
      (IsPast-leaves g1_neutral) tt two_rows 3 two_rows-IsKeyed (omega arith)

abbrev execution : Execution
execution = record {
  owner = "w1";
  batch_size = 2;
  lease = 50;
  renewed = λ i. true;
  clock = λ i. 100;
}

execution-IsSteady : IsSteady execution
execution-IsSteady = (omega arith, λ i. refl)

abbrev graph : List GraphPair
graph = edge "a" "b" ∷ record (edge "b" "c") { with_context = true } ∷ edge "a" "c" ∷ []

cascade-settles_example :
    let (s1, j1, e1) =
      run_g1 pairs execution opened_run
        (some "s")
        default_thresholds
        graph
        (λ ps. some (λ p. g1_scores))
        two_rows in
    let (s2, j2, e2) =
      run_g2 pairs execution opened_run
        (some "s")
        default_thresholds
        (λ ps. some (λ p. g2_scores))
        s1 in
    let (s3, j3, e3) =
      run_g3 pairs execution opened_run
        (some "s")
        default_thresholds
        (λ ps. some (λ p. g1_scores))
        (λ ps. some (λ p. g3_scores))
        s2 in
    let (s4, j4, e4) =
      run_g4 pairs execution opened_run (some "s") "model" 1 answer true (λ ps. true) s3 in
    (e1 ≡ drained)
    × (e2 ≡ drained)
    × (e3 ≡ drained)
    × (e4 ≡ drained)
    × All (IsJudged pairs "stage3" s4) graph
    × (reconciles (tally (all_pairs pairs "stage3" s4)) ≡ true)
cascade-settles_example =
    cascade-settles pairs execution execution execution execution opened_run "s" "model"
      default_thresholds graph (λ ps p. g1_scores) (λ ps p. g2_scores) (λ ps p. g1_scores)
      (λ ps p. g3_scores) 1 answer two_rows answer-caught execution-IsSteady execution-IsSteady
      execution-IsSteady execution-IsSteady two_rows-IsKeyed (λ h. absurd (omega (arith, h)))
