-- ===== src/Decisions/G1.antt =====
-- What `decide_g1` of gatekeeper/gates/decisions.py guarantees.
use lakshmana_core.Prelude.{
  ◌≤◌, ◌<◌, true, false, Option, none, some, ◌≡◌, ◌↔◌, ◌⊎◌, arith, inl, inr, Option-cases,
}
use lakshmana_core.Enums.{Verdict, neutral, repeats}
use lakshmana_core.Decisions.{
  NliScores, G1Scores, Thresholds, decided, Disposition, g1_max_contradiction, g1_truncated,
  bare_outcome, context_disagrees, decide_g1,
}

-- G1 raises the contradiction flag exactly when one direction's contradiction score passes the
-- escape threshold, and a flagged pair is forwarded with no verdict.
pub decide_g1-flag :
    (s : G1Scores) (t : Thresholds)
    → (((decide_g1 s t).contradiction_flag ≡ true) ↔ (t.contra_escape < g1_max_contradiction s))
      × ((decide_g1 s t).contradiction_flag ≡ true
          → ((decide_g1 s t).disposition ≡ Disposition.forward) × ((decide_g1 s t).verdict ≡ none))
unfolding decide_g1
decide_g1-flag s t = ground arith

-- A pair that G1 decides passes the escape threshold in neither direction, carries no flag, and is
-- NEUTRAL with both neutral scores at `neutral_min`, or REPEATS with both entailments at
-- `repeat_min`.
pub decide_g1-decided :
    (s : G1Scores) (t : Thresholds)
    → (decide_g1 s t).disposition ≡ decided
    → (s.forward.contradiction ≤ t.contra_escape)
      × (s.backward.contradiction ≤ t.contra_escape)
      × ((decide_g1 s t).contradiction_flag ≡ false)
      × (((decide_g1 s t).verdict ≡ some neutral)
            × (t.neutral_min ≤ s.forward.neutral_score)
            × (t.neutral_min ≤ s.backward.neutral_score)
          ⊎ ((decide_g1 s t).verdict ≡ some repeats)
            × (t.repeat_min ≤ s.forward.entailment)
            × (t.repeat_min ≤ s.backward.entailment))
unfolding decide_g1 g1_max_contradiction bare_outcome
decide_g1-decided s t h = ground arith

-- `t` is at most as strict as `u`: it has no higher bar for a verdict and no lower escape threshold.
pub record IsLooser (t u : Thresholds) : Type 0 where
  pub neutral_le : t.neutral_min ≤ u.neutral_min
  pub repeat_le : t.repeat_min ≤ u.repeat_min
  pub escape_ge : u.contra_escape ≤ t.contra_escape

abbrev pub without_context : G1Scores → G1Scores
without_context s = record s { context_forward = none; context_backward = none }

-- Without a contexted variant, a pair that G1 decides under some thresholds is decided under all
-- looser ones too.
pub decide_g1-looser :
    (s : G1Scores) (t u : Thresholds)
    → IsLooser t u
    → (decide_g1 (without_context s) u).disposition ≡ decided
    → (decide_g1 (without_context s) t).disposition ≡ decided
unfolding decide_g1 g1_max_contradiction bare_outcome context_disagrees
decide_g1-looser s t u l h = ground arith

abbrev pub swap_directions : G1Scores → G1Scores
swap_directions s = record {
  forward = s.backward;
  backward = s.forward;
  context_forward = s.context_backward;
  context_backward = s.context_forward;
}

g1_max_contradiction-swap :
    (s : G1Scores) → g1_max_contradiction (swap_directions s) ≡ g1_max_contradiction s
unfolding g1_max_contradiction
g1_max_contradiction-swap s = omega arith

bare_outcome-swap : (f b : NliScores) (t : Thresholds) → bare_outcome f b t ≡ bare_outcome b f t
unfolding bare_outcome
bare_outcome-swap f b t = ground arith

g1_truncated-swap : (s : G1Scores) → g1_truncated (swap_directions s) ≡ g1_truncated s
unfolding g1_truncated
g1_truncated-swap s = ground arith

context_disagrees-swap :
    (s : G1Scores) (t : Thresholds) (bare : Option Verdict)
    → context_disagrees (swap_directions s) t bare ≡ context_disagrees s t bare
unfolding context_disagrees
context_disagrees-swap s t bare = elim (Option-cases s.context_forward) [
  | inl e ↦ elim (Option-cases s.context_backward) [
    | inl d ↦ ground arith
    | inr (b, d) ↦ ground arith
  ]
  | inr (f, e) ↦ elim (Option-cases s.context_backward) [
    | inl d ↦ ground arith
    | inr (b, d) ↦ ground (arith, bare_outcome-swap f b t)
  ]
]

-- G1's decision does not depend on which claim of the pair is called the first.
pub decide_g1-swap :
    (s : G1Scores) (t : Thresholds) → decide_g1 (swap_directions s) t ≡ decide_g1 s t
unfolding decide_g1
decide_g1-swap s t = ground (
  arith,
  g1_max_contradiction-swap s,
  bare_outcome-swap s.backward s.forward t,
  context_disagrees-swap s t (bare_outcome s.forward s.backward t),
  g1_truncated-swap s,
)
