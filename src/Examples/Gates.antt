-- ===== src/Examples/Gates.antt =====
-- The decision rules, the routings, the edge rows and the tail.
use lakshmana_core.Prelude.{
  ℕ, ◌+◌, ◌≤◌, ◌<◌, none, some, List, [], ◌∷◌, ◌≡◌, ◌≢◌, ◌↔◌, ◌⊎◌, refl, true, false, inl, map,
}
use lakshmana_core.Enums.{
  g1_neutral, g2_corroboration, g3_contradiction, neutral, repeats, corroborates, contradicts,
  human, shadow,
}
use lakshmana_core.Decisions.{
  Score, Thresholds, G1Scores, G2Scores, G3Scores, decided, decide_g1, decide_g2, decide_g3,
  g1_max_contradiction, g3_max_contradiction, both_neutral_lean, leans_neutral, context_disagrees,
  bare_outcome,
}
use lakshmana_core.Decisions.G1.{decide_g1-decided}
use lakshmana_core.Decisions.G3.{flagged_decided_neutral}
use lakshmana_core.Queue.{QueuedPair, Changes, routed_row}
use lakshmana_core.Routing.{edge_relation, g1_update, g2_update, g3_update}
use lakshmana_core.Routing.Placement.{IsPlaced, IsOnward, updates-IsPlaced, updates-verdict}
use lakshmana_core.Finalize.{tally, reconciles}
use lakshmana_core.Finalize.Tallies.{IsSettled, reconciles-IsSettled}
use lakshmana_core.Edges.{EdgeVerdict, is_shadow, to_firestore}
use lakshmana_core.Edges.Shadow.{Avoids, asserts, is_shadowed, to_firestore-Avoids}
use lakshmana_core.Prelude.{◌↔◌}
use lakshmana_core.Tail.{refused, Judging, TailCounters, tail_verdict, judge_batch}
use lakshmana_core.Tail.Cap.{AllSettled, judge_batch-accounts}
use lakshmana_core.Prelude.{All}
use lakshmana_core.Examples.{scores, row, pairs, opened_run}

-- Thresholds and scores in hundredths of the library's unit: the rules only compare them.
abbrev percent : Thresholds
percent = record {
  neutral_min = 95;
  repeat_min = 90;
  contra_escape = 2;
  support_min = 90;
  support_floor = 50;
  contra_min = 85;
  neutral_consensus = 10;
}

abbrev both : Score → Score → Score → G1Scores
both e n c = record {
  forward = scores e n c;
  backward = scores e n c;
  context_forward = none;
  context_backward = none;
}

abbrev family_b : Score → Score → Score → G3Scores
family_b e n c = record { family_b_forward = scores e n c; family_b_backward = scores e n c }

abbrev support : Score → G2Scores
support n = record {
  forward = record { support = n; was_truncated = false };
  backward = record { support = 0; was_truncated = false };
  grounded = none;
}

g1_decides : (decide_g1 (both 1 98 1) percent).disposition ≡ decided
unfolding decide_g1 g1_max_contradiction context_disagrees bare_outcome
g1_decides = refl

decide_g1-decided_example :
    let s = both 1 98 1 in
    (1 ≤ percent.contra_escape)
    × (1 ≤ percent.contra_escape)
    × ((decide_g1 s percent).contradiction_flag ≡ false)
    × (((decide_g1 s percent).verdict ≡ some neutral)
          × (percent.neutral_min ≤ 98)
          × (percent.neutral_min ≤ 98)
        ⊎ ((decide_g1 s percent).verdict ≡ some repeats)
          × (percent.repeat_min ≤ 1)
          × (percent.repeat_min ≤ 1))
decide_g1-decided_example = decide_g1-decided (both 1 98 1) percent g1_decides

abbrev uneven : G1Scores
uneven = record (both 1 98 1) { backward = scores 1 90 1 }

g3_decides : (decide_g3 (both 3 90 7) (family_b 3 90 7) percent).disposition ≡ decided
unfolding decide_g3 g1_max_contradiction g3_max_contradiction both_neutral_lean leans_neutral
g3_decides = refl

flagged_decided_neutral_example :
    let a = both 3 90 7 in
    let b = family_b 3 90 7 in
    (((decide_g1 a percent).contradiction_flag ≡ true)
      × ((decide_g3 a b percent).disposition ≡ decided)
      × ((decide_g3 a b percent).verdict ≡ some neutral))
    ↔ ((percent.contra_escape < g1_max_contradiction a)
        × (g1_max_contradiction a < percent.neutral_consensus)
        × (g3_max_contradiction b < percent.neutral_consensus)
        × (leans_neutral (scores 3 90 7) ≡ true)
        × (leans_neutral (scores 3 90 7) ≡ true)
        × (leans_neutral (scores 3 90 7) ≡ true)
        × (leans_neutral (scores 3 90 7) ≡ true)
        × ((g1_max_contradiction a < percent.contra_min)
            ⊎ (g3_max_contradiction b < percent.contra_min)))
flagged_decided_neutral_example = flagged_decided_neutral (both 3 90 7) (family_b 3 90 7) percent

updates-IsPlaced_example :
    let g1 = both 1 90 9 in
    let g3 = family_b 3 90 7 in
    let p = row "p1" in
    let u1 = (g1_update g1 percent "r1" p).1 in
    let u2 = (g2_update (λ q. support 93) percent "r1" p).1 in
    let u3 = (g3_update g1 g3 percent "r1" p).1 in
    (IsPlaced (routed_row p u1) × IsOnward g1_neutral u1.gate)
    × (IsPlaced (routed_row p u2) × IsOnward g2_corroboration u2.gate)
    × (IsPlaced (routed_row p u3) × IsOnward g3_contradiction u3.gate)
updates-IsPlaced_example =
    updates-IsPlaced (both 1 90 9) (λ q. support 93) (family_b 3 90 7) percent "r1" (row "p1")

updates-verdict_example :
    let g1 = both 1 9 90 in
    let g3 = family_b 3 9 88 in
    let p = row "p1" in
    let d1 = decide_g1 g1 percent in
    let d2 = decide_g2 (support 93) percent in
    let d3 = decide_g3 g1 g3 percent in
    let u3 = (g3_update g1 g3 percent "r1" p).1 in
    ((g1_update g1 percent "r1" p).1.decided_by ≢ none
      → (d1.verdict ≡ some neutral) ⊎ (d1.verdict ≡ some repeats))
    × ((g2_update (λ q. support 93) percent "r1" p).1.decided_by ≢ none
        → (d2.verdict ≡ some corroborates) × (p.contradiction_flag ≡ false))
    × (u3.decided_by ≢ none → edge_relation d3 ≡ some neutral)
    × ((edge_relation d3 ≡ some contradicts) ↔ (u3.tier ≡ human))
    × (u3.tier ≡ human → u3.decided_by ≡ none)
updates-verdict_example =
    updates-verdict (both 1 9 90) (λ q. support 93) (family_b 3 9 88) percent "r1" (row "p1")

abbrev two_rows : List QueuedPair
two_rows = row "p1" ∷ (record (row "p2") { gate = none; tier = human }) ∷ []

two_rows-IsPlaced : All IsPlaced two_rows
two_rows-IsPlaced = ((refl, refl), ((refl, inl refl), tt))

reconciles-IsSettled_example : (reconciles (tally two_rows) ≡ true) ↔ All IsSettled two_rows
reconciles-IsSettled_example = reconciles-IsSettled two_rows

abbrev verdict : EdgeVerdict
verdict = record (tail_verdict opened_run "subject" "model" (row "p1")) {
  verdict = some corroborates;
  stage_scores = ("supportFwd", 93) ∷ [];
  slot = "g2";
}

to_firestore-Avoids_example :
    (shadow ≡ shadow → Avoids asserts (to_firestore verdict shadow))
    × (is_shadow shadow ≡ false → Avoids is_shadowed (to_firestore verdict shadow))
to_firestore-Avoids_example = to_firestore-Avoids verdict shadow

abbrev zeros : TailCounters
zeros = record {
  seen = 0;
  decided = 0;
  llm_calls = 0;
  llm_errors = 0;
  capped = 0;
  shadow_suppressed = 0;
  prompt_tokens = 0;
  output_tokens = 0;
}

judge_batch-accounts_example :
    (done : Judging) × ((judge_batch opened_run "subject" "model"
        (λ p. refused)
        1
        pairs
        (row "p1" ∷ row "p2" ∷ [])
        zeros
        0
        []).1
      ≡ some done)
    × (map (λ (u : QueuedPair × Changes). u.0) done.routes ≡ row "p1" ∷ row "p2" ∷ [])
    × AllSettled done.routes
    × (done.counters.decided + done.counters.llm_errors + done.counters.capped ≡ 0 + 0 + 0 + 2)
    × (done.spent + 0 ≡ 0 + done.counters.llm_calls)
    × (◌≢◌ {A = ℕ} 1 0 → 0 ≤ 1 → done.spent ≤ 1)
judge_batch-accounts_example =
    judge_batch-accounts opened_run "subject" "model" (λ p. refused) 1 pairs
      (row "p1" ∷ row "p2" ∷ []) zeros 0 [] (λ e. cc e, (λ e. cc e, tt))
