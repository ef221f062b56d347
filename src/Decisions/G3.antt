-- ===== src/Decisions/G3.antt =====
-- What `decide_g3` of gatekeeper/gates/decisions.py guarantees.
use lakshmana_core.Prelude.{◌⊎◌, ◌≤◌, ◌<◌, true, none, some, ◌≡◌, ◌↔◌, min, arith}
use lakshmana_core.Enums.{neutral}
use lakshmana_core.Decisions.{
  G1Scores, G3Scores, Thresholds, decided, route_human, g1_max_contradiction, g3_max_contradiction,
  leans_neutral, both_neutral_lean, decide_g1, decide_g3,
}

-- G3 routes a pair to a human exactly when both families score a contradiction of `contra_min`; the
-- confidence is then the weaker family's score, and no verdict is claimed.
pub decide_g3-human :
    (a : G1Scores) (b : G3Scores) (t : Thresholds)
    → (((decide_g3 a b t).disposition ≡ route_human)
        ↔ ((t.contra_min ≤ g1_max_contradiction a) × (t.contra_min ≤ g3_max_contradiction b)))
      × ((decide_g3 a b t).disposition ≡ route_human
          → ((decide_g3 a b t).verdict ≡ none)
            × ((decide_g3 a b t).confidence
                ≡ some (min (g1_max_contradiction a) (g3_max_contradiction b))))
unfolding decide_g3
decide_g3-human a b t = ground arith

-- A pair that G3 decides is NEUTRAL; every contradiction score of the two families is then below the
-- consensus threshold, and neutral is a highest class of all four score triples.
pub decide_g3-decided :
    (a : G1Scores) (b : G3Scores) (t : Thresholds)
    → (decide_g3 a b t).disposition ≡ decided
    → ((decide_g3 a b t).verdict ≡ some neutral)
      × (a.forward.contradiction < t.neutral_consensus)
      × (a.backward.contradiction < t.neutral_consensus)
      × (b.family_b_forward.contradiction < t.neutral_consensus)
      × (b.family_b_backward.contradiction < t.neutral_consensus)
      × (leans_neutral a.forward ≡ true)
      × (leans_neutral a.backward ≡ true)
      × (leans_neutral b.family_b_forward ≡ true)
      × (leans_neutral b.family_b_backward ≡ true)
unfolding decide_g3 g1_max_contradiction g3_max_contradiction both_neutral_lean
decide_g3-decided a b t h = ground arith

-- The contradiction flag does not keep a pair from a NEUTRAL verdict. Exactly these pairs are flagged by
-- G1 and decided NEUTRAL by G3: G1's highest contradiction score lies above the escape threshold and
-- below the consensus threshold, the second family's lies below the consensus threshold too, one of the
-- two lies below `contra_min`, and all four score triples lean neutral.
pub flagged_decided_neutral :
    (a : G1Scores) (b : G3Scores) (t : Thresholds)
    → (((decide_g1 a t).contradiction_flag ≡ true)
        × ((decide_g3 a b t).disposition ≡ decided)
        × ((decide_g3 a b t).verdict ≡ some neutral))
      ↔ ((t.contra_escape < g1_max_contradiction a)
          × (g1_max_contradiction a < t.neutral_consensus)
          × (g3_max_contradiction b < t.neutral_consensus)
          × (leans_neutral a.forward ≡ true)
          × (leans_neutral a.backward ≡ true)
          × (leans_neutral b.family_b_forward ≡ true)
          × (leans_neutral b.family_b_backward ≡ true)
          × ((g1_max_contradiction a < t.contra_min) ⊎ (g3_max_contradiction b < t.contra_min)))
unfolding decide_g1 decide_g3 both_neutral_lean
flagged_decided_neutral a b t = ground arith
