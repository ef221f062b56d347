-- ===== src/Routing/Placement.antt =====
-- Where a row can stand: the invariant that the gates' routings keep.
use lakshmana_core.Prelude.{
  Bool, true, false, String, Option, none, some, List, ◌≡◌, ◌≢◌, ◌⊎◌, ◌↔◌, refl, arith, All, ◌<◌,
  All-map, All-zip, if◌then◌else◌,
}
use lakshmana_core.Enums.{
  Gate, g1_neutral, g2_corroboration, g3_contradiction, g4_escalation, gate_order, cascade,
  llm_tail, human, neutral, repeats, corroborates, contradicts,
}
use lakshmana_core.Enums.Order.{index}
use lakshmana_core.Decisions.{
  Decision, Thresholds, G1Scores, decide_g1, bare_outcome, G2Scores, decide_g2, G3Scores, decide_g3,
}
use lakshmana_core.Runs.{Time}
use lakshmana_core.Queue.{
  QueuedPair, Changes, GraphPair, new_row, reset_row, routed_row, leased_row,
}
use lakshmana_core.Routing.{
  g1_routing, g2_routing, g3_routing, pass_through, edge_relation, g1_update, g2_update, g3_update,
}
use lakshmana_core.Finalize.{tally, reconciles}
use lakshmana_core.Finalize.Tallies.{IsSettled, reconciles-IsSettled}

-- A row stands at an encoder gate on the cascade tier, at G4 on the tail's tier, both undecided, or it
-- has left the cascade in a way that FINALIZE knows.
abbrev pub IsPlaced : QueuedPair → Type 0
IsPlaced p = elim p.gate [
  | none ↦ IsSettled p
  | some g4_escalation ↦ (p.tier ≡ llm_tail) × (p.decided_by ≡ none)
  | some _ ↦ (p.tier ≡ cascade) × (p.decided_by ≡ none)
]

-- The new gate of a pair: none, or a later one than `g`.
abbrev pub IsOnward : Gate → Option Gate → Type 0
IsOnward g none = Unit
IsOnward g (some h) = index gate_order g < index gate_order h

pub g1_routing-IsPlaced :
    (d : Decision) (id : String) (p : QueuedPair)
    → IsPlaced (routed_row p (g1_routing d id).0) × IsOnward g1_neutral (g1_routing d id).0.gate
unfolding g1_routing
g1_routing-IsPlaced d id p = ground arith

pub g2_routing-IsPlaced :
    (d : Decision) (id : String) (p : QueuedPair)
    → IsPlaced (routed_row p (g2_routing d id).0)
      × IsOnward g2_corroboration (g2_routing d id).0.gate
unfolding g2_routing
g2_routing-IsPlaced d id p = ground arith

pub g3_routing-IsPlaced :
    (d : Decision) (id : String) (p : QueuedPair)
    → IsPlaced (routed_row p (g3_routing d id).0)
      × IsOnward g3_contradiction (g3_routing d id).0.gate
unfolding g3_routing
g3_routing-IsPlaced d id p = ground arith

-- Whatever G1, G2 and G3 decide, with any scores and thresholds, the row that the update leaves is
-- placed, and the pair has left the gate for a later one or for good: no decision strands a pair.
pub updates-IsPlaced :
    (g1 : G1Scores) (g2 : QueuedPair → G2Scores) (g3 : G3Scores) (t : Thresholds) (id : String)
    (p : QueuedPair)
    → let u1 = (g1_update g1 t id p).1 in
      let u2 = (g2_update g2 t id p).1 in
      let u3 = (g3_update g1 g3 t id p).1 in
      (IsPlaced (routed_row p u1) × IsOnward g1_neutral u1.gate)
      × (IsPlaced (routed_row p u2) × IsOnward g2_corroboration u2.gate)
      × (IsPlaced (routed_row p u3) × IsOnward g3_contradiction u3.gate)
unfolding g1_update g2_update g3_update pass_through
updates-IsPlaced g1 g2 g3 t id p = (
  g1_routing-IsPlaced (decide_g1 g1 t) id p,
  either_way p.contradiction_flag,
  g3_routing-IsPlaced (decide_g3 g1 g3 t) id p,
)
  where
    u2 : Changes
    u2 = (g2_routing (decide_g2 (g2 p) t) id).0

    either_way :
        (b : Bool)
        → IsPlaced (routed_row p (if b then pass_through id else u2))
          × IsOnward g2_corroboration (if b then pass_through id else u2).gate
    either_way true = ground arith
    either_way false = g2_routing-IsPlaced (decide_g2 (g2 p) t) id p

-- New rows and reset rows are placed, and a lease moves no row.
pub queue-IsPlaced :
    (stage3_run_id intake_id : String) (pair : GraphPair) (p : QueuedPair) (owner : String)
    (expires : Time)
    → IsPlaced (new_row stage3_run_id intake_id pair)
      × IsPlaced (reset_row p)
      × (IsPlaced p → IsPlaced (leased_row p owner expires))
queue-IsPlaced stage3_run_id intake_id pair p owner expires = ((refl, refl), (refl, refl), λ h. h)

pub IsPlaced-gone : (p : QueuedPair) → IsPlaced p → (p.gate ≡ none) ↔ IsSettled p
IsPlaced-gone p h = ground arith

-- A run whose rows are placed reconciles exactly when no pair is left at a gate.
pub placed-reconciles :
    (ps : List QueuedPair)
    → All IsPlaced ps
    → (reconciles (tally ps) ≡ true) ↔ All (λ (p : QueuedPair). p.gate ≡ none) ps
placed-reconciles ps h =
    let both = reconciles-IsSettled ps in
    (
      λ e. All-map IsSettled _ ps (λ p x. x.0) (both.0 e),
      λ gone. both.1 (
          All-map (λ (p : QueuedPair). IsPlaced p × (p.gate ≡ none)) IsSettled ps
            (λ p x. (IsPlaced-gone p x.0).0 x.1)
            (All-zip IsPlaced (λ (p : QueuedPair). p.gate ≡ none) ps h gone)),
    )

g1_verdict :
    (s : G1Scores) (t : Thresholds) (id : String)
    → (g1_routing (decide_g1 s t) id).0.decided_by ≢ none
    → ((decide_g1 s t).verdict ≡ some neutral) ⊎ ((decide_g1 s t).verdict ≡ some repeats)
unfolding g1_routing decide_g1 bare_outcome
g1_verdict s t id h = ground arith

g2_verdict :
    (s : G2Scores) (t : Thresholds) (id : String)
    → (g2_routing (decide_g2 s t) id).0.decided_by ≢ none
    → (decide_g2 s t).verdict ≡ some corroborates
unfolding g2_routing decide_g2
g2_verdict s t id h = ground arith

g3_verdict :
    (s : G1Scores) (u : G3Scores) (t : Thresholds) (id : String)
    → ((g3_routing (decide_g3 s u t) id).0.decided_by ≢ none
        → edge_relation (decide_g3 s u t) ≡ some neutral)
      × ((edge_relation (decide_g3 s u t) ≡ some contradicts)
          ↔ ((g3_routing (decide_g3 s u t) id).0.tier ≡ human))
      × ((g3_routing (decide_g3 s u t) id).0.tier ≡ human
          → (g3_routing (decide_g3 s u t) id).0.decided_by ≡ none)
unfolding g3_routing decide_g3 edge_relation
g3_verdict s u t id = ground arith

-- The gates' share of the verdict space, for all scores and thresholds: G1 decides NEUTRAL or REPEATS
-- pairs only, G2 CORROBORATES pairs only and never a flagged one, G3 NEUTRAL pairs only; G3 writes
-- CONTRADICTS to an edge exactly for a pair that it sends to a human, and that pair stays undecided.
pub updates-verdict :
    (g1 : G1Scores) (g2 : QueuedPair → G2Scores) (g3 : G3Scores) (t : Thresholds) (id : String)
    (p : QueuedPair)
    → let d1 = decide_g1 g1 t in
      let d2 = decide_g2 (g2 p) t in
      let d3 = decide_g3 g1 g3 t in
      let u3 = (g3_update g1 g3 t id p).1 in
      ((g1_update g1 t id p).1.decided_by ≢ none
        → (d1.verdict ≡ some neutral) ⊎ (d1.verdict ≡ some repeats))
      × ((g2_update g2 t id p).1.decided_by ≢ none
          → (d2.verdict ≡ some corroborates) × (p.contradiction_flag ≡ false))
      × (u3.decided_by ≢ none → edge_relation d3 ≡ some neutral)
      × ((edge_relation d3 ≡ some contradicts) ↔ (u3.tier ≡ human))
      × (u3.tier ≡ human → u3.decided_by ≡ none)
unfolding g1_update g2_update g3_update pass_through
updates-verdict g1 g2 g3 t id p = (
  g1_verdict g1 t id,
  either_way p.contradiction_flag,
  (g3_verdict g1 g3 t id).0,
  (g3_verdict g1 g3 t id).1,
  (g3_verdict g1 g3 t id).2,
)
  where
    u2 : Changes
    u2 = (g2_routing (decide_g2 (g2 p) t) id).0

    either_way :
        (b : Bool)
        → (if b then pass_through id else u2).decided_by ≢ none
        → ((decide_g2 (g2 p) t).verdict ≡ some corroborates) × (b ≡ false)
    either_way true h = absurd (h refl)
    either_way false h = (g2_verdict (g2 p) t id h, refl)
