-- ===== src/Routing.antt =====
-- Where the gates send a pair: `_routing` of gatekeeper/gates/g1.py, g2.py and g3.py, `_pass_through` of
-- g2.py and `_edge_relation` of g3.py. A routing comes with the names of the counters that it raises
-- by one.
pub mod Placement
use lakshmana_core.Prelude.{
  Bool, true, false, not, String, Option, none, some, List, [], ◌∷◌, ◌++◌, map, select,
  if◌then◌else◌,
}
use lakshmana_core.Enums.{
  g2_corroboration, g3_contradiction, g4_escalation, Verdict, neutral, contradicts, gk_g1_nli,
  gk_g2_grounding, gk_g3_xcheck, EscalationReason, contradiction_signal, context_disagreement,
  cascade, llm_tail, human,
}
use lakshmana_core.Decisions.{
  Decision, decided, escalate_g4, route_human, Disposition, Score, Thresholds, G1Scores, decide_g1,
  G2Scores, decide_g2, G3Scores, decide_g3, same_verdict,
}
use lakshmana_core.Queue.{QueuedPair, Changes}

abbrev pub Routed : Type 0
Routed = Changes × List String

-- `a is b` on an optional reason, for the two reasons that the routings ask for.
abbrev pub is_context_disagreement : Option EscalationReason → Bool
is_context_disagreement (some context_disagreement) = true
is_context_disagreement _ = false

abbrev pub is_contradiction_signal : Option EscalationReason → Bool
is_contradiction_signal (some contradiction_signal) = true
is_contradiction_signal _ = false

-- `_routing` of G1.
unfoldable pub g1_routing : Decision → String → Routed
g1_routing d run_request_id =
    let base : Changes = record {
      gate = some g2_corroboration;
      tier = cascade;
      decided_by = none;
      gk_run_request_id = run_request_id;
      contradiction_flag = some d.contradiction_flag;
    } in
    elim d.disposition [
      | decided ↦ (
        record base { gate = none; decided_by = some gk_g1_nli },
        (if same_verdict d.verdict (some neutral) then "neutral" else "repeats") ∷ [],
      )
      | escalate_g4 ↦ (
        record base { gate = some g4_escalation; tier = llm_tail },
        if is_context_disagreement d.escalation_reason then "ctxDisagreed" ∷ [] else [],
      )
      | _ ↦ (
        base,
        if d.contradiction_flag then "forwarded" ∷ "contraFlagged" ∷ [] else "forwarded" ∷ [],
      )
    ]

-- `_routing` of G2.
unfoldable pub g2_routing : Decision → String → Routed
g2_routing d run_request_id =
    let base : Changes = record {
      gate = some g3_contradiction;
      tier = cascade;
      decided_by = none;
      gk_run_request_id = run_request_id;
      contradiction_flag = none;
    } in
    elim d.disposition [
      | decided ↦
          (record base { gate = none; decided_by = some gk_g2_grounding }, "corroborates" ∷ [])
      | escalate_g4 ↦ (
        record base { gate = some g4_escalation; tier = llm_tail },
        if not (is_contradiction_signal d.escalation_reason) then "forwarded" ∷ [] else [],
      )
      | _ ↦ (base, "forwarded" ∷ [])
    ]

-- The update of `_pass_through`.
unfoldable pub pass_through : String → Changes
pass_through run_request_id = record {
  gate = some g3_contradiction;
  tier = cascade;
  decided_by = none;
  gk_run_request_id = run_request_id;
  contradiction_flag = none;
}

-- `_edge_relation` of G3.
unfoldable pub edge_relation : Decision → Option Verdict
edge_relation d = elim d.disposition [ route_human ↦ some contradicts | _ ↦ d.verdict ]

-- `_routing` of G3.
unfoldable pub g3_routing : Decision → String → Routed
g3_routing d run_request_id =
    let base : Changes = record {
      gate = none;
      tier = cascade;
      decided_by = none;
      gk_run_request_id = run_request_id;
      contradiction_flag = none;
    } in
    elim d.disposition [
      | route_human ↦
          (record base { tier = human; contradiction_flag = some true }, "humanRouted" ∷ [])
      | decided ↦ (record base { decided_by = some gk_g3_xcheck }, "neutral" ∷ [])
      | _ ↦ (record base { gate = some g4_escalation; tier = llm_tail }, "escalated" ∷ [])
    ]

-- What the gates do with one pair: its decision, and where it goes. G2 asks its scorer about
-- unflagged pairs only.
unfoldable pub g1_update : G1Scores → Thresholds → String → QueuedPair → QueuedPair × Changes
g1_update scores t run_request_id p = (p, (g1_routing (decide_g1 scores t) run_request_id).0)

unfoldable pub g2_update :
    (QueuedPair → G2Scores) → Thresholds → String → QueuedPair → QueuedPair × Changes
g2_update scores t run_request_id p = (
  p,
  if p.contradiction_flag
      then pass_through run_request_id
      else (g2_routing (decide_g2 (scores p) t) run_request_id).0,
)

unfoldable pub g3_update :
    G1Scores → G3Scores → Thresholds → String → QueuedPair → QueuedPair × Changes
g3_update g1 g3 t run_request_id p = (p, (g3_routing (decide_g3 g1 g3 t) run_request_id).0)
