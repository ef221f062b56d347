-- ===== src/Edges.antt =====
-- The edge rows of gatekeeper/worker/edges.py. A row is written with `merge=True`, so a document body is
-- a list of fields to write, in which a field of a nested map is a field of its own. `createdAt` and
-- `updatedAt` are left out.
pub mod Shadow
pub mod Scores
pub mod Purge
use lakshmana_core.Prelude.{
  ℕ, Bool, true, false, String, Option, none, some, List, [], ◌∷◌, ◌++◌, map, if◌then◌else◌, format,
}
use lakshmana_core.Prelude.Order.{sorted_pair}
use lakshmana_core.Enums.{Method, Verdict, EscalationReason, JudgeMode, shadow}
use lakshmana_core.Decisions.{Score}

abbrev pub gatekeeper_stamp : String
gatekeeper_stamp = "GK"

unfoldable pub edge_key : String → String → Bool → String
edge_key claim_a_id claim_b_id with_context =
    let (low, high) = sorted_pair claim_a_id claim_b_id in
    format (
      low
      ∷ "|"
      ∷ high
      ∷ "|"
      ∷ (if with_context then "ctx" else "bare")
      ∷ "|"
      ∷ gatekeeper_stamp
      ∷ [])

pub record EdgeVerdict : Type 0 where
  pub claim_a_id : String
  pub claim_b_id : String
  pub subject_id : String
  pub intake_id : String
  pub stage3_run_id : String
  pub run_request_id : String
  pub slot : String
  pub method : Method
  pub judge_model : String
  pub stage_scores : List (String × Score)
  pub verdict : Option Verdict
  pub confidence : Option Score
  pub escalation_reason : Option EscalationReason
  pub truncated : Bool
  pub with_context : Bool
  pub attempt : ℕ
  pub rationale : Option String
  pub temporal_note : Option String
  pub shadow_verdict : Option String

-- The fields of a row; a stage score has the slot's and the score's name.
pub data EdgeField : Type 0 where
  subject_id claim_id_low claim_id_high with_context intake_id stage3_run_id run_request_id
        gk_run_request_id method attempt :
      EdgeField
  stage_score : String → String → EdgeField
  shadow_verdict shadow_method shadow_gk_run_request_id shadow_escalation_reason : EdgeField
  shadow_stage_score : String → String → EdgeField
  judge_model truncated relation confidence escalation_reason rationale temporal_note : EdgeField

-- A stored value; an enumeration's member stands for its spelling.
pub data EdgeValue : Type 0 where
  null : EdgeValue
  text : String → EdgeValue
  number : ℕ → EdgeValue
  flag : Bool → EdgeValue
  of_method : Method → EdgeValue
  of_verdict : Verdict → EdgeValue
  of_reason : EscalationReason → EdgeValue

abbrev pub Fields : Type 0
Fields = List (EdgeField × EdgeValue)

-- `if value is not None: document[field] = …`
abbrev pub when_some {ℓ} : {A : Type ℓ} → EdgeField → (A → EdgeValue) → Option A → Fields
when_some field value none = []
when_some field value (some a) = (field, value a) ∷ []

-- `self.shadow_verdict or (self.verdict.value if self.verdict else None)`; no token is empty.
unfoldable pub shadow_token : EdgeVerdict → EdgeValue
shadow_token v = elim v.shadow_verdict [
  | some token ↦ text token
  | none ↦ elim v.verdict [ none ↦ null | some r ↦ of_verdict r ]
]

unfoldable pub identity_fields : EdgeVerdict → Fields
identity_fields v =
    let (low, high) = sorted_pair v.claim_a_id v.claim_b_id in
    (EdgeField.subject_id, text v.subject_id)
    ∷ (EdgeField.claim_id_low, text low)
    ∷ (EdgeField.claim_id_high, text high)
    ∷ (EdgeField.with_context, flag v.with_context)
    ∷ (EdgeField.intake_id, text v.intake_id)
    ∷ (EdgeField.stage3_run_id, text v.stage3_run_id)
    ∷ (EdgeField.run_request_id, text v.run_request_id)
    ∷ (EdgeField.gk_run_request_id, text v.run_request_id)
    ∷ (EdgeField.method, of_method v.method)
    ∷ (EdgeField.attempt, number v.attempt)
    ∷ []

unfoldable pub score_fields : (String → EdgeField) → List (String × Score) → Fields
score_fields field [] = []
score_fields field ((name, score) ∷ rest) = (field name, number score) ∷ score_fields field rest

unfoldable pub shadow_fields : EdgeVerdict → Fields
shadow_fields v =
    (EdgeField.shadow_verdict, shadow_token v)
    ∷ (shadow_method, of_method v.method)
    ∷ (shadow_gk_run_request_id, text v.run_request_id)
    ∷ (shadow_escalation_reason, elim v.escalation_reason [ none ↦ null | some r ↦ of_reason r ])
    ∷ score_fields (shadow_stage_score v.slot) v.stage_scores

unfoldable pub verdict_fields : EdgeVerdict → Fields
verdict_fields v =
    (EdgeField.judge_model, text v.judge_model)
    ∷ (EdgeField.truncated, flag v.truncated)
    ∷ (when_some relation of_verdict v.verdict
        ++ (when_some EdgeField.confidence number v.confidence
            ++ (when_some EdgeField.escalation_reason of_reason v.escalation_reason
                ++ (when_some EdgeField.rationale text v.rationale
                    ++ when_some EdgeField.temporal_note text v.temporal_note))))

-- Membership of the SHADOW branch; LLM and GATEKEEPER write the verdict.
abbrev pub is_shadow : JudgeMode → Bool
is_shadow shadow = true
is_shadow _ = false

unfoldable pub to_firestore : EdgeVerdict → JudgeMode → Fields
to_firestore v judge_mode =
    identity_fields v
    ++ (score_fields (stage_score v.slot) v.stage_scores
        ++ (if is_shadow judge_mode then shadow_fields v else verdict_fields v))
