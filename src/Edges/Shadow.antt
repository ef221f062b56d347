-- ===== src/Edges/Shadow.antt =====
-- What a row says in each judge mode.
use lakshmana_core.Prelude.{
  Bool, true, false, String, Option, none, some, List, [], ◌∷◌, ◌++◌, ◌≡◌, refl, arith, All,
  All-append,
}
use lakshmana_core.Enums.{JudgeMode, shadow, gatekeeper}
use lakshmana_core.Decisions.{Score}
use lakshmana_core.Prelude.Order.{sorted_pair_comm}
use lakshmana_core.Edges.{
  EdgeVerdict, EdgeField, EdgeValue, Fields, when_some, stage_score, shadow_stage_score,
  shadow_method, shadow_gk_run_request_id, shadow_escalation_reason, identity_fields, score_fields,
  shadow_fields, verdict_fields, is_shadow, to_firestore, edge_key,
}

-- The fields that assert something about the pair on the row itself.
abbrev pub asserts : EdgeField → Bool
asserts EdgeField.judge_model = true
asserts EdgeField.truncated = true
asserts EdgeField.relation = true
asserts EdgeField.confidence = true
asserts EdgeField.escalation_reason = true
asserts EdgeField.rationale = true
asserts EdgeField.temporal_note = true
asserts _ = false

-- The fields of the `shadow` map.
abbrev pub is_shadowed : EdgeField → Bool
is_shadowed EdgeField.shadow_verdict = true
is_shadowed shadow_method = true
is_shadowed shadow_gk_run_request_id = true
is_shadowed shadow_escalation_reason = true
is_shadowed (shadow_stage_score slot name) = true
is_shadowed _ = false

-- No field of the list passes the test.
abbrev pub Avoids : (EdgeField → Bool) → Fields → Type 0
Avoids test = All (λ (f : EdgeField × EdgeValue). test f.0 ≡ false)

score_fields-Avoids :
    (test : EdgeField → Bool) (field : String → EdgeField) (scores : List (String × Score))
    → ((name : String) → test (field name) ≡ false)
    → Avoids test (score_fields field scores)
unfolding score_fields
score_fields-Avoids test field [] h = tt
score_fields-Avoids test field ((name, score) ∷ rest) h =
    (h name, score_fields-Avoids test field rest h)

when_some-Avoids {ℓ} :
    {A : Type ℓ} (test : EdgeField → Bool) (field : EdgeField) (value : A → EdgeValue)
    (o : Option A)
    → test field ≡ false
    → Avoids test (when_some field value o)
when_some-Avoids test field value none h = tt
when_some-Avoids test field value (some a) h = (h, tt)

identity_fields-Avoids :
    (v : EdgeVerdict) → Avoids asserts (identity_fields v) × Avoids is_shadowed (identity_fields v)
unfolding identity_fields
identity_fields-Avoids v = ground arith

shadow_fields-Avoids : (v : EdgeVerdict) → Avoids asserts (shadow_fields v)
unfolding shadow_fields
shadow_fields-Avoids v =
    let scores =
      score_fields-Avoids asserts (λ n. shadow_stage_score v.slot n) v.stage_scores (λ n. refl) in
    (refl, (refl, (refl, (refl, scores))))

verdict_fields-Avoids : (v : EdgeVerdict) → Avoids is_shadowed (verdict_fields v)
unfolding verdict_fields
verdict_fields-Avoids v = (
  refl,
  (
    refl,
    All-append _ (when_some EdgeField.relation _ v.verdict) _
        (when_some-Avoids is_shadowed _ _ v.verdict refl)
        (All-append _ (when_some EdgeField.confidence _ v.confidence) _
          (when_some-Avoids is_shadowed _ _ v.confidence refl)
          (All-append _ (when_some EdgeField.escalation_reason _ v.escalation_reason) _
            (when_some-Avoids is_shadowed _ _ v.escalation_reason refl)
            (All-append _ (when_some EdgeField.rationale _ v.rationale) _
              (when_some-Avoids is_shadowed _ _ v.rationale refl)
              (when_some-Avoids is_shadowed _ _ v.temporal_note refl)))),
  ),
)

scores-Avoids :
    (v : EdgeVerdict)
    → Avoids asserts (score_fields (λ n. stage_score v.slot n) v.stage_scores)
      × Avoids is_shadowed (score_fields (λ n. stage_score v.slot n) v.stage_scores)
scores-Avoids v = (
  score_fields-Avoids asserts (λ n. stage_score v.slot n) v.stage_scores (λ n. refl),
  score_fields-Avoids is_shadowed (λ n. stage_score v.slot n) v.stage_scores (λ n. refl),
)

verdict_side :
    (v : EdgeVerdict)
    → Avoids is_shadowed (
        identity_fields v
        ++ (score_fields (λ n. stage_score v.slot n) v.stage_scores ++ verdict_fields v))
verdict_side v = All-append _ (identity_fields v) _ (identity_fields-Avoids v).1 (
    All-append _ (score_fields (λ n. stage_score v.slot n) v.stage_scores) _ (scores-Avoids v).1
      (verdict_fields-Avoids v))

-- In SHADOW mode no gate's row asserts anything about the pair: its relation, confidence, reason, prose
-- and judge are never written. In the other modes the `shadow` map is never written.
pub to_firestore-Avoids :
    (v : EdgeVerdict) (mode : JudgeMode)
    → (mode ≡ shadow → Avoids asserts (to_firestore v mode))
      × (is_shadow mode ≡ false → Avoids is_shadowed (to_firestore v mode))
unfolding to_firestore
to_firestore-Avoids v shadow = (
  λ h. All-append _ (identity_fields v) _ (identity_fields-Avoids v).0 (
      All-append _ (score_fields (λ n. stage_score v.slot n) v.stage_scores) _ (scores-Avoids v).0
        (shadow_fields-Avoids v)),
  λ h. absurd (ground arith),
)
to_firestore-Avoids v JudgeMode.llm = (λ h. absurd (ground arith), λ h. verdict_side v)
to_firestore-Avoids v gatekeeper = (λ h. absurd (ground arith), λ h. verdict_side v)

-- A pair's row has the same id whichever of its claims comes first.
pub edge_key_comm :
    (a b : String) (with_context : Bool) → edge_key a b with_context ≡ edge_key b a with_context
unfolding edge_key
edge_key_comm a b with_context = rw (sorted_pair_comm a b) refl
