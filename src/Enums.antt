-- ===== src/Enums.antt =====
-- The enumerations of gatekeeper/enums.py and the error codes of gatekeeper/errors.py.
pub mod Order
use lakshmana_core.Prelude.{Bool, true, false, String, Option, none, some, List, [], ◌∷◌}

pub data Gate : Type 0 where
  g1_neutral g2_corroboration g3_contradiction g4_escalation : Gate

abbrev pub gate_order : List Gate
gate_order = g1_neutral ∷ g2_corroboration ∷ g3_contradiction ∷ g4_escalation ∷ []

pub data RunState : Type 0 where
  requested running succeeded failed superseded : RunState

pub data GateState : Type 0 where
  pending running succeeded failed skipped : GateState

pub data RunMode : Type 0 where
  full from_gate : RunMode

pub data TriggeredBy : Type 0 where
  operator system sweeper : TriggeredBy

pub data JudgeMode : Type 0 where
  llm gatekeeper shadow : JudgeMode

pub data Verdict : Type 0 where
  neutral repeats corroborates contradicts : Verdict

pub data Method : Type 0 where
  ensemble rule embedding gk_g1_nli gk_g2_grounding gk_g3_xcheck gk_g4_llm : Method

pub data EscalationReason : Type 0 where
  contradiction_signal low_confidence stage_disagreement context_disagreement truncated cap_exceeded
        llm_error :
      EscalationReason

pub data QueueTier : Type 0 where
  cascade llm_tail human : QueueTier

pub data ErrorCode : Type 0 where
  gk_e_schema gk_e_model_fetch gk_e_neo4j_unavailable gk_e_firestore_txn gk_e_vertex
        gk_e_cap_exceeded gk_e_stuck gk_e_g4_dryrun :
      ErrorCode

-- `a is b` on gates.
abbrev pub is_gate : Gate → Gate → Bool
is_gate g1_neutral g1_neutral = true
is_gate g2_corroboration g2_corroboration = true
is_gate g3_contradiction g3_contradiction = true
is_gate g4_escalation g4_escalation = true
is_gate _ _ = false

-- The members and the tokens of the string enumerations.
abbrev pub gate_value : Gate → String
gate_value g1_neutral = "G1_NEUTRAL"
gate_value g2_corroboration = "G2_CORROBORATION"
gate_value g3_contradiction = "G3_CONTRADICTION"
gate_value g4_escalation = "G4_ESCALATION"

abbrev pub run_state_value : RunState → String
run_state_value RunState.requested = "REQUESTED"
run_state_value RunState.running = "RUNNING"
run_state_value RunState.succeeded = "SUCCEEDED"
run_state_value RunState.failed = "FAILED"
run_state_value RunState.superseded = "SUPERSEDED"

abbrev pub run_states : List RunState
run_states =
    RunState.requested ∷ RunState.running ∷ RunState.succeeded ∷ RunState.failed
    ∷ RunState.superseded ∷ []

abbrev pub gate_state_value : GateState → String
gate_state_value GateState.pending = "PENDING"
gate_state_value GateState.running = "RUNNING"
gate_state_value GateState.succeeded = "SUCCEEDED"
gate_state_value GateState.failed = "FAILED"
gate_state_value GateState.skipped = "SKIPPED"

abbrev pub gate_states : List GateState
gate_states =
    GateState.pending ∷ GateState.running ∷ GateState.succeeded ∷ GateState.failed
    ∷ GateState.skipped ∷ []

abbrev pub run_mode_value : RunMode → String
run_mode_value full = "FULL"
run_mode_value from_gate = "FROM_GATE"

abbrev pub run_modes : List RunMode
run_modes = full ∷ from_gate ∷ []

abbrev pub triggered_by_value : TriggeredBy → String
triggered_by_value operator = "OPERATOR"
triggered_by_value system = "SYSTEM"
triggered_by_value sweeper = "SWEEPER"

abbrev pub triggers : List TriggeredBy
triggers = operator ∷ system ∷ sweeper ∷ []

abbrev pub judge_mode_value : JudgeMode → String
judge_mode_value llm = "LLM"
judge_mode_value gatekeeper = "GATEKEEPER"
judge_mode_value shadow = "SHADOW"

abbrev pub judge_modes : List JudgeMode
judge_modes = llm ∷ gatekeeper ∷ shadow ∷ []

abbrev pub queue_tier_value : QueueTier → String
queue_tier_value cascade = "CASCADE"
queue_tier_value llm_tail = "LLM_TAIL"
queue_tier_value human = "HUMAN"

abbrev pub queue_tiers : List QueueTier
queue_tiers = cascade ∷ llm_tail ∷ human ∷ []

abbrev pub method_value : Method → String
method_value ensemble = "ENSEMBLE"
method_value rule = "RULE"
method_value embedding = "EMBEDDING"
method_value gk_g1_nli = "GK_G1_NLI"
method_value gk_g2_grounding = "GK_G2_GROUNDING"
method_value gk_g3_xcheck = "GK_G3_XCHECK"
method_value gk_g4_llm = "GK_G4_LLM"

abbrev pub error_code_value : ErrorCode → String
error_code_value gk_e_schema = "GK_E_SCHEMA"
error_code_value gk_e_model_fetch = "GK_E_MODEL_FETCH"
error_code_value gk_e_neo4j_unavailable = "GK_E_NEO4J_UNAVAILABLE"
error_code_value gk_e_firestore_txn = "GK_E_FIRESTORE_TXN"
error_code_value gk_e_vertex = "GK_E_VERTEX"
error_code_value gk_e_cap_exceeded = "GK_E_CAP_EXCEEDED"
error_code_value gk_e_stuck = "GK_E_STUCK"
error_code_value gk_e_g4_dryrun = "GK_E_G4_DRYRUN"

abbrev pub error_codes : List ErrorCode
error_codes =
    gk_e_schema ∷ gk_e_model_fetch ∷ gk_e_neo4j_unavailable ∷ gk_e_firestore_txn ∷ gk_e_vertex
    ∷ gk_e_cap_exceeded ∷ gk_e_stuck ∷ gk_e_g4_dryrun ∷ []
