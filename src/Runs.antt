-- ===== src/Runs.antt =====
-- The run document of gatekeeper/runs/model.py.
-- A time is a count of microseconds. A document also has the run-level `errorCode`, `errorDetail`
-- and `endedAt` that `fail_run` writes, which the dataclass does not read back.
pub mod Claim
pub mod Settle
pub mod Step
pub mod Spec
pub mod Refine
pub mod Invariant
pub mod Final
pub mod Lease
pub mod Liveness
use lakshmana_core.Prelude.{
  ℕ, ◌*◌, Bool, true, false, ◌&&◌, String, Option, none, some, List, [], ◌∷◌, ltb,
}
use lakshmana_core.Enums.{
  Gate, g1_neutral, g2_corroboration, g3_contradiction, g4_escalation, RunState, GateState, RunMode,
  full, TriggeredBy, JudgeMode, ErrorCode,
}
use lakshmana_core.Decisions.{Score, ThresholdSlots}
use lakshmana_core.Values.{Members, done}

abbrev pub Time : Type 0
Time = ℕ

-- `timedelta(minutes=…)`
abbrev pub minutes : ℕ → Time
minutes n = n * 60000000

-- A gate's counters, a `dict[str, Any]`.
abbrev pub Counters : Type 0
Counters = Members

pub record GateEntry : Type 0 where
  pub state : GateState
  pub attempt : ℕ
  pub sweep_attempt : ℕ
  pub lease_owner : Option String
  pub lease_expires_at : Option Time
  pub started_at : Option Time
  pub ended_at : Option Time
  pub counters : Counters
  pub error_code : Option ErrorCode
  pub error_detail : Option String

-- `GateEntry()`
abbrev pub new_entry : GateEntry
new_entry = record {
  state = GateState.pending;
  attempt = 0;
  sweep_attempt = 0;
  lease_owner = none;
  lease_expires_at = none;
  started_at = none;
  ended_at = none;
  counters = done;
  error_code = none;
  error_detail = none;
}

abbrev pub is_pending : GateState → Bool
is_pending GateState.pending = true
is_pending _ = false

abbrev pub is_running : GateState → Bool
is_running GateState.running = true
is_running _ = false

abbrev pub is_succeeded : GateState → Bool
is_succeeded GateState.succeeded = true
is_succeeded _ = false

abbrev pub is_failed : GateState → Bool
is_failed GateState.failed = true
is_failed _ = false

-- Membership in `_TERMINAL_GATE_STATES`.
abbrev pub is_terminal : GateState → Bool
is_terminal GateState.succeeded = true
is_terminal GateState.skipped = true
is_terminal _ = false

unfoldable pub lease_held_at : GateEntry → Time → Bool
lease_held_at e now =
    is_running e.state && elim e.lease_expires_at [ none ↦ false | some t ↦ ltb now t ]

pub record RunTotals : Type 0 where
  pub pairs_seen : ℕ
  pub decided_by_gates : ℕ
  pub escalated_llm : ℕ
  pub escalated_human : ℕ
  pub shadow_disagreed : ℕ
  pub llm_spend_usd : Score

-- `RunTotals()`
abbrev pub no_totals : RunTotals
no_totals = record {
  pairs_seen = 0;
  decided_by_gates = 0;
  escalated_llm = 0;
  escalated_human = 0;
  shadow_disagreed = 0;
  llm_spend_usd = 0;
}

-- The `gates` map, which has a key for each gate and iterates in `GATE_ORDER`.
pub record Gates : Type 0 where
  pub g1 : GateEntry
  pub g2 : GateEntry
  pub g3 : GateEntry
  pub g4 : GateEntry

-- `_default_gates()`
abbrev pub default_gates : Gates
default_gates = record { g1 = new_entry; g2 = new_entry; g3 = new_entry; g4 = new_entry }

abbrev pub lookup : Gates → Gate → GateEntry
lookup m g1_neutral = m.g1
lookup m g2_corroboration = m.g2
lookup m g3_contradiction = m.g3
lookup m g4_escalation = m.g4

abbrev pub insert : Gates → Gate → GateEntry → Gates
insert m g1_neutral e = record m { g1 = e }
insert m g2_corroboration e = record m { g2 = e }
insert m g3_contradiction e = record m { g3 = e }
insert m g4_escalation e = record m { g4 = e }

-- The parts of `configSnapshot` that the model reads.
pub record ConfigSnapshot : Type 0 where
  pub thresholds : ThresholdSlots
  pub grounding_mode : Option String
  pub llm_model : Option String
  pub max_llm_pairs : Option ℕ

pub record GatekeeperRun : Type 0 where
  pub schema_version : ℕ
  pub run_request_id : String
  pub intake_id : String
  pub stage3_run_id : String
  pub request_timestamp : String
  pub triggered_by : TriggeredBy
  pub judge_mode : JudgeMode
  pub mode : RunMode
  pub state : RunState
  pub config_snapshot : ConfigSnapshot
  pub superseded_by : Option String
  pub gates : Gates
  pub totals : RunTotals
  pub created_at : Option Time
  pub updated_at : Option Time
  pub error_code : Option ErrorCode
  pub error_detail : Option String
  pub ended_at : Option Time

-- `run.gate(gate)`
abbrev pub gate : GatekeeperRun → Gate → GateEntry
gate r g = lookup r.gates g

-- The payload of gatekeeper/contracts/payload.py.
pub record GatekeeperRunRequest : Type 0 where
  pub schema_version : ℕ
  pub run_request_id : String
  pub intake_id : String
  pub stage3_run_id : String
  pub gate_id : Gate
  pub mode : RunMode
  pub triggered_by : TriggeredBy
  pub request_timestamp : String

unfoldable pub to_request : GatekeeperRun → Gate → TriggeredBy → GatekeeperRunRequest
to_request r g by = record {
  schema_version = r.schema_version;
  run_request_id = r.run_request_id;
  intake_id = r.intake_id;
  stage3_run_id = r.stage3_run_id;
  gate_id = g;
  mode = full;
  triggered_by = by;
  request_timestamp = r.request_timestamp;
}
