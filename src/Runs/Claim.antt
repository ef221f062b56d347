-- ===== src/Runs/Claim.antt =====
-- The claim of a gate: the transaction body of `claim_gate` of gatekeeper/runs/store.py.
use lakshmana_core.Prelude.{
  ◌+◌, Bool, true, false, ◌&&◌, ◌||◌, not, String, Option, none, some, if◌then◌else◌,
}
use lakshmana_core.Enums.{
  Gate, g1_neutral, RunState, GateState, RunMode, full, from_gate, JudgeMode, is_gate,
}
use lakshmana_core.Enums.Order.{prior_gate}
use lakshmana_core.Runs.{
  Time, GateEntry, new_entry, is_running, is_succeeded, is_failed, is_terminal, lease_held_at,
  no_totals, default_gates, insert, ConfigSnapshot, GatekeeperRun, gate, GatekeeperRunRequest,
}

pub data ClaimRejection : Type 0 where
  run_not_found run_superseded run_terminal gate_terminal gate_leased gate_not_retriggerable
        prior_gate_not_succeeded invalid_entry :
      ClaimRejection

abbrev pub is_from_gate : RunMode → Bool
is_from_gate full = false
is_from_gate from_gate = true

-- The run-level guards of `_reject_claim`.
unfoldable pub reject_run : RunState → RunMode → Option ClaimRejection
reject_run RunState.superseded m = some run_superseded
reject_run RunState.succeeded m = some run_terminal
reject_run RunState.failed m = if not (is_from_gate m) then some run_terminal else none
reject_run RunState.requested m = none
reject_run RunState.running m = none

-- Whether `prior_gate(gate)` exists and has not succeeded.
unfoldable pub prior_unfinished : GatekeeperRun → Gate → Bool
unfolding prior_gate
prior_unfinished run g = elim (prior_gate g) [
  | none ↦ false
  | some p ↦ not (is_succeeded (gate run p).state)
]

-- The gate-level guards of `_reject_claim`.
unfoldable pub reject_entry : GateEntry → RunMode → Time → Option ClaimRejection
unfolding lease_held_at
reject_entry entry m now =
    if lease_held_at entry now
    then some gate_leased
    else if is_terminal entry.state
    then some gate_terminal
    else if is_from_gate m
    then (if not (is_failed entry.state || is_running entry.state)
        then some gate_not_retriggerable
        else none)
    else if is_failed entry.state
    then some gate_terminal
    else none

unfoldable pub reject_claim : GatekeeperRun → GatekeeperRunRequest → Time → Option ClaimRejection
unfolding reject_run prior_unfinished reject_entry
reject_claim run request now = elim (reject_run run.state request.mode) [
  | some r ↦ some r
  | none ↦
      if prior_unfinished run request.gate_id
      then some prior_gate_not_succeeded
      else reject_entry (gate run request.gate_id) request.mode now
]

-- The entry that `_claim_updates` writes.
abbrev pub claimed_entry : GateEntry → String → Time → Time → GateEntry
claimed_entry entry owner now lease = record entry {
  state = GateState.running;
  attempt = entry.attempt + 1;
  lease_owner = some owner;
  lease_expires_at = some (now + lease);
  started_at = some now;
  ended_at = none;
  error_code = none;
  error_detail = none;
}

-- The document after `_claim_updates`; `server` is the commit's SERVER_TIMESTAMP.
unfoldable pub claim_updates : GatekeeperRun → Gate → String → Time → Time → Time → GatekeeperRun
claim_updates run g owner now lease server = record run {
  gates = insert run.gates g (claimed_entry (gate run g) owner now lease);
  state = RunState.running;
  updated_at = some server;
}

-- The document that `_create_and_claim` writes.
unfoldable pub created_run :
    GatekeeperRunRequest → String → JudgeMode → ConfigSnapshot → Time → Time → Time → GatekeeperRun
created_run request owner judge snapshot now lease server = record {
  schema_version = request.schema_version;
  run_request_id = request.run_request_id;
  intake_id = request.intake_id;
  stage3_run_id = request.stage3_run_id;
  request_timestamp = request.request_timestamp;
  triggered_by = request.triggered_by;
  judge_mode = judge;
  mode = request.mode;
  state = RunState.running;
  config_snapshot = snapshot;
  superseded_by = none;
  gates = insert default_gates g1_neutral (record new_entry {
    state = GateState.running;
    attempt = 1;
    lease_owner = some owner;
    lease_expires_at = some (now + lease);
    started_at = some now;
  });
  totals = no_totals;
  created_at = some server;
  updated_at = some server;
  error_code = none;
  error_detail = none;
  ended_at = none;
}

-- Only a FULL G1 message may open a run.
unfoldable pub may_open : GatekeeperRunRequest → Bool
may_open request = is_gate request.gate_id g1_neutral && not (is_from_gate request.mode)

-- Membership in `supersedable`.
abbrev pub is_live : RunState → Bool
is_live RunState.requested = true
is_live RunState.running = true
is_live _ = false

-- The update of a predecessor.
abbrev pub superseded_run : GatekeeperRun → String → Time → GatekeeperRun
superseded_run run by server = record run {
  state = RunState.superseded;
  superseded_by = some by;
  updated_at = some server;
}
