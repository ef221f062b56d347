-- ===== src/Examples.antt =====
-- The inputs that the examples run on: a run that one message opens, runs in later states, pairs and
-- scores.
pub mod Runs
pub mod Stores
pub mod Pairs
pub mod Gates
pub mod Chains
pub mod Loops
pub mod Wires
pub mod Parts
pub mod Answers
use lakshmana_core.Prelude.{
  ℕ, Bool, String, Option, none, some, List, [], ◌∷◌, true, false, ◌≡◌, refl,
}
use lakshmana_core.Enums.{
  Gate, g1_neutral, g2_corroboration, RunState, GateState, full, from_gate, RunMode, TriggeredBy,
  operator, gatekeeper, cascade, gk_e_vertex,
}
use lakshmana_core.Decisions.{ThresholdSlots, NliScores, G1Scores, G3Scores, Score}
use lakshmana_core.Firestore.{Collection}
use lakshmana_core.Firestore.Memory.{memory, Log}
use lakshmana_core.Runs.{
  ConfigSnapshot, GateEntry, new_entry, GatekeeperRun, GatekeeperRunRequest, default_gates,
  no_totals,
}
use lakshmana_core.Runs.Claim.{created_run}
use lakshmana_core.Store.{Claimant}
use lakshmana_core.Queue.{QueuedPair, GraphPair, new_row}

abbrev pub snapshot : ConfigSnapshot
snapshot = record {
  thresholds = record {
    neutral_min = none;
    repeat_min = none;
    contra_escape = none;
    support_min = none;
    support_floor = none;
    contra_min = none;
    neutral_consensus = none;
  };
  grounding_mode = none;
  llm_model = none;
  max_llm_pairs = none;
}

abbrev pub message : String → Gate → RunMode → GatekeeperRunRequest
message id g mode = record {
  schema_version = 1;
  run_request_id = id;
  intake_id = "intake";
  stage3_run_id = "stage3";
  gate_id = g;
  mode = mode;
  triggered_by = operator;
  request_timestamp = "2026-01-01T00:00:00Z";
}

abbrev pub claimant : Claimant
claimant = record {
  lease_owner = "worker-1";
  judge_mode = gatekeeper;
  config_snapshot = snapshot;
  now = 100;
  lease = 50;
  server = 101;
}

-- The run that the message `r1` for G1 opens.
abbrev pub opened_run : GatekeeperRun
opened_run = record {
  schema_version = 1;
  run_request_id = "r1";
  intake_id = "intake";
  stage3_run_id = "stage3";
  request_timestamp = "2026-01-01T00:00:00Z";
  triggered_by = operator;
  judge_mode = gatekeeper;
  mode = full;
  state = RunState.running;
  config_snapshot = snapshot;
  superseded_by = none;
  gates = record default_gates {
    g1 = record new_entry {
      state = GateState.running;
      attempt = 1;
      lease_owner = some "worker-1";
      lease_expires_at = some 150;
      started_at = some 100;
    };
  };
  totals = no_totals;
  created_at = some 101;
  updated_at = some 101;
  error_code = none;
  error_detail = none;
  ended_at = none;
}

opened_run-created_run :
    created_run (message "r1" g1_neutral full) "worker-1" gatekeeper snapshot 100 50 101
    ≡ opened_run
unfolding created_run
opened_run-created_run = refl

abbrev pub done_entry : GateEntry
done_entry = record new_entry { state = GateState.succeeded; attempt = 1 }

abbrev pub failed_entry : GateEntry
failed_entry = record new_entry {
  state = GateState.failed;
  attempt = 1;
  error_code = some gk_e_vertex;
}

-- All four gates have SUCCEEDED.
abbrev pub cascaded_run : GatekeeperRun
cascaded_run = record opened_run {
  gates = record { g1 = done_entry; g2 = done_entry; g3 = done_entry; g4 = done_entry };
}

-- G1 has SUCCEEDED, and G2 is PENDING or FAILED.
abbrev pub waiting_run : GatekeeperRun
waiting_run = record opened_run { gates = record default_gates { g1 = done_entry } }

abbrev pub failed_run : GatekeeperRun
failed_run = record opened_run {
  state = RunState.failed;
  gates = record default_gates { g1 = done_entry; g2 = failed_entry };
}

abbrev pub runs : Collection GatekeeperRun
runs = memory GatekeeperRun

abbrev pub pairs : Collection QueuedPair
pairs = memory QueuedPair

abbrev pub never : ℕ → Bool
never i = false

abbrev pub edge : String → String → GraphPair
edge a b = record {
  claim_a_id = a;
  claim_b_id = b;
  rank = 1;
  with_context = false;
  human_asserted = false;
}

-- A row of the queue under the id `id`.
abbrev pub row : String → QueuedPair
row id = record {
  pair_id = id;
  stage3_run_id = "stage3";
  intake_id = "intake";
  claim_a_id = "a";
  claim_b_id = "b";
  rank = 1;
  with_context = false;
  human_asserted = false;
  tier = cascade;
  gate = some g1_neutral;
  contradiction_flag = false;
  decided_by = none;
  gk_run_request_id = none;
  lease_owner = none;
  lease_expires_at = none;
}

abbrev pub scores : Score → Score → Score → NliScores
scores e n c = record {
  entailment = e;
  neutral_score = n;
  contradiction = c;
  was_truncated = false;
}
