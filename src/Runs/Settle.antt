-- ===== src/Runs/Settle.antt =====
-- The other transitions of one run document: the transaction bodies of `_settle_gate`,
-- `renew_gate_lease`, `rescue_gate`, `fail_run` and `finalize_run` of gatekeeper/runs/store.py.
-- `none` stands for a transaction that writes nothing.
use lakshmana_core.Prelude.{
  ℕ, ◌+◌, Bool, true, false, ◌||◌, not, String, str_eq, Option, none, some, List, [], ◌∷◌, leb,
  if◌then◌else◌, format, decimal, any,
}
use lakshmana_core.Enums.{Gate, RunState, GateState, ErrorCode, gk_e_stuck}
use lakshmana_core.Runs.{
  Time, Counters, GateEntry, is_running, is_failed, is_terminal, lease_held_at, RunTotals, insert,
  GatekeeperRun, gate,
}
use lakshmana_core.Runs.Claim.{is_live}

-- `entry.lease_owner == lease_owner`
abbrev pub owned_by : GateEntry → String → Bool
owned_by e owner = elim e.lease_owner [ none ↦ false | some o ↦ str_eq o owner ]

abbrev pub is_superseded : RunState → Bool
is_superseded RunState.superseded = true
is_superseded _ = false

abbrev pub is_run_running : RunState → Bool
is_run_running RunState.running = true
is_run_running _ = false

-- How a gate ends: `commit_gate`, or `fail_gate` with its code and detail.
pub data Ending : Type 0 where
  committed : Ending
  gate_failed : ErrorCode → String → Ending

-- `if counters is not None: updates[…counters] = dict(counters)`
abbrev pub written_counters : Option Counters → Counters → Counters
written_counters none old = old
written_counters (some new) old = new

abbrev pub settled_entry : GateEntry → Ending → Option Counters → Time → GateEntry
settled_entry e committed counters now = record e {
  state = GateState.succeeded;
  ended_at = some now;
  lease_owner = none;
  lease_expires_at = none;
  counters = written_counters counters e.counters;
}
settled_entry e (gate_failed code detail) counters now = record e {
  state = GateState.failed;
  ended_at = some now;
  lease_owner = none;
  lease_expires_at = none;
  counters = written_counters counters e.counters;
  error_code = some code;
  error_detail = some detail;
}

abbrev pub settled_state : RunState → Ending → RunState
settled_state s committed = s
settled_state s (gate_failed code detail) = RunState.failed

unfoldable pub settle :
    GatekeeperRun → Gate → String → Ending → Option Counters → Time → Time → Option GatekeeperRun
settle run g owner ending counters now server =
    if is_superseded run.state
    then none
    else if not (is_running (gate run g).state) || not (owned_by (gate run g) owner)
    then none
    else some (record run {
      gates = insert run.gates g (settled_entry (gate run g) ending counters now);
      state = settled_state run.state ending;
      updated_at = some server;
    })

unfoldable pub renew : GatekeeperRun → Gate → String → Time → Time → Time → Option GatekeeperRun
renew run g owner now lease server =
    if not (is_live run.state)
    then none
    else if not (is_running (gate run g).state) || not (owned_by (gate run g) owner)
    then none
    else some (record run {
      gates = insert run.gates g (record (gate run g) { lease_expires_at = some (now + lease) });
      updated_at = some server;
    })

pub data SweepOutcome : Type 0 where
  rescued stuck republished : SweepOutcome

unfoldable pub stuck_detail : ℕ → String
stuck_detail n = format ("lease expired " ∷ decimal n ∷ " times; sweeps exhausted" ∷ [])

abbrev pub stuck_run : GatekeeperRun → Gate → Time → Time → GatekeeperRun
stuck_run run g now server = record run {
  gates = insert run.gates g (record (gate run g) {
    state = GateState.failed;
    ended_at = some now;
    lease_owner = none;
    lease_expires_at = none;
    error_code = some gk_e_stuck;
    error_detail = some (stuck_detail (gate run g).sweep_attempt);
  });
  state = RunState.failed;
  updated_at = some server;
}

abbrev pub rescued_run : GatekeeperRun → Gate → Time → GatekeeperRun
rescued_run run g server = record run {
  gates = insert run.gates g (record (gate run g) {
    state = GateState.pending;
    sweep_attempt = (gate run g).sweep_attempt + 1;
    lease_owner = none;
    lease_expires_at = none;
  });
  updated_at = some server;
}

unfoldable pub rescue :
    GatekeeperRun → Gate → ℕ → Time → Time → Option (SweepOutcome × GatekeeperRun)
unfolding lease_held_at
rescue run g max_sweeps now server =
    if not (is_live run.state)
    then none
    else if not (is_running (gate run g).state) || lease_held_at (gate run g) now
    then none
    else if leb max_sweeps (gate run g).sweep_attempt
    then some (stuck, stuck_run run g now server)
    else some (rescued, rescued_run run g server)

unfoldable pub fail_run : GatekeeperRun → ErrorCode → String → Time → Time → Option GatekeeperRun
fail_run run code detail now server =
    if not (is_run_running run.state)
    then none
    else some (record run {
      state = RunState.failed;
      error_code = some code;
      error_detail = some detail;
      ended_at = some now;
      updated_at = some server;
    })

-- `run.gates.values()`
abbrev pub entries : GatekeeperRun → List GateEntry
entries run = run.gates.g1 ∷ run.gates.g2 ∷ run.gates.g3 ∷ run.gates.g4 ∷ []

unfoldable pub finalize_run : GatekeeperRun → RunTotals → Time → Option GatekeeperRun
finalize_run run totals server =
    if not (is_run_running run.state)
    then none
    else if any (λ e. not (is_terminal e.state || is_failed e.state)) (entries run)
    then none
    else if any (λ e. is_failed e.state) (entries run)
    then none
    else some (record run { state = RunState.succeeded; totals = totals; updated_at = some server })
