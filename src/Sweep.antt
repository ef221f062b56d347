-- ===== src/Sweep.antt =====
-- The sweeper of gatekeeper/dispatcher/sweep.py. The DLQ's depth and the log lines are left out of
-- the report, in which a label `run:gate` is a pair. A published message is an element of the list that a pass returns.
pub mod Messages
pub mod Dead
use lakshmana_core.Prelude.{
  ℕ, ◌+◌, ◌*◌, Bool, true, false, not, ◌&&◌, ◌||◌, String, Option, none, some, List, [], ◌∷◌, ◌++◌,
  ltb, if◌then◌else◌, any, select,
}
use lakshmana_core.Enums.{Gate, gate_order, RunState, sweeper}
use lakshmana_core.Enums.Order.{prior_gate}
use lakshmana_core.Firestore.{Collection}
use lakshmana_core.Firestore.Txn.{TxnResult, returned, txn_error, commit}
use lakshmana_core.Runs.{
  Time, minutes, is_pending, is_running, is_succeeded, is_failed, lease_held_at, GatekeeperRun,
  gate, GatekeeperRunRequest, to_request,
}
use lakshmana_core.Runs.Settle.{SweepOutcome, rescued, stuck, is_run_running}
use lakshmana_core.Store.{rescue_txn, active_runs}

-- The loop of `actionable_gate`.
unfoldable pub actionable_loop : List Gate → GatekeeperRun → Option Gate
actionable_loop [] run = none
actionable_loop (g ∷ rest) run =
    let later = actionable_loop rest run in
    if is_failed (gate run g).state
    then none
    else if not (is_pending (gate run g).state)
    then later
    else elim (prior_gate g) [
      | none ↦ some g
      | some previous ↦ if is_succeeded (gate run previous).state then some g else none
    ]

unfoldable pub actionable_gate : GatekeeperRun → Option Gate
unfolding actionable_loop
actionable_gate run = actionable_loop gate_order run

abbrev pub run_overdue_hours : ℕ
run_overdue_hours = 2

-- `_flag_overdue`: whether the run is reported.
unfoldable pub is_overdue : GatekeeperRun → Time → Bool
is_overdue run now = is_run_running run.state && elim run.created_at [
  | none ↦ false
  | some created ↦ not (ltb now (created + run_overdue_hours * minutes 60))
]

-- `run.updated_at or run.created_at`
abbrev pub idle_since : GatekeeperRun → Option Time
idle_since run = elim run.updated_at [ some t ↦ some t | none ↦ run.created_at ]

-- `_republish_stalled`: the gate that is published again.
unfoldable pub stalled_gate : GatekeeperRun → ℕ → Time → Option Gate
stalled_gate run grace_minutes now = elim (idle_since run) [
  | none ↦ none
  | some since ↦ if ltb now (since + minutes grace_minutes) then none else actionable_gate run
]

-- The gates that `_sweep_run` rescues.
unfoldable pub expired_gates : GatekeeperRun → Time → List Gate
expired_gates run now =
    select (λ g. is_running (gate run g).state && not (lease_held_at (gate run g) now)) gate_order

pub record SweepReport : Type 0 where
  pub scanned : ℕ
  pub rescued_gates : List (String × Gate)
  pub stuck_gates : List (String × Gate)
  pub republished_gates : List (String × Gate)
  pub overdue : List String

abbrev pub new_report : SweepReport
new_report = record {
  scanned = 0;
  rescued_gates = [];
  stuck_gates = [];
  republished_gates = [];
  overdue = [];
}

-- What a pass hands on: the collection, the report, the messages published so far, and whether a
-- transaction's exception has ended the sweep.
pub record Sweeping (S : Type 0) : Type 0 where
  pub state : S
  pub report : SweepReport
  pub published : List GatekeeperRunRequest
  pub raised : Bool

-- A sweep has one transaction at most for each run and gate, so contention and other clients' work are
-- given by these.
module _ (col : Collection GatekeeperRun) (aborted : String → Gate → ℕ → Bool)
    (others : String → Gate → ℕ → col.State → col.State) (max_sweeps grace_minutes : ℕ)
    (now server : Time) where
  open col use {State}

  unfoldable pub rescue_one : GatekeeperRun → Gate → Sweeping State → Sweeping State
  rescue_one run g w =
      let (s', outcome) =
        commit (aborted run.run_request_id g) (others run.run_request_id g)
          (rescue_txn col run.run_request_id g max_sweeps now server) w.state in
      let after = record w { state = s' } in
      elim outcome [
        | txn_error ↦ record after { raised = true }
        | returned none ↦ after
        | returned (some stuck) ↦ record after {
          report = record w.report {
            stuck_gates = w.report.stuck_gates ++ (run.run_request_id, g) ∷ [];
          };
        }
        | returned (some rescued) ↦ record after {
          report = record w.report {
            rescued_gates = w.report.rescued_gates ++ (run.run_request_id, g) ∷ [];
          };
          published = w.published ++ to_request run g sweeper ∷ [];
        }
        | returned (some SweepOutcome.republished) ↦ after
      ]

  unfoldable pub rescue_all : GatekeeperRun → List Gate → Sweeping State → Sweeping State
  rescue_all run [] w = w
  rescue_all run (g ∷ rest) w =
      let w' = rescue_one run g w in
      let later = rescue_all run rest w' in if w'.raised then w' else later

  unfoldable pub republish_stalled : GatekeeperRun → Sweeping State → Sweeping State
  republish_stalled run w = elim (stalled_gate run grace_minutes now) [
    | none ↦ w
    | some g ↦ record w {
      report = record w.report {
        republished_gates = w.report.republished_gates ++ (run.run_request_id, g) ∷ [];
      };
      published = w.published ++ to_request run g sweeper ∷ [];
    }
  ]

  unfoldable pub flag_overdue : GatekeeperRun → Sweeping State → Sweeping State
  flag_overdue run w =
      if is_overdue run now
      then record w {
        report = record w.report { overdue = w.report.overdue ++ run.run_request_id ∷ [] };
      }
      else w

  unfoldable pub sweep_run : GatekeeperRun → Sweeping State → Sweeping State
  sweep_run run w =
      let w' = flag_overdue run w in
      elim (expired_gates run now) [
        | g ∷ rest ↦ rescue_all run (g ∷ rest) w'
        | [] ↦
            if any (λ g. is_running (gate run g).state) gate_order
            then w'
            else republish_stalled run w'
      ]

  unfoldable pub sweep_loop : List GatekeeperRun → Sweeping State → Sweeping State
  sweep_loop [] w = w
  sweep_loop (run ∷ rest) w =
      let w' =
        sweep_run run (record w { report = record w.report { scanned = w.report.scanned + 1 } }) in
      let later = sweep_loop rest w' in if w'.raised then w' else later

  unfoldable pub sweep : State → Sweeping State
  sweep s =
      sweep_loop (active_runs col s)
        (record { state = s; report = new_report; published = []; raised = false })
