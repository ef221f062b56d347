-- ===== src/Runs/Step.antt =====
-- Every way in which a transaction of gatekeeper/runs/store.py changes an existing run document, as
-- a relation: any caller, at any time, with any arguments.
use lakshmana_core.Prelude.{ℕ, String, Option, none, some, ◌≡◌, true}
use lakshmana_core.Enums.{Gate, ErrorCode}
use lakshmana_core.Runs.{Time, Counters, RunTotals, GatekeeperRun, GatekeeperRunRequest}
use lakshmana_core.Runs.Claim.{reject_claim, claim_updates, is_live, superseded_run}
use lakshmana_core.Runs.Settle.{Ending, settle, renew, SweepOutcome, rescue, fail_run, finalize_run}

pub data Step (run : GatekeeperRun) : GatekeeperRun → Type 0 where
  claim :
      (request : GatekeeperRunRequest) (owner : String) (now lease server : Time)
      → reject_claim run request now ≡ none
      → Step run (claim_updates run request.gate_id owner now lease server)
  end_gate :
      (g : Gate) (owner : String) (ending : Ending) (counters : Option Counters) (now server : Time)
      {run' : GatekeeperRun}
      → settle run g owner ending counters now server ≡ some run'
      → Step run run'
  heartbeat :
      (g : Gate) (owner : String) (now lease server : Time) {run' : GatekeeperRun}
      → renew run g owner now lease server ≡ some run'
      → Step run run'
  sweep :
      (g : Gate) (max_sweeps : ℕ) (now server : Time) (outcome : SweepOutcome)
      {run' : GatekeeperRun}
      → rescue run g max_sweeps now server ≡ some (outcome, run')
      → Step run run'
  fail :
      (code : ErrorCode) (detail : String) (now server : Time) {run' : GatekeeperRun}
      → fail_run run code detail now server ≡ some run'
      → Step run run'
  finalize :
      (totals : RunTotals) (server : Time) {run' : GatekeeperRun}
      → finalize_run run totals server ≡ some run'
      → Step run run'
  supersede :
      (by : String) (server : Time)
      → is_live run.state ≡ true
      → Step run (superseded_run run by server)

-- Any number of transactions, one after another.
pub data Reach (run : GatekeeperRun) : GatekeeperRun → Type 0 where
  here : Reach run run
  next : {mid end : GatekeeperRun} → Reach run mid → Step mid end → Reach run end
