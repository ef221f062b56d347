-- ===== src/Runs/Invariant.antt =====
-- What every stored run document satisfies, whatever transactions made it.
use lakshmana_core.Prelude.{ℕ, String, Option, none, some, ◌≡◌, ◌≢◌, ◌↔◌, refl, false, arith}
use lakshmana_core.Enums.{Gate, g1_neutral, RunState, GateState, JudgeMode, ErrorCode}
use lakshmana_core.Runs.{
  Counters, RunTotals, Time, GateEntry, is_pending, GatekeeperRun, GatekeeperRunRequest,
  ConfigSnapshot,
}
use lakshmana_core.Runs.Claim.{reject_claim, claim_updates, created_run}
use lakshmana_core.Runs.Settle.{Ending, SweepOutcome, settle, renew, rescue, fail_run, finalize_run}
use lakshmana_core.Runs.Step.{
  Step, claim, end_gate, heartbeat, sweep, fail, finalize, supersede, Reach, here, next,
}

-- One gate's entry: a lease is recorded exactly while the gate is RUNNING, an error exactly while it
-- is FAILED, a gate that was never claimed has no attempt, and no gate is ever SKIPPED.
pub record IsEntry (e : GateEntry) : Type 0 where
  pub owner_running : (e.state ≡ GateState.running) ↔ (e.lease_owner ≢ none)
  pub expiry_running : (e.state ≡ GateState.running) ↔ (e.lease_expires_at ≢ none)
  pub error_failed : (e.state ≡ GateState.failed) ↔ (e.error_code ≢ none)
  pub not_skipped : e.state ≢ GateState.skipped
  pub attempted : e.attempt ≡ 0 → e.state ≡ GateState.pending

-- The document: its four entries, a gate is past PENDING only when the gate before it SUCCEEDED, and
-- a SUCCEEDED run has four SUCCEEDED gates.
pub record IsConsistent (run : GatekeeperRun) : Type 0 where
  pub e1 : IsEntry run.gates.g1
  pub e2 : IsEntry run.gates.g2
  pub e3 : IsEntry run.gates.g3
  pub e4 : IsEntry run.gates.g4
  pub after1 : is_pending run.gates.g2.state ≡ false → run.gates.g1.state ≡ GateState.succeeded
  pub after2 : is_pending run.gates.g3.state ≡ false → run.gates.g2.state ≡ GateState.succeeded
  pub after3 : is_pending run.gates.g4.state ≡ false → run.gates.g3.state ≡ GateState.succeeded
  pub complete : run.state ≡ RunState.succeeded → run.gates.g4.state ≡ GateState.succeeded

-- The document that the first claim creates is consistent.
pub created_run-IsConsistent :
    (request : GatekeeperRunRequest) (owner : String) (judge : JudgeMode)
    (snapshot : ConfigSnapshot) (now lease server : Time)
    → IsConsistent (created_run request owner judge snapshot now lease server)
unfolding created_run
created_run-IsConsistent request owner judge snapshot now lease server = ground arith

claim-IsConsistent :
    (run : GatekeeperRun) (request : GatekeeperRunRequest) (g : Gate) (owner : String)
    (now lease server : Time)
    → request.gate_id ≡ g
    → reject_claim run request now ≡ none
    → IsConsistent run
    → IsConsistent (claim_updates run g owner now lease server)
unfolding reject_claim claim_updates
claim-IsConsistent run request g1_neutral owner now lease server p h c = ground arith
claim-IsConsistent run request _ owner now lease server p h c = ground arith

settle-IsConsistent :
    (run : GatekeeperRun) (g : Gate) (owner : String) (ending : Ending) (counters : Option Counters)
    (now server : Time) {run' : GatekeeperRun}
    → settle run g owner ending counters now server ≡ some run'
    → IsConsistent run
    → IsConsistent run'
unfolding settle
settle-IsConsistent run g1_neutral owner ending counters now server h c = ground arith
settle-IsConsistent run _ owner ending counters now server h c = ground arith

renew-IsConsistent :
    (run : GatekeeperRun) (g : Gate) (owner : String) (now lease server : Time)
    {run' : GatekeeperRun}
    → renew run g owner now lease server ≡ some run'
    → IsConsistent run
    → IsConsistent run'
unfolding renew
renew-IsConsistent run g1_neutral owner now lease server h c = ground arith
renew-IsConsistent run _ owner now lease server h c = ground arith

rescue-IsConsistent :
    (run : GatekeeperRun) (g : Gate) (max_sweeps : ℕ) (now server : Time) {o : SweepOutcome}
    {run' : GatekeeperRun}
    → rescue run g max_sweeps now server ≡ some (o, run')
    → IsConsistent run
    → IsConsistent run'
unfolding rescue
rescue-IsConsistent run g1_neutral max_sweeps now server h c = ground arith
rescue-IsConsistent run _ max_sweeps now server h c = ground arith

fail_run-IsConsistent :
    (run : GatekeeperRun) (code : ErrorCode) (detail : String) (now server : Time)
    {run' : GatekeeperRun}
    → fail_run run code detail now server ≡ some run'
    → IsConsistent run
    → IsConsistent run'
unfolding fail_run
fail_run-IsConsistent run code detail now server h c = ground arith

finalize_run-IsConsistent :
    (run : GatekeeperRun) (totals : RunTotals) (server : Time) {run' : GatekeeperRun}
    → finalize_run run totals server ≡ some run'
    → IsConsistent run
    → IsConsistent run'
unfolding finalize_run
finalize_run-IsConsistent run totals server h c = ground arith

-- Every transaction of the store, by any caller at any time, keeps a run document consistent.
pub Step-IsConsistent :
    {run run' : GatekeeperRun} → Step run run' → IsConsistent run → IsConsistent run'
Step-IsConsistent {run} (claim request owner now lease server h) c =
    claim-IsConsistent run request request.gate_id owner now lease server refl h c
Step-IsConsistent {run} (end_gate g owner ending counters now server h) c =
    settle-IsConsistent run g owner ending counters now server h c
Step-IsConsistent {run} (heartbeat g owner now lease server h) c =
    renew-IsConsistent run g owner now lease server h c
Step-IsConsistent {run} (sweep g max_sweeps now server outcome h) c =
    rescue-IsConsistent run g max_sweeps now server h c
Step-IsConsistent {run} (fail code detail now server h) c =
    fail_run-IsConsistent run code detail now server h c
Step-IsConsistent {run} (finalize totals server h) c =
    finalize_run-IsConsistent run totals server h c
Step-IsConsistent {run} (supersede by server h) c = ground arith

-- A run document is consistent after any sequence of transactions on a consistent one.
pub Reach-IsConsistent :
    {run run' : GatekeeperRun} → Reach run run' → IsConsistent run → IsConsistent run'
Reach-IsConsistent here c = c
Reach-IsConsistent (next r st) c = Step-IsConsistent st (Reach-IsConsistent r c)
