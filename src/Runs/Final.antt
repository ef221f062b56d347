-- ===== src/Runs/Final.antt =====
-- What no transaction of gatekeeper/runs/store.py undoes.
use lakshmana_core.Prelude.{
  ◌⊎◌, inl, inr, ℕ, String, Option, none, some, ◌≡◌, ◌≢◌, refl, arith, ap, ◌∙◌,
}
use lakshmana_core.Enums.{Gate, g1_neutral, RunState, GateState}
use lakshmana_core.Runs.{Time, Counters, GatekeeperRun, GatekeeperRunRequest, gate}
use lakshmana_core.Runs.Claim.{reject_run, reject_claim, claim_updates}
use lakshmana_core.Runs.Settle.{Ending, SweepOutcome, settle, renew, rescue, fail_run, finalize_run}
use lakshmana_core.Runs.Step.{
  Step, claim, end_gate, heartbeat, sweep, fail, finalize, supersede, Reach, here, next,
}
use lakshmana_core.Runs.Invariant.{IsConsistent}

-- Everything that stays as it was at the creation of a document.
pub record SameIdentity (run run' : GatekeeperRun) : Type 0 where
  pub schema : run'.schema_version ≡ run.schema_version
  pub id : run'.run_request_id ≡ run.run_request_id
  pub intake : run'.intake_id ≡ run.intake_id
  pub stage3 : run'.stage3_run_id ≡ run.stage3_run_id
  pub judge : run'.judge_mode ≡ run.judge_mode
  pub snapshot : run'.config_snapshot ≡ run.config_snapshot
  pub created : run'.created_at ≡ run.created_at

pub Step-SameIdentity : {run run' : GatekeeperRun} → Step run run' → SameIdentity run run'
unfolding claim_updates settle renew rescue fail_run finalize_run
Step-SameIdentity {run} (claim request owner now lease server h) = ground arith
Step-SameIdentity {run} (end_gate g owner ending counters now server h) = ground arith
Step-SameIdentity {run} (heartbeat g owner now lease server h) = ground arith
Step-SameIdentity {run} (sweep g max_sweeps now server outcome h) = ground arith
Step-SameIdentity {run} (fail code detail now server h) = ground arith
Step-SameIdentity {run} (finalize totals server h) = ground arith
Step-SameIdentity {run} (supersede by server h) = ground arith

-- Once frozen at creation, a run's calibration, judge mode and identity never change.
pub Reach-SameIdentity : {run run' : GatekeeperRun} → Reach run run' → SameIdentity run run'
Reach-SameIdentity here = ground arith
Reach-SameIdentity (next r st) = ground (arith, Reach-SameIdentity r, Step-SameIdentity st)

-- The entry of gate `g` is the same in both documents.
abbrev SameGate : Gate → GatekeeperRun → GatekeeperRun → Type 0
SameGate g run run' = gate run' g ≡ gate run g

claim-SameGate :
    (run : GatekeeperRun) (request : GatekeeperRunRequest) (g h : Gate) (owner : String)
    (now lease server : Time)
    → request.gate_id ≡ h
    → reject_claim run request now ≡ none
    → (gate run g).state ≡ GateState.succeeded
    → SameGate g run (claim_updates run h owner now lease server)
unfolding reject_claim claim_updates
claim-SameGate run request g h owner now lease server p r s = ground arith

settle-SameGate :
    (run : GatekeeperRun) (g h : Gate) (owner : String) (ending : Ending)
    (counters : Option Counters) (now server : Time) {run' : GatekeeperRun}
    → settle run h owner ending counters now server ≡ some run'
    → (gate run g).state ≡ GateState.succeeded
    → SameGate g run run'
unfolding settle
settle-SameGate run g h owner ending counters now server r s = ground arith

renew-SameGate :
    (run : GatekeeperRun) (g h : Gate) (owner : String) (now lease server : Time)
    {run' : GatekeeperRun}
    → renew run h owner now lease server ≡ some run'
    → (gate run g).state ≡ GateState.succeeded
    → SameGate g run run'
unfolding renew
renew-SameGate run g h owner now lease server r s = ground arith

rescue-SameGate :
    (run : GatekeeperRun) (g h : Gate) (max_sweeps : ℕ) (now server : Time) {o : SweepOutcome}
    {run' : GatekeeperRun}
    → rescue run h max_sweeps now server ≡ some (o, run')
    → (gate run g).state ≡ GateState.succeeded
    → SameGate g run run'
unfolding rescue
rescue-SameGate run g h max_sweeps now server r s = ground arith

Step-SameGate :
    {run run' : GatekeeperRun} (g : Gate)
    → Step run run'
    → (gate run g).state ≡ GateState.succeeded
    → SameGate g run run'
unfolding fail_run finalize_run
Step-SameGate {run} g (claim request owner now lease server h) s =
    claim-SameGate run request g request.gate_id owner now lease server refl h s
Step-SameGate {run} g (end_gate k owner ending counters now server h) s =
    settle-SameGate run g k owner ending counters now server h s
Step-SameGate {run} g (heartbeat k owner now lease server h) s =
    renew-SameGate run g k owner now lease server h s
Step-SameGate {run} g (sweep k max_sweeps now server outcome h) s =
    rescue-SameGate run g k max_sweeps now server h s
Step-SameGate {run} g (fail code detail now server h) s = ground arith
Step-SameGate {run} g (finalize totals server h) s = ground arith
Step-SameGate {run} g (supersede by server h) s = refl

-- A gate that has SUCCEEDED keeps its whole entry, counters included, through every later
-- transaction: no message of any kind claims it again.
pub Reach-SameGate :
    {run run' : GatekeeperRun} (g : Gate)
    → Reach run run'
    → (gate run g).state ≡ GateState.succeeded
    → gate run' g ≡ gate run g
Reach-SameGate g here s = refl
Reach-SameGate g (next r st) s = let ih = Reach-SameGate g r s in Step-SameGate g st (rw ih s) ∙ ih

-- A run whose four gates have SUCCEEDED.
pub record IsCascaded (run : GatekeeperRun) : Type 0 where
  pub s1 : run.gates.g1.state ≡ GateState.succeeded
  pub s2 : run.gates.g2.state ≡ GateState.succeeded
  pub s3 : run.gates.g3.state ≡ GateState.succeeded
  pub s4 : run.gates.g4.state ≡ GateState.succeeded

-- A SUCCEEDED run has four SUCCEEDED gates.
pub succeeded-IsCascaded :
    {run : GatekeeperRun} → IsConsistent run → run.state ≡ RunState.succeeded → IsCascaded run
succeeded-IsCascaded c s = ground arith

-- Nothing but a SUPERSEDED run, and a SUCCEEDED or FAILED one whose gates have all SUCCEEDED.
abbrev IsFinal : GatekeeperRun → Type 0
IsFinal run =
    (run.state ≡ RunState.superseded)
    ⊎ (((run.state ≡ RunState.succeeded) ⊎ (run.state ≡ RunState.failed)) × IsCascaded run)

reject_final :
    (run : GatekeeperRun) (request : GatekeeperRunRequest) (g : Gate) (now : Time)
    → request.gate_id ≡ g
    → IsFinal run
    → reject_claim run request now ≢ none
unfolding reject_claim
reject_final run request g now p (inl s) h = cc (ap (λ x. reject_run x request.mode) s)
reject_final run request g1_neutral now p (inr s) h = ground arith
reject_final run request _ now p (inr s) h = ground arith

settle_final :
    (run : GatekeeperRun) (g : Gate) (owner : String) (ending : Ending) (counters : Option Counters)
    (now server : Time)
    → IsFinal run
    → settle run g owner ending counters now server ≡ none
unfolding settle
settle_final run g owner ending counters now server s = ground arith

no_Step : {run run' : GatekeeperRun} → IsFinal run → ¬ (Step run run')
unfolding renew rescue fail_run finalize_run
no_Step {run} s (claim request owner now lease server h) =
    reject_final run request request.gate_id now refl s h
no_Step {run} s (end_gate g owner ending counters now server h) =
    cc (settle_final run g owner ending counters now server s)
no_Step s (heartbeat g owner now lease server h) = ground arith
no_Step s (sweep g max_sweeps now server outcome h) = ground arith
no_Step s (fail code detail now server h) = ground arith
no_Step s (finalize totals server h) = ground arith
no_Step s (supersede by server h) = ground arith

-- A SUPERSEDED run and a consistent SUCCEEDED run are final: no transaction changes the document.
pub closed-no_Step :
    {run run' : GatekeeperRun}
    → IsConsistent run
    → (run.state ≡ RunState.superseded) ⊎ (run.state ≡ RunState.succeeded)
    → ¬ (Step run run')
closed-no_Step c (inl s) = no_Step (inl s)
closed-no_Step c (inr s) = no_Step (inr (inl s, succeeded-IsCascaded c s))

-- A FAILED run whose four gates have SUCCEEDED, which is what a failed reconciliation leaves, is
-- final too: every claim at every gate is rejected, whatever its mode, and no transaction changes
-- the document.
pub unreconciled-no_Step :
    {run run' : GatekeeperRun}
    → run.state ≡ RunState.failed
    → IsCascaded run
    → ((request : GatekeeperRunRequest) (now : Time) → reject_claim run request now ≢ none)
      × ¬ (Step run run')
unreconciled-no_Step {run} s all = (
  λ request now. reject_final run request request.gate_id now refl (inr (inr s, all)),
  no_Step (inr (inr s, all)),
)
