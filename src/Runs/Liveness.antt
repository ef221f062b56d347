-- ===== src/Runs/Liveness.antt =====
-- The messages that the program sends are claimable when they are sent: the chain message after a
-- commit, and the sweeper's message after a rescue.
use lakshmana_core.Prelude.{ℕ, String, Option, none, some, ◌≡◌, ◌≢◌, true, arith}
use lakshmana_core.Enums.{Gate, g1_neutral, RunState, GateState, TriggeredBy, from_gate}
use lakshmana_core.Enums.Order.{next_gate}
use lakshmana_core.Runs.{Time, Counters, GatekeeperRun, GatekeeperRunRequest, gate, to_request}
use lakshmana_core.Runs.Claim.{reject_claim, is_live}
use lakshmana_core.Runs.Settle.{committed, rescued, settle, rescue}
use lakshmana_core.Runs.Invariant.{IsConsistent}

-- After a live, consistent run's gate is committed, the message for the next gate that the worker
-- then publishes is accepted by the claim, at any later time.
pub commit-claim :
    (run : GatekeeperRun) (g h : Gate) (owner : String) (counters : Option Counters)
    (now later server : Time) (by : TriggeredBy) {run' : GatekeeperRun}
    → IsConsistent run
    → is_live run.state ≡ true
    → settle run g owner committed counters now server ≡ some run'
    → next_gate g ≡ some h
    → reject_claim run' (to_request run' h by) later ≡ none
unfolding settle reject_claim to_request next_gate
commit-claim run g1_neutral h owner counters now later server by c l s n = ground arith
commit-claim run _ h owner counters now later server by c l s n = ground arith

-- After a rescue, the message that the sweeper publishes is accepted by the claim, at any later time.
pub rescue-claim :
    (run : GatekeeperRun) (g : Gate) (max_sweeps : ℕ) (now later server : Time) (by : TriggeredBy)
    {run' : GatekeeperRun}
    → IsConsistent run
    → rescue run g max_sweeps now server ≡ some (rescued, run')
    → reject_claim run' (to_request run g by) later ≡ none
unfolding rescue reject_claim to_request
rescue-claim run g1_neutral max_sweeps now later server by c h = ground arith
rescue-claim run _ max_sweeps now later server by c h = ground arith

-- At a FAILED gate of a consistent run that is not SUPERSEDED, a claim is accepted exactly when its
-- message is an operator's FROM_GATE one.
pub failed-retrigger :
    (run : GatekeeperRun) (request : GatekeeperRunRequest) (g : Gate) (now : Time)
    → IsConsistent run
    → run.state ≢ RunState.superseded
    → request.gate_id ≡ g
    → (gate run g).state ≡ GateState.failed
    → (reject_claim run request now ≡ none → request.mode ≡ from_gate)
      × (request.mode ≡ from_gate → reject_claim run request now ≡ none)
unfolding reject_claim
failed-retrigger run request g1_neutral now c s p f = ground arith
failed-retrigger run request _ now c s p f = ground arith
