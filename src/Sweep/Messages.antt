-- ===== src/Sweep/Messages.antt =====
-- The gate that a stalled run waits on.
use lakshmana_core.Prelude.{none, some, ◌≡◌, ◌↔◌, true, false, arith}
use lakshmana_core.Enums.{Gate, g1_neutral, GateState, TriggeredBy}
use lakshmana_core.Enums.Order.{prior_gate}
use lakshmana_core.Runs.{Time, GatekeeperRun, gate, to_request}
use lakshmana_core.Runs.Claim.{reject_claim, prior_unfinished, is_live}
use lakshmana_core.Runs.Invariant.{IsConsistent}
use lakshmana_core.Sweep.{actionable_loop, actionable_gate}

-- The message that the sweeper sends again for a stalled live run is accepted by the claim, at any
-- later time.
pub actionable_gate-claim :
    (run : GatekeeperRun) (g : Gate) (by : TriggeredBy) (later : Time)
    → IsConsistent run
    → is_live run.state ≡ true
    → actionable_gate run ≡ some g
    → reject_claim run (to_request run g by) later ≡ none
unfolding actionable_gate actionable_loop reject_claim to_request prior_gate
actionable_gate-claim run g1_neutral by later c l a = ground arith
actionable_gate-claim run _ by later c l a = ground arith

-- In a consistent run, the sweeper finds `g` exactly when a claim at `g` would follow the chain: `g` is
-- PENDING and the gate before it, if there is one, has SUCCEEDED.
pub actionable_gate-pending :
    (run : GatekeeperRun) (g : Gate)
    → IsConsistent run
    → (actionable_gate run ≡ some g)
      ↔ (((gate run g).state ≡ GateState.pending) × (prior_unfinished run g ≡ false))
unfolding actionable_gate actionable_loop prior_gate prior_unfinished
actionable_gate-pending run g1_neutral c = ground arith
actionable_gate-pending run _ c = ground arith
