-- ===== src/Store/Revive.antt =====
-- FROM_GATE: what a retrigger does to the other runs of its Stage 3 run.
use lakshmana_core.Prelude.{String, str_eq, none, some, ◌≡◌, refl, false, ◌∙◌, ap}
use lakshmana_core.Enums.{RunState, GateState, from_gate}
use lakshmana_core.Firestore.{Collection}
use lakshmana_core.Firestore.Laws.{find-set_self, find-set_ne}
use lakshmana_core.Runs.{GatekeeperRun, GatekeeperRunRequest, gate}
use lakshmana_core.Runs.Claim.{reject_claim, claim_updates}
use lakshmana_core.Runs.Invariant.{IsConsistent}
use lakshmana_core.Runs.Liveness.{failed-retrigger}
use lakshmana_core.Store.{Claimant, claim_existing, claim_txn}

module _ (col : Collection GatekeeperRun) where
  open col use {State, find, set}

  claim_txn-accepted :
      (request : GatekeeperRunRequest) (c : Claimant) (run : GatekeeperRun) (s : State)
      → find s request.run_request_id ≡ some run
      → reject_claim run request c.now ≡ none
      → (claim_txn col request c s).0
        ≡ set s request.run_request_id
            (claim_updates run request.gate_id c.lease_owner c.now c.lease c.server)
  unfolding claim_txn claim_existing
  claim_txn-accepted request c run s f r = rw (claim_txn, f, claim_existing, r) refl

  -- A FROM_GATE message for a consistent FAILED run, at its FAILED gate, always makes the run RUNNING,
  -- and leaves every other document as it is, whatever its state: neither is the claim refused because
  -- of a live successor of the same Stage 3 run, nor is such a successor superseded.
  pub retrigger-alone :
      (request : GatekeeperRunRequest) (c : Claimant) (run : GatekeeperRun) (s : State)
      → find s request.run_request_id ≡ some run
      → IsConsistent run
      → run.state ≡ RunState.failed
      → (gate run request.gate_id).state ≡ GateState.failed
      → request.mode ≡ from_gate
      → ((revived : GatekeeperRun) × (find (claim_txn col request c s).0 request.run_request_id
            ≡ some revived)
          × (revived.state ≡ RunState.running)
          × (revived.stage3_run_id ≡ run.stage3_run_id))
        × ((j : String)
            → str_eq request.run_request_id j ≡ false
            → find (claim_txn col request c s).0 j ≡ find s j)
  unfolding claim_updates
  retrigger-alone request c run s f ok failed at mode =
      let accepted =
        (failed-retrigger run request request.gate_id c.now ok
            (λ (e : run.state ≡ RunState.superseded). cc (failed, e)) refl at).1
          mode in
      let after = claim_txn-accepted request c run s f accepted in
      let revived = claim_updates run request.gate_id c.lease_owner c.now c.lease c.server in
      (
        (
          revived,
          ap (λ t. find t request.run_request_id) after
              ∙ find-set_self col s request.run_request_id revived,
          refl,
          refl,
        ),
        λ j apart.
            ap (λ t. find t j) after ∙ find-set_ne col s request.run_request_id j revived apart,
      )
