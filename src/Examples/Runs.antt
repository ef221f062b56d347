-- ===== src/Examples/Runs.antt =====
-- One run document.

use lakshmana_core.Prelude.{
  [], ◌∷◌, ◌+◌, String, str_eq, eq_iff, none, some, ◌≡◌, ◌≢◌, refl, true, false, inl, arith, ◌<◌,
}
use lakshmana_core.Enums.{
  g1_neutral, g2_corroboration, RunState, GateState, full, from_gate, sweeper,
}
use lakshmana_core.Enums.Order.{prior_gate}
use lakshmana_core.Runs.{GatekeeperRun, gate, to_request}
use lakshmana_core.Runs.Claim.{reject_claim, claim_updates, gate_leased}
use lakshmana_core.Runs.Settle.{
  committed, settle, renew, rescue, rescued, rescued_run, settled_entry,
}
use lakshmana_core.Runs.Step.{Step, Reach, here, next, end_gate}
use lakshmana_core.Runs.Invariant.{IsConsistent}
use lakshmana_core.Runs.Spec.{advanced, Moves, progress}
use lakshmana_core.Runs.Refine.{Reach-Moves}
use lakshmana_core.Runs.Final.{Reach-SameGate, IsCascaded, closed-no_Step}
use lakshmana_core.Runs.Lease.{claim-claim, claim-holder, rescue-settle}
use lakshmana_core.Runs.Liveness.{rescue-claim}
use lakshmana_core.Sweep.{actionable_gate}
use lakshmana_core.Sweep.Messages.{actionable_gate-claim}
use lakshmana_core.Examples.{message, opened_run, cascaded_run, waiting_run, failed_run}

waiting-accepts : reject_claim waiting_run (message "r1" g2_corroboration full) 200 ≡ none
unfolding reject_claim
waiting-accepts = refl

claim-claim_example :
    reject_claim
      (claim_updates waiting_run g2_corroboration "worker-2" 200 50 201)
      (message "r1" g2_corroboration from_gate)
      249
    ≡ some gate_leased
claim-claim_example =
    claim-claim waiting_run (message "r1" g2_corroboration full)
      (message "r1" g2_corroboration from_gate) "worker-2" 200 249 50 201 waiting-accepts refl
      (omega arith)

two_workers : ¬ (◌≡◌ {A = String} "worker-3" "worker-2")
two_workers e =
    let same : str_eq "worker-3" "worker-2" ≡ true = (eq_iff "worker-3" "worker-2").1 e in
    let apart : str_eq "worker-3" "worker-2" ≡ false = refl in cc (same, apart)

claim-holder_example :
    let claimed = claim_updates waiting_run g2_corroboration "worker-2" 200 50 201 in
    (settle claimed g2_corroboration "worker-2" committed none 210 211 ≢ none)
    × (renew claimed g2_corroboration "worker-2" 210 50 211 ≢ none)
    × (settle claimed g2_corroboration "worker-3" committed none 210 211 ≡ none)
    × (renew claimed g2_corroboration "worker-3" 210 50 211 ≡ none)
    × (210 < 200 + 50 → rescue claimed g2_corroboration 3 210 211 ≡ none)
claim-holder_example =
    claim-holder waiting_run g2_corroboration "worker-2" "worker-3" committed none 3 200 210 50 201
      211 two_workers

opened-rescued :
    rescue opened_run g1_neutral 3 200 201 ≡ some (rescued, rescued_run opened_run g1_neutral 201)
unfolding rescue
opened-rescued = refl

rescue-settle_example :
    let left = rescued_run opened_run g1_neutral 201 in
    (settle left g1_neutral "worker-1" committed none 210 211 ≡ none)
    × (renew left g1_neutral "worker-1" 210 50 211 ≡ none)
rescue-settle_example =
    rescue-settle opened_run g1_neutral "worker-1" committed none 3 200 210 50 201 211 rescued
      opened-rescued

opened-IsConsistent : IsConsistent opened_run
opened-IsConsistent = ground arith

committed_run : GatekeeperRun
committed_run = record opened_run {
  gates = record opened_run.gates { g1 = settled_entry opened_run.gates.g1 committed none 120 };
  updated_at = some 121;
}

opened-committed :
    settle opened_run g1_neutral "worker-1" committed none 120 121 ≡ some committed_run
unfolding settle committed_run
opened-committed = refl

rescue-claim_example :
    reject_claim
      (rescued_run opened_run g1_neutral 201)
      (to_request opened_run g1_neutral sweeper)
      300
    ≡ none
rescue-claim_example =
    rescue-claim opened_run g1_neutral 3 200 300 201 sweeper opened-IsConsistent opened-rescued

waiting-IsConsistent : IsConsistent waiting_run
waiting-IsConsistent = ground arith

failed-IsConsistent : IsConsistent failed_run
failed-IsConsistent = ground arith

not_superseded : RunState.failed ≢ RunState.superseded
not_superseded = ground arith

opened-Reach : Reach opened_run committed_run
opened-Reach = next here (end_gate g1_neutral "worker-1" committed none 120 121 opened-committed)

Reach-Moves_example :
    Moves (progress opened_run) (advanced "worker-1" ∷ []) (progress committed_run)
unfolding opened-Reach
Reach-Moves_example = Reach-Moves opened-Reach opened-IsConsistent

claimed_run : GatekeeperRun
unfolding claim_updates
claimed_run = claim_updates committed_run g2_corroboration "worker-2" 200 50 201

committed-accepts : reject_claim committed_run (message "r1" g2_corroboration full) 200 ≡ none
unfolding reject_claim committed_run
committed-accepts = refl

committed-Reach : Reach committed_run claimed_run
unfolding claimed_run
committed-Reach =
    next here
      (Step.claim (message "r1" g2_corroboration full) "worker-2" 200 50 201 committed-accepts)

committed-succeeded : (gate committed_run g1_neutral).state ≡ GateState.succeeded
unfolding committed_run
committed-succeeded = refl

Reach-SameGate_example : gate claimed_run g1_neutral ≡ gate committed_run g1_neutral
Reach-SameGate_example = Reach-SameGate g1_neutral committed-Reach committed-succeeded

abbrev superseded : GatekeeperRun
superseded = record cascaded_run { state = RunState.superseded }

superseded-IsConsistent : IsConsistent superseded
superseded-IsConsistent = ground arith

closed-no_Step_example : ¬ (Step superseded opened_run)
closed-no_Step_example = closed-no_Step superseded-IsConsistent (inl refl)

abbrev unreconciled : GatekeeperRun
unreconciled = record cascaded_run { state = RunState.failed }

unreconciled-IsCascaded : IsCascaded unreconciled
unreconciled-IsCascaded = ground arith

waiting-actionable : actionable_gate waiting_run ≡ some g2_corroboration
unfolding actionable_gate prior_gate
waiting-actionable = refl

actionable_gate-claim_example :
    reject_claim waiting_run (to_request waiting_run g2_corroboration sweeper) 300 ≡ none
actionable_gate-claim_example =
    actionable_gate-claim waiting_run g2_corroboration sweeper 300 waiting-IsConsistent refl
      waiting-actionable
