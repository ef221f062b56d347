-- ===== src/Examples/Stores.antt =====
-- The store, the sweeper and FINALIZE.

use lakshmana_core.Prelude.{
  ◌⊎◌, ℕ, String, str_eq, none, some, List, [], ◌∷◌, ◌≡◌, ◌≢◌, refl, true, false, arith, All,
}
use lakshmana_core.Enums.{
  g1_neutral, g2_corroboration, RunState, full, from_gate, human, gk_e_firestore_txn,
}
use lakshmana_core.Firestore.Memory.{find_in, Log}
use lakshmana_core.Runs.{Time, GatekeeperRun, GatekeeperRunRequest}
use lakshmana_core.Runs.Claim.{reject_claim, may_open, created_run}
use lakshmana_core.Runs.Settle.{committed}
use lakshmana_core.Store.{claim_txn, create_and_claim, supersede_all, predecessors}
use lakshmana_core.Store.Docs.{
  Txn, claim_gate, settle_gate, apply_all, AllStored, apply_all-AllStored,
}
use lakshmana_core.Store.Supersede.{claim-sole}
use lakshmana_core.Store.Revive.{retrigger-alone}
use lakshmana_core.Runs.Invariant.{IsConsistent}
use lakshmana_core.Runs.Final.{IsCascaded}
use lakshmana_core.Queue.{QueuedPair, all_pairs, run_query}
use lakshmana_core.Finalize.{exit_gate_failed, exits, finish}
use lakshmana_core.Finalize.Tallies.{IsSettled}
use lakshmana_core.Finalize.Outcomes.{finish_unreconciled}
use lakshmana_core.Sweep.{sweep_run, Sweeping, new_report}
use lakshmana_core.Sweep.Dead.{sweep_run_cascaded}
use lakshmana_core.Examples.{
  runs, pairs, message, claimant, opened_run, cascaded_run, failed_run, row, never,
}

empty-AllStored : AllStored runs []
empty-AllStored k v e = cc

-- A run is opened, its first gate is committed, and a successor is opened.
abbrev history : List Txn
history =
    claim_gate (message "r1" g1_neutral full) claimant
    ∷ settle_gate "r1" g1_neutral "worker-1" committed none 120 121
    ∷ claim_gate (message "r2" g1_neutral full) claimant
    ∷ []

apply_all-AllStored_example : AllStored runs (apply_all runs history [])
apply_all-AllStored_example = apply_all-AllStored runs history [] empty-AllStored

abbrev one_run : Log GatekeeperRun
one_run = ("r1", some opened_run) ∷ []

abbrev successor : GatekeeperRun
successor = record opened_run { run_request_id = "r2" }

opens : may_open (message "r2" g1_neutral full) ≡ true
unfolding may_open
opens = refl

successor-found :
    find_in (claim_txn runs (message "r2" g1_neutral full) claimant one_run).0 "r2" ≡ some successor
unfolding claim_txn create_and_claim may_open supersede_all predecessors created_run
successor-found = refl

claim-sole_example : ◌≡◌ {A = String} successor.run_request_id "r2"
claim-sole_example =
    claim-sole runs (message "r2" g1_neutral full) claimant one_run "r2" successor opens refl
      successor-found refl refl

abbrev failed_store : Log GatekeeperRun
failed_store = ("r1", some failed_run) ∷ []

failed-IsConsistent : IsConsistent failed_run
failed-IsConsistent = ground arith

-- The failed run beside its live successor.
abbrev beside : Log GatekeeperRun
beside = ("r2", some successor) ∷ failed_store

retrigger-alone_example :
    let request = message "r1" g2_corroboration from_gate in
    ((revived : GatekeeperRun) × (find_in (claim_txn runs request claimant beside).0 "r1"
        ≡ some revived)
      × (revived.state ≡ RunState.running)
      × (revived.stage3_run_id ≡ failed_run.stage3_run_id))
    × ((j : String)
        → str_eq "r1" j ≡ false
        → find_in (claim_txn runs request claimant beside).0 j ≡ find_in beside j)
retrigger-alone_example =
    retrigger-alone runs (message "r1" g2_corroboration from_gate) claimant failed_run beside refl
      failed-IsConsistent refl refl refl

abbrev calm : ℕ → Log GatekeeperRun → Log GatekeeperRun
calm i s = s

all_done-IsCascaded : IsCascaded cascaded_run
all_done-IsCascaded = ground arith

abbrev at_start : Sweeping (Log GatekeeperRun)
at_start = record { state = []; report = new_report; published = []; raised = false }

sweep_run_cascaded_example :
    let w' = sweep_run runs (λ k g i. false) (λ k g i s. s) 3 30 900 901 cascaded_run at_start in
    (w'.state ≡ [])
    × (w'.published ≡ [])
    × (w'.raised ≡ false)
    × (w'.report.rescued_gates ≡ [])
    × (w'.report.stuck_gates ≡ [])
    × (w'.report.republished_gates ≡ [])
    × ((w'.report.overdue ≡ []) ⊎ (w'.report.overdue ≡ "r1" ∷ []))
    × ((request : GatekeeperRunRequest) (later : Time)
        → reject_claim cascaded_run request later ≢ none)
sweep_run_cascaded_example =
    sweep_run_cascaded runs (λ k g i. false) (λ k g i s. s) 3 30 900 901 cascaded_run at_start
      all_done-IsCascaded

abbrev cascaded_store : Log GatekeeperRun
cascaded_store = ("r1", some cascaded_run) ∷ []

abbrev settled_queue : Log QueuedPair
settled_queue = ("p1", some (record (row "p1") { gate = none; tier = human })) ∷ []

abbrev stranded_queue : Log QueuedPair
stranded_queue = ("p1", some (row "p1")) ∷ []

stranded : ¬ (All IsSettled (all_pairs pairs "stage3" stranded_queue))
unfolding all_pairs run_query
stranded h = cc (h.0.0)

finish_unreconciled_example :
    let after =
      finish runs pairs never calm (λ t. "stranded") "r1" 900 901 stranded_queue cascaded_store in
    (after.1 ≡ exits exit_gate_failed)
    × ((left : GatekeeperRun) × (find_in after.0 "r1" ≡ some left)
        × (left.state ≡ RunState.failed)
        × (left.error_code ≡ some gk_e_firestore_txn)
        × ((request : GatekeeperRunRequest) (later : Time)
            → reject_claim left request later ≢ none))
finish_unreconciled_example =
    finish_unreconciled runs pairs never calm (λ t. "stranded") "r1" cascaded_run 900 901
      stranded_queue cascaded_store refl stranded refl refl refl all_done-IsCascaded
