-- ===== src/Finalize/Outcomes.antt =====
-- What FINALIZE does to the run document.
use lakshmana_core.Prelude.{
  ℕ, Bool, true, false, String, none, some, List, ◌≡◌, ◌≢◌, refl, ◌∙◌, ap, All, arith, Bool-cases,
  inl, inr,
}
use lakshmana_core.Enums.{RunState, g4_escalation, gk_e_firestore_txn}
use lakshmana_core.Decisions.{Score}
use lakshmana_core.Firestore.{Collection}
use lakshmana_core.Firestore.Laws.{find-set_self}
use lakshmana_core.Firestore.Txn.{commit_first, returned}
use lakshmana_core.Runs.{Time, GatekeeperRun, GatekeeperRunRequest, gate}
use lakshmana_core.Runs.Claim.{reject_claim}
use lakshmana_core.Runs.Settle.{fail_run}
use lakshmana_core.Runs.Final.{IsCascaded, unreconciled-no_Step}
use lakshmana_core.Store.{update_doc, fail_run_txn}
use lakshmana_core.Queue.{QueuedPair, all_pairs}
use lakshmana_core.Finalize.{
  Tally, tally, reconciles, reconciliation_error, exit_gate_failed, exits, counter_or_zero,
  finalize, finish,
}
use lakshmana_core.Finalize.Tallies.{IsSettled, reconciles-IsSettled}

module _ (runs : Collection GatekeeperRun) (pairs : Collection QueuedPair) (aborted : ℕ → Bool)
    (others : ℕ → runs.State → runs.State) (detail : Tally → String) where
  -- The rows that FINALIZE counts.
  rows : GatekeeperRun → pairs.State → List QueuedPair
  rows run queue = all_pairs pairs run.stage3_run_id queue

  -- When some pair of the Stage 3 run is at a gate or is cleared by no method, `finalize` raises the
  -- reconciliation error and writes nothing.
  pub finalize_unreconciled :
      (run : GatekeeperRun) (spend : Score) (server : Time) (queue : pairs.State) (s : runs.State)
      → ¬ (All IsSettled (all_pairs pairs run.stage3_run_id queue))
      → finalize runs pairs aborted others detail run spend server queue s
        ≡ (s, reconciliation_error (tally (all_pairs pairs run.stage3_run_id queue)))
  unfolding finalize
  finalize_unreconciled run spend server queue s h =
      elim (Bool-cases (reconciles (tally (all_pairs pairs run.stage3_run_id queue)))) [
        | inl e ↦ absurd (h ((reconciles-IsSettled _).0 e))
        | inr e ↦ rw e refl
      ]

  fail_run_txn-stored :
      (k : String) (stored : GatekeeperRun) (d : String) (now server : Time) (s : runs.State)
      → runs.find s k ≡ some stored
      → stored.state ≡ RunState.running
      → fail_run_txn runs k gk_e_firestore_txn d now server s ≡ (
        runs.set s k (record stored {
          state = RunState.failed;
          error_code = some gk_e_firestore_txn;
          error_detail = some d;
          ended_at = some now;
          updated_at = some server;
        }),
        true,
      )
  unfolding fail_run_txn update_doc fail_run
  fail_run_txn-stored k stored d now server s f r = ground arith

  -- When a pair is stranded after G4's commit, the stored run is RUNNING with its four gates SUCCEEDED,
  -- no other client changes it before the transaction of `fail_run`, and the first round of that
  -- transaction is not aborted, `_finalize` exits with the gate-failed code and leaves the run FAILED
  -- with GK_E_FIRESTORE_TXN, and no message of any mode at any gate is accepted for the document that it
  -- leaves, at any later time.
  pub finish_unreconciled :
      (k : String) (run : GatekeeperRun) (now server : Time) (queue : pairs.State) (s : runs.State)
      → runs.find s k ≡ some run
      → ¬ (All IsSettled (all_pairs pairs run.stage3_run_id queue))
      → aborted 0 ≡ false
      → runs.find (others 0 s) k ≡ some run
      → run.state ≡ RunState.running
      → IsCascaded run
      → let after = finish runs pairs aborted others detail k now server queue s in
        (after.1 ≡ exits exit_gate_failed)
        × ((left : GatekeeperRun) × (runs.find after.0 k ≡ some left)
            × (left.state ≡ RunState.failed)
            × (left.error_code ≡ some gk_e_firestore_txn)
            × ((request : GatekeeperRunRequest) (later : Time)
                → reject_claim left request later ≢ none))
  unfolding finish
  finish_unreconciled k run now server queue s f h go f' r c =
      let d = detail (tally (all_pairs pairs run.stage3_run_id queue)) in
      let failed = record run {
        state = RunState.failed;
        error_code = some gk_e_firestore_txn;
        error_detail = some d;
        ended_at = some now;
        updated_at = some server;
      } in
      let done =
        commit_first aborted others (fail_run_txn runs k gk_e_firestore_txn d now server) s go
        ∙ ap (λ (r : runs.State × Bool). (r.0, returned r.1))
            (fail_run_txn-stored k run d now server (others 0 s) f' r) in
      let stuck =
        finalize_unreconciled run (counter_or_zero (gate run g4_escalation).counters "llmSpendUsd")
          server queue s h in
      let closed =
        unreconciled-no_Step {run = failed} {run' = failed} refl
          (record { s1 = c.s1; s2 = c.s2; s3 = c.s3; s4 = c.s4 }) in
      let run_it : finish runs pairs aborted others detail k now server queue s
          ≡ (runs.set (others 0 s) k failed, exits exit_gate_failed) =
        ground (arith, f, stuck, done) in
      rw run_it (refl, (failed, find-set_self runs (others 0 s) k failed, refl, refl, closed.0))
