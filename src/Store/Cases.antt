-- ===== src/Store/Cases.antt =====
-- Each operation of the store either writes nothing, or writes one document by the transition that it
-- stands for; a claim may also open a run.
use lakshmana_core.Prelude.{
  ℕ, true, false, String, Option, none, some, [], ◌≡◌, Bool-cases, Option-cases, inl, inr, ◌⊎◌,
  arith, map,
}
use lakshmana_core.Enums.{Gate}
use lakshmana_core.Firestore.{Collection}
use lakshmana_core.Runs.{Time, GatekeeperRun, GatekeeperRunRequest}
use lakshmana_core.Runs.Claim.{reject_claim, claim_updates, created_run, may_open, invalid_entry}
use lakshmana_core.Runs.Settle.{SweepOutcome, rescue}
use lakshmana_core.Store.{
  Claimant, ClaimResult, rejected, predecessors, supersede_all, create_and_claim, claim_existing,
  claim_txn, update_doc, rescue_txn,
}

module _ (col : Collection GatekeeperRun) where
  open col use {State, find, set}

  pub update_doc-cases :
      (k : String) (change : GatekeeperRun → Option GatekeeperRun) (s : State)
      → (update_doc col k change s ≡ (s, false))
        ⊎ ((run : GatekeeperRun) × (run' : GatekeeperRun) × (find s k ≡ some run)
            × (change run ≡ some run')
            × (update_doc col k change s ≡ (set s k run', true)))
  unfolding update_doc
  update_doc-cases k change s = elim (Option-cases (find s k)) [
    | inl gone ↦ inl (ground arith)
    | inr (run, e) ↦ elim (Option-cases (change run)) [
      | inl idle ↦ inl (ground arith)
      | inr (run', e') ↦ inr (run, run', e, e', ground arith)
    ]
  ]

  pub rescue_txn-cases :
      (k : String) (g : Gate) (max_sweeps : ℕ) (now server : Time) (s : State)
      → (rescue_txn col k g max_sweeps now server s ≡ (s, none))
        ⊎ ((run : GatekeeperRun) × (outcome : SweepOutcome) × (run' : GatekeeperRun) × (find s k
              ≡ some run)
            × (rescue run g max_sweeps now server ≡ some (outcome, run'))
            × (rescue_txn col k g max_sweeps now server s ≡ (set s k run', some outcome)))
  unfolding rescue_txn
  rescue_txn-cases k g max_sweeps now server s = elim (Option-cases (find s k)) [
    | inl gone ↦ inl (ground arith)
    | inr (run, e) ↦ elim (Option-cases (rescue run g max_sweeps now server)) [
      | inl idle ↦ inl (ground arith)
      | inr ((outcome, run'), e') ↦ inr (run, outcome, run', e, e', ground arith)
    ]
  ]

  -- A claim that opens a run: the document of the message's id is new, and the predecessors of the run
  -- are superseded in the same transaction.
  abbrev pub opened : GatekeeperRunRequest → Claimant → State → State × ClaimResult
  opened request c s =
      let before = predecessors col s request in
      let run =
        created_run request c.lease_owner c.judge_mode c.config_snapshot c.now c.lease c.server in
      (
        supersede_all col before request.run_request_id c.server (set s request.run_request_id run),
        record {
          claimed = true;
          rejection = none;
          run = some run;
          superseded = map (λ d. d.0) before;
        },
      )

  abbrev claimed_run : GatekeeperRunRequest → Claimant → GatekeeperRun → GatekeeperRun
  claimed_run request c run = claim_updates run request.gate_id c.lease_owner c.now c.lease c.server

  pub claim_txn-cases :
      (request : GatekeeperRunRequest) (c : Claimant) (s : State)
      → ((claim_txn col request c s).0 ≡ s) × ((claim_txn col request c s).1.claimed ≡ false)
        ⊎ (may_open request ≡ true)
          × (find s request.run_request_id ≡ none)
          × (claim_txn col request c s ≡ opened request c s)
        ⊎ ((run : GatekeeperRun) × (find s request.run_request_id ≡ some run)
            × (reject_claim run request c.now ≡ none)
            × (claim_txn col request c s ≡ (
              set s request.run_request_id (claimed_run request c run),
              record {
                claimed = true;
                rejection = none;
                run = some (claimed_run request c run);
                superseded = [];
              },
            )))
  unfolding claim_txn create_and_claim claim_existing
  claim_txn-cases request c s = elim (Option-cases (find s request.run_request_id)) [
    | inl gone ↦ elim (Bool-cases (may_open request)) [
      | inl opens ↦ inr (inl (opens, gone, ground arith))
      | inr not_open ↦ inl (ground arith, ground arith)
    ]
    | inr (run, e) ↦ elim (Option-cases (reject_claim run request c.now)) [
      | inr (why, e') ↦ inl (ground arith, ground arith)
      | inl ok ↦ inr (inr (run, e, ok, ground arith))
    ]
  ]

  pub claim_txn-opened :
      (request : GatekeeperRunRequest) (c : Claimant) (s : State)
      → may_open request ≡ true
      → find s request.run_request_id ≡ none
      → claim_txn col request c s ≡ opened request c s
  unfolding claim_txn create_and_claim
  claim_txn-opened request c s opens new = ground arith

  -- The first message for a run that does not exist is rejected unless it is a FULL message at G1, and
  -- then writes nothing.
  pub claim_txn-unopened :
      (request : GatekeeperRunRequest) (c : Claimant) (s : State)
      → may_open request ≡ false
      → find s request.run_request_id ≡ none
      → claim_txn col request c s ≡ (s, rejected invalid_entry none)
  unfolding claim_txn create_and_claim
  claim_txn-unopened request c s closed new = ground arith
