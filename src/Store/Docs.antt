-- ===== src/Store/Docs.antt =====
-- Every operation of the store keeps all stored run documents consistent.
use lakshmana_core.Prelude.{
  ℕ, true, String, Option, some, List, [], ◌∷◌, ◌≡◌, refl, All, arith, inl, inr, All-select, ◌∙◌,
}
use lakshmana_core.Enums.{Gate, ErrorCode}
use lakshmana_core.Firestore.{Collection}
use lakshmana_core.Runs.{Time, Counters, RunTotals, GatekeeperRun, GatekeeperRunRequest}
use lakshmana_core.Runs.Claim.{created_run, is_live, superseded_run}
use lakshmana_core.Runs.Settle.{Ending}
use lakshmana_core.Runs.Step.{
  Step, claim, end_gate, heartbeat, sweep, fail, finalize, supersede, here, next,
}
use lakshmana_core.Runs.Invariant.{IsConsistent, created_run-IsConsistent, Step-IsConsistent}
use lakshmana_core.Runs.Final.{Reach-SameIdentity}
use lakshmana_core.Firestore.Laws.{AllDocs, set-AllDocs}
use lakshmana_core.Store.Cases.{update_doc-cases, rescue_txn-cases, claim_txn-cases}
use lakshmana_core.Store.{
  Claimant, predecessors, supersede_all, claim_txn, update_doc, settle_txn, renew_txn, rescue_txn,
  fail_run_txn, finalize_run_txn,
}

-- One transaction on the collection, by any client.
pub data Txn : Type 0 where
  claim_gate : GatekeeperRunRequest → Claimant → Txn
  settle_gate : String → Gate → String → Ending → Option Counters → Time → Time → Txn
  renew_gate_lease : String → Gate → String → Time → Time → Time → Txn
  rescue_gate : String → Gate → ℕ → Time → Time → Txn
  fail_run_doc : String → ErrorCode → String → Time → Time → Txn
  finalize_run_doc : String → RunTotals → Time → Txn

-- A stored document carries its own id, and is consistent.
pub record IsStored (k : String) (run : GatekeeperRun) : Type 0 where
  pub own_id : run.run_request_id ≡ k
  pub consistent : IsConsistent run

Step-IsStored :
    {k : String} {run run' : GatekeeperRun} → Step run run' → IsStored k run → IsStored k run'
Step-IsStored st h = record {
  own_id = (Reach-SameIdentity (next here st)).id ∙ h.own_id;
  consistent = Step-IsConsistent st h.consistent;
}

-- A document that a claim supersedes is stored and live.
abbrev IsVictim : String × GatekeeperRun → Type 0
IsVictim d = IsStored d.0 d.1 × (is_live d.1.state ≡ true)

module _ (col : Collection GatekeeperRun) where
  open col use {State, find, set, docs, find-set, docs_sound}

  unfoldable pub apply : Txn → State → State
  unfolding settle_txn renew_txn fail_run_txn finalize_run_txn
  apply (claim_gate request c) s = (claim_txn col request c s).0
  apply (settle_gate k g owner ending counters now server) s =
      (settle_txn col k g owner ending counters now server s).0
  apply (renew_gate_lease k g owner now lease server) s =
      (renew_txn col k g owner now lease server s).0
  apply (rescue_gate k g max_sweeps now server) s = (rescue_txn col k g max_sweeps now server s).0
  apply (fail_run_doc k code detail now server) s = (fail_run_txn col k code detail now server s).0
  apply (finalize_run_doc k totals server) s = (finalize_run_txn col k totals server s).0

  unfoldable pub apply_all : List Txn → State → State
  apply_all [] s = s
  apply_all (t ∷ ts) s = apply_all ts (apply t s)

  abbrev pub AllStored : State → Type 0
  AllStored = AllDocs col IsStored

  -- What `update_doc` writes instead of a document is consistent if the document is.
  update_doc-AllStored :
      (k : String) (change : GatekeeperRun → Option GatekeeperRun) (s : State)
      → ((run run' : GatekeeperRun) → change run ≡ some run' → IsStored k run → IsStored k run')
      → AllStored s
      → AllStored (update_doc col k change s).0
  update_doc-AllStored k change s keep all = elim (update_doc-cases col k change s) [
    | inl e ↦ rw e all
    | inr (run, run', found, changed, e) ↦
        rw e (set-AllDocs col IsStored s k run' (keep run run' changed (all k run found)) all)
  ]

  rescue_txn-AllStored :
      (k : String) (g : Gate) (max_sweeps : ℕ) (now server : Time) (s : State)
      → AllStored s
      → AllStored (rescue_txn col k g max_sweeps now server s).0
  rescue_txn-AllStored k g max_sweeps now server s all =
      elim (rescue_txn-cases col k g max_sweeps now server s) [
        | inl e ↦ rw e all
        | inr (run, outcome, run', found, changed, e) ↦ rw e (
            set-AllDocs col IsStored s k run'
              (Step-IsStored (sweep g max_sweeps now server outcome changed) (all k run found)) all)
      ]

  supersede_all-AllStored :
      (ds : List (String × GatekeeperRun)) (by : String) (server : Time) (s : State)
      → All IsVictim ds
      → AllStored s
      → AllStored (supersede_all col ds by server s)
  unfolding supersede_all
  supersede_all-AllStored [] by server s h all = all
  supersede_all-AllStored ((k, run) ∷ ds) by server s h all =
      supersede_all-AllStored ds by server (set s k (superseded_run run by server)) h.1 (
        set-AllDocs col IsStored s k (superseded_run run by server)
          (Step-IsStored (supersede by server h.0.1) h.0.0) all)

  predecessors-stored :
      (s : State) (request : GatekeeperRunRequest)
      → AllStored s
      → All IsVictim (predecessors col s request)
  unfolding predecessors
  predecessors-stored s request all =
      All-select (λ d. IsStored d.0 d.1) IsVictim _ _ (λ d e h. (h, ground arith))
        (All-select (λ d. find s d.0 ≡ some d.1) (λ d. IsStored d.0 d.1) _ (docs s)
          (λ d e h. all d.0 d.1 h) (docs_sound s))

  claim_txn-AllStored :
      (request : GatekeeperRunRequest) (c : Claimant) (s : State)
      → AllStored s
      → AllStored (claim_txn col request c s).0
  claim_txn-AllStored request c s all = elim (claim_txn-cases col request c s) [
    | inl (e, _) ↦ rw e all
    | inr (inl (opens, gone, e)) ↦ rw e (
        supersede_all-AllStored (predecessors col s request) request.run_request_id c.server _
          (predecessors-stored s request all)
          (set-AllDocs col IsStored s request.run_request_id _
            (record { own_id = own; consistent = created_run-IsConsistent request _ _ _ _ _ _ })
            all))
    | inr (inr (run, found, ok, e)) ↦ rw e (
        set-AllDocs col IsStored s request.run_request_id _
          (Step-IsStored (claim request c.lease_owner c.now c.lease c.server ok)
            (all request.run_request_id run found))
          all)
  ]
    where
      own :
          (created_run request c.lease_owner c.judge_mode c.config_snapshot c.now c.lease
            c.server).run_request_id
          ≡ request.run_request_id
      own = unfold created_run in refl

  -- One transaction keeps every stored document consistent and under its own id.
  apply-AllStored : (t : Txn) (s : State) → AllStored s → AllStored (apply t s)
  unfolding apply
  apply-AllStored (claim_gate request c) s all = claim_txn-AllStored request c s all
  apply-AllStored (settle_gate k g owner ending counters now server) s all =
      update_doc-AllStored k _ s
        (λ run run' e. Step-IsStored (end_gate g owner ending counters now server e)) all
  apply-AllStored (renew_gate_lease k g owner now lease server) s all =
      update_doc-AllStored k _ s
        (λ run run' e. Step-IsStored (heartbeat g owner now lease server e)) all
  apply-AllStored (rescue_gate k g max_sweeps now server) s all =
      rescue_txn-AllStored k g max_sweeps now server s all
  apply-AllStored (fail_run_doc k code detail now server) s all =
      update_doc-AllStored k _ s (λ run run' e. Step-IsStored (fail code detail now server e)) all
  apply-AllStored (finalize_run_doc k totals server) s all =
      update_doc-AllStored k _ s (λ run run' e. Step-IsStored (finalize totals server e)) all

  -- When every run document carries its own id and is consistent, as in an empty collection, this
  -- is still so after any transactions of any clients, in any order.
  pub apply_all-AllStored : (ts : List Txn) (s : State) → AllStored s → AllStored (apply_all ts s)
  unfolding apply_all
  apply_all-AllStored [] s all = all
  apply_all-AllStored (t ∷ ts) s all = apply_all-AllStored ts (apply t s) (apply-AllStored t s all)
