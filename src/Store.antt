-- ===== src/Store.antt =====
-- `GatekeeperRunStore` of gatekeeper/runs/store.py over a collection of run documents. Each operation
-- has its transaction body, `…_txn`, and the operation itself, which commits that body.
pub mod Cases
pub mod Docs
pub mod Supersede
pub mod Revive
use lakshmana_core.Prelude.{
  ℕ, Bool, true, false, not, ◌&&◌, String, str_eq, Option, none, some, List, [], ◌∷◌, ◌++◌, map,
  select, if◌then◌else◌,
}
use lakshmana_core.Enums.{Gate, RunState, JudgeMode, ErrorCode}
use lakshmana_core.Firestore.{Collection}
use lakshmana_core.Firestore.Txn.{TxnResult, commit}
use lakshmana_core.Runs.{
  Time, Counters, RunTotals, GatekeeperRun, GatekeeperRunRequest, ConfigSnapshot,
}
use lakshmana_core.Runs.Claim.{
  ClaimRejection, invalid_entry, reject_claim, claim_updates, created_run, may_open, is_live,
  superseded_run,
}
use lakshmana_core.Runs.Settle.{
  Ending, committed, gate_failed, settle, renew, SweepOutcome, rescue, fail_run, finalize_run,
}

pub record ClaimResult : Type 0 where
  pub claimed : Bool
  pub rejection : Option ClaimRejection
  pub run : Option GatekeeperRun
  pub superseded : List String

abbrev pub rejected : ClaimRejection → Option GatekeeperRun → ClaimResult
rejected why run = record { claimed = false; rejection = some why; run = run; superseded = [] }

abbrev pub is_run_running : RunState → Bool
is_run_running RunState.running = true
is_run_running _ = false

abbrev pub is_requested : RunState → Bool
is_requested RunState.requested = true
is_requested _ = false

-- What a claim presents beside its message.
pub record Claimant : Type 0 where
  pub lease_owner : String
  pub judge_mode : JudgeMode
  pub config_snapshot : ConfigSnapshot
  pub now : Time
  pub lease : Time
  pub server : Time

module _ (col : Collection GatekeeperRun) where
  open col use {State, find, set, docs}

  unfoldable pub predecessors : State → GatekeeperRunRequest → List (String × GatekeeperRun)
  predecessors s request =
      select (λ d. not (str_eq d.0 request.run_request_id) && is_live d.1.state)
        (select (λ d. str_eq d.1.stage3_run_id request.stage3_run_id) (docs s))

  unfoldable pub supersede_all : List (String × GatekeeperRun) → String → Time → State → State
  supersede_all [] by server s = s
  supersede_all ((k, run) ∷ rest) by server s =
      supersede_all rest by server (set s k (superseded_run run by server))

  unfoldable pub create_and_claim : GatekeeperRunRequest → Claimant → State → State × ClaimResult
  create_and_claim request c s =
      if not (may_open request)
      then (s, rejected invalid_entry none)
      else let before = predecessors s request in
        let run =
          created_run request c.lease_owner c.judge_mode c.config_snapshot c.now c.lease c.server in
        (
          supersede_all before request.run_request_id c.server (set s request.run_request_id run),
          record {
            claimed = true;
            rejection = none;
            run = some run;
            superseded = map (λ d. d.0) before;
          },
        )

  unfoldable pub claim_existing :
      GatekeeperRunRequest → Claimant → GatekeeperRun → State → State × ClaimResult
  claim_existing request c run s = elim (reject_claim run request c.now) [
    | some why ↦ (s, rejected why (some run))
    | none ↦
        let run' = claim_updates run request.gate_id c.lease_owner c.now c.lease c.server in
        (
          set s request.run_request_id run',
          record { claimed = true; rejection = none; run = some run'; superseded = [] },
        )
  ]

  unfoldable pub claim_txn : GatekeeperRunRequest → Claimant → State → State × ClaimResult
  claim_txn request c s = elim (find s request.run_request_id) [
    | none ↦ create_and_claim request c s
    | some run ↦ claim_existing request c run s
  ]

  -- A transaction that updates one document, or finds nothing to do.
  unfoldable pub update_doc : String → (GatekeeperRun → Option GatekeeperRun) → State → State × Bool
  update_doc k change s = elim (find s k) [
    | none ↦ (s, false)
    | some run ↦ elim (change run) [ none ↦ (s, false) | some run' ↦ (set s k run', true) ]
  ]

  unfoldable pub settle_txn :
      String → Gate → String → Ending → Option Counters → Time → Time → State → State × Bool
  settle_txn k g owner ending counters now server =
      update_doc k (λ run. settle run g owner ending counters now server)

  unfoldable pub renew_txn : String → Gate → String → Time → Time → Time → State → State × Bool
  renew_txn k g owner now lease server = update_doc k (λ run. renew run g owner now lease server)

  unfoldable pub rescue_txn : String → Gate → ℕ → Time → Time → State → State × Option SweepOutcome
  rescue_txn k g max_sweeps now server s = elim (find s k) [
    | none ↦ (s, none)
    | some run ↦ elim (rescue run g max_sweeps now server) [
      | none ↦ (s, none)
      | some (outcome, run') ↦ (set s k run', some outcome)
    ]
  ]

  unfoldable pub fail_run_txn : String → ErrorCode → String → Time → Time → State → State × Bool
  fail_run_txn k code detail now server = update_doc k (λ run. fail_run run code detail now server)

  unfoldable pub finalize_run_txn : String → RunTotals → Time → State → State × Bool
  finalize_run_txn k totals server = update_doc k (λ run. finalize_run run totals server)

  -- `active_runs`: one query for each live state.
  unfoldable pub active_runs : State → List GatekeeperRun
  active_runs s =
      map (λ d. d.1) (select (λ d. is_requested d.1.state) (docs s))
      ++ map (λ d. d.1) (select (λ d. is_run_running d.1.state) (docs s))

  -- The operations: their bodies under `_commit`.
  module _ (aborted : ℕ → Bool) (others : ℕ → State → State) where
    unfoldable pub claim_gate :
        GatekeeperRunRequest → Claimant → State → State × TxnResult ClaimResult
    claim_gate request c = commit aborted others (claim_txn request c)

    unfoldable pub commit_gate :
        String → Gate → String → Option Counters → Time → Time → State → State × TxnResult Bool
    commit_gate k g owner counters now server =
        commit aborted others (settle_txn k g owner committed counters now server)

    unfoldable pub fail_gate :
        String
        → Gate
        → String
        → ErrorCode
        → String
        → Option Counters
        → Time
        → Time
        → State
        → State × TxnResult Bool
    fail_gate k g owner code detail counters now server =
        commit aborted others (settle_txn k g owner (gate_failed code detail) counters now server)

    unfoldable pub renew_gate_lease :
        String → Gate → String → Time → Time → Time → State → State × TxnResult Bool
    renew_gate_lease k g owner now lease server =
        commit aborted others (renew_txn k g owner now lease server)

    unfoldable pub rescue_gate :
        String → Gate → ℕ → Time → Time → State → State × TxnResult (Option SweepOutcome)
    rescue_gate k g max_sweeps now server =
        commit aborted others (rescue_txn k g max_sweeps now server)
