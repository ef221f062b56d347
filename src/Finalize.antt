-- ===== src/Finalize.antt =====
-- FINALIZE of gatekeeper/worker/finalize.py, and `_finalize` of gatekeeper/worker/main.py, which runs
-- it after the commit of G4. `decidedBy` is a `Method` here and a string in the row.
pub mod Tallies
pub mod Outcomes
use lakshmana_core.Prelude.{
  ℕ, ◌+◌, Bool, true, false, not, ◌&&◌, String, Option, none, some, List, [], ◌∷◌, ◌==◌,
  if◌then◌else◌, str_eq,
}
use lakshmana_core.Enums.{
  Gate, g4_escalation, Method, gk_g1_nli, gk_g2_grounding, gk_g3_xcheck, QueueTier, cascade,
  llm_tail, human, ErrorCode, gk_e_firestore_txn,
}
use lakshmana_core.Decisions.{Score}
use lakshmana_core.Values.{get, real, finite}
use lakshmana_core.Firestore.{Collection}
use lakshmana_core.Firestore.Txn.{TxnResult, returned, txn_error, commit}
use lakshmana_core.Runs.{Time, Counters, RunTotals, GatekeeperRun, gate}
use lakshmana_core.Store.{finalize_run_txn, fail_run_txn}
use lakshmana_core.Queue.{QueuedPair, all_pairs}

pub record Tally : Type 0 where
  pub pairs_seen : ℕ
  pub decided_by_gates : ℕ
  pub escalated_llm : ℕ
  pub escalated_human : ℕ
  pub stranded : ℕ

-- Membership in `_CASCADE_METHODS`.
abbrev pub is_cascade_method : Option Method → Bool
is_cascade_method (some gk_g1_nli) = true
is_cascade_method (some gk_g2_grounding) = true
is_cascade_method (some gk_g3_xcheck) = true
is_cascade_method _ = false

-- One round of the loop of `tally`.
unfoldable pub count : Tally → QueuedPair → Tally
count t p =
    let seen = record t { pairs_seen = t.pairs_seen + 1 } in
    elim p.gate [
      | some g ↦ record seen { stranded = t.stranded + 1 }
      | none ↦ elim p.tier [
        | human ↦ record seen { escalated_human = t.escalated_human + 1 }
        | llm_tail ↦ record seen { escalated_llm = t.escalated_llm + 1 }
        | cascade ↦
            if is_cascade_method p.decided_by
            then record seen { decided_by_gates = t.decided_by_gates + 1 }
            else record seen { stranded = t.stranded + 1 }
      ]
    ]

abbrev pub no_pairs : Tally
no_pairs = record {
  pairs_seen = 0;
  decided_by_gates = 0;
  escalated_llm = 0;
  escalated_human = 0;
  stranded = 0;
}

unfoldable pub tally_loop : Tally → List QueuedPair → Tally
tally_loop t [] = t
tally_loop t (p ∷ rest) = tally_loop (count t p) rest

unfoldable pub tally : List QueuedPair → Tally
unfolding tally_loop
tally pairs = tally_loop no_pairs pairs

unfoldable pub reconciles : Tally → Bool
reconciles t =
    t.decided_by_gates + t.escalated_llm + t.escalated_human == t.pairs_seen && t.stranded == 0

-- The totals of a tally that reconciles.
abbrev pub totals_of : Tally → Score → RunTotals
totals_of t spend_usd = record {
  pairs_seen = t.pairs_seen;
  decided_by_gates = t.decided_by_gates;
  escalated_llm = t.escalated_llm;
  escalated_human = t.escalated_human;
  shadow_disagreed = 0;
  llm_spend_usd = spend_usd;
}

-- What `finalize` returns or raises: the totals with whether they were stored, a
-- ReconciliationError with the tally that its message prints, or the store's FirestoreTxnError.
pub data Finalized : Type 0 where
  totals : RunTotals → Bool → Finalized
  reconciliation_error : Tally → Finalized
  store_error : Finalized

pub data ExitCode : Type 0 where
  exit_ok exit_gate_failed exit_bad_invocation : ExitCode

-- How `_finalize` ends: with an exit code, or by the exception of a transaction that did not resolve.
pub data Finish : Type 0 where
  exits : ExitCode → Finish
  raises : Finish

-- `float(counters.get(key) or 0.0)`, where the counter is missing or a double that is finite and not
-- negative, as G4 writes its spend.
abbrev pub counter_or_zero : Counters → String → Score
counter_or_zero counters key = elim (get counters key) [ some (real (finite x)) ↦ x | _ ↦ 0 ]

-- The runs and the pairs are two collections; only the runs are written. The `detail` of the error is
-- a function of the tally.
module _ (runs : Collection GatekeeperRun) (pairs : Collection QueuedPair) (aborted : ℕ → Bool)
    (others : ℕ → runs.State → runs.State) (detail : Tally → String) where
  unfoldable pub finalize :
      GatekeeperRun → Score → Time → pairs.State → runs.State → runs.State × Finalized
  finalize run spend_usd server queue s =
      let counted = tally (all_pairs pairs run.stage3_run_id queue) in
      if not (reconciles counted)
      then (s, reconciliation_error counted)
      else let written = totals_of counted spend_usd in
        let (s', stored) =
          commit aborted others (finalize_run_txn runs run.run_request_id written server) s in
        (s', elim stored [ returned b ↦ totals written b | txn_error ↦ store_error ])

  -- `_finalize`: the run is read again, and a failed reconciliation fails it.
  unfoldable pub finish : String → Time → Time → pairs.State → runs.State → runs.State × Finish
  finish run_request_id now server queue s = elim (runs.find s run_request_id) [
    | none ↦ (s, exits exit_bad_invocation)
    | some run ↦
        let spend = counter_or_zero (gate run g4_escalation).counters "llmSpendUsd" in
        let (s', outcome) = finalize run spend server queue s in
        elim outcome [
          | totals t stored ↦ (s', exits exit_ok)
          | store_error ↦ (s', raises)
          | reconciliation_error t ↦
              let (s'', failed) =
                commit aborted others
                  (fail_run_txn runs run_request_id gk_e_firestore_txn (detail t) now server) s' in
              (s'', elim failed [ returned b ↦ exits exit_gate_failed | txn_error ↦ raises ])
        ]
  ]
