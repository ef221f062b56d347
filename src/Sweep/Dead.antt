-- ===== src/Sweep/Dead.antt =====
-- A run whose worker died after G4's commit and before FINALIZE.
use lakshmana_core.Prelude.{◌⊎◌, [], ◌∷◌, ◌++◌, ℕ, Bool, String, none, ◌≡◌, ◌≢◌, refl, arith}
use lakshmana_core.Enums.{Gate, g1_neutral}
use lakshmana_core.Firestore.{Collection}
use lakshmana_core.Runs.{Time, GatekeeperRun, GatekeeperRunRequest}
use lakshmana_core.Runs.Claim.{reject_claim}
use lakshmana_core.Runs.Final.{IsCascaded}
use lakshmana_core.Sweep.{
  Sweeping, flag_overdue, sweep_run, expired_gates, republish_stalled, stalled_gate,
  actionable_gate, actionable_loop,
}

reject_cascaded :
    (run : GatekeeperRun) (request : GatekeeperRunRequest) (g : Gate) (now : Time)
    → request.gate_id ≡ g
    → IsCascaded run
    → reject_claim run request now ≢ none
unfolding reject_claim
reject_cascaded run request g1_neutral now p c h = ground arith
reject_cascaded run request _ now p c h = ground arith

module _ (col : Collection GatekeeperRun) (aborted : String → Gate → ℕ → Bool)
    (others : String → Gate → ℕ → col.State → col.State) (max_sweeps grace_minutes : ℕ)
    (now server : Time) where
  sweep_run-flag_overdue :
      (run : GatekeeperRun) (w : Sweeping col.State)
      → IsCascaded run
      → sweep_run col aborted others max_sweeps grace_minutes now server run w
        ≡ flag_overdue col aborted others max_sweeps grace_minutes now server run w
  unfolding sweep_run expired_gates republish_stalled stalled_gate actionable_gate actionable_loop
  sweep_run-flag_overdue run w c = ground arith

  flag_overdue-reports :
      (run : GatekeeperRun) (w : Sweeping col.State)
      → let w' = flag_overdue col aborted others max_sweeps grace_minutes now server run w in
        (w'.state ≡ w.state)
        × (w'.published ≡ w.published)
        × (w'.raised ≡ w.raised)
        × (w'.report.rescued_gates ≡ w.report.rescued_gates)
        × (w'.report.stuck_gates ≡ w.report.stuck_gates)
        × (w'.report.republished_gates ≡ w.report.republished_gates)
        × ((w'.report.overdue ≡ w.report.overdue)
            ⊎ (w'.report.overdue ≡ w.report.overdue ++ run.run_request_id ∷ []))
  unfolding flag_overdue
  flag_overdue-reports run w = ground arith

  -- When the four gates of a run have SUCCEEDED, the sweeper does nothing for it, however long it has
  -- been idle: the collection, the published messages and the gates of the report are as they were, and
  -- nothing is raised; it can only add the run to those reported as overdue. And no message, of any mode
  -- at any gate, is accepted for it.
  pub sweep_run_cascaded :
      (run : GatekeeperRun) (w : Sweeping col.State)
      → IsCascaded run
      → let w' = sweep_run col aborted others max_sweeps grace_minutes now server run w in
        (w'.state ≡ w.state)
        × (w'.published ≡ w.published)
        × (w'.raised ≡ w.raised)
        × (w'.report.rescued_gates ≡ w.report.rescued_gates)
        × (w'.report.stuck_gates ≡ w.report.stuck_gates)
        × (w'.report.republished_gates ≡ w.report.republished_gates)
        × ((w'.report.overdue ≡ w.report.overdue)
            ⊎ (w'.report.overdue ≡ w.report.overdue ++ run.run_request_id ∷ []))
        × ((request : GatekeeperRunRequest) (later : Time) → reject_claim run request later ≢ none)
  sweep_run_cascaded run w c =
      let same = sweep_run-flag_overdue run w c in
      let h = flag_overdue-reports run w in
      rw same (
        h.0,
        h.1,
        h.2,
        h.3,
        h.4,
        h.5,
        h.6,
        λ request later. reject_cascaded run request request.gate_id later refl c,
      )
