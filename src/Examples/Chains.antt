-- ===== src/Examples/Chains.antt =====
-- A worker of G1.
use lakshmana_core.Prelude.{none, some, [], ◌∷◌, ◌≡◌, refl, true, arith}
use lakshmana_core.Enums.{g1_neutral, g2_corroboration, system}
use lakshmana_core.Enums.Order.{next_gate}
use lakshmana_core.Firestore.Memory.{find_in, Log}
use lakshmana_core.Runs.{GatekeeperRun, to_request}
use lakshmana_core.Runs.Claim.{reject_claim}
use lakshmana_core.Runs.Settle.{committed, settle, settled_entry}
use lakshmana_core.Runs.Invariant.{IsConsistent}
use lakshmana_core.Finalize.{exits, exit_ok}
use lakshmana_core.Values.{done}
use lakshmana_core.Worker.{counted, run_gate}
use lakshmana_core.Worker.Chain.{run_gate-publishes}
use lakshmana_core.Examples.{runs, pairs, never, opened_run}

abbrev one_run : Log GatekeeperRun
one_run = ("r1", some opened_run) ∷ []

abbrev settled_run : GatekeeperRun
settled_run = record opened_run {
  gates = record opened_run.gates {
    g1 = settled_entry opened_run.gates.g1 committed (some done) 120;
  };
  updated_at = some 121;
}

opened-IsConsistent : IsConsistent opened_run
opened-IsConsistent = ground arith

g1_settles :
    settle opened_run g1_neutral "worker-1" committed (some done) 120 121 ≡ some settled_run
unfolding settle
g1_settles = refl

next_of_g1 : next_gate g1_neutral ≡ some g2_corroboration
unfolding next_gate
next_of_g1 = refl

run_gate-publishes_example :
    let w =
      run_gate runs pairs never never
        (λ i s. s)
        (λ i s. s)
        (λ t. "stranded")
        (λ run g q s. (q, s, counted done))
        true
        120
        121
        "r1"
        g1_neutral
        "worker-1"
        []
        one_run in
    (find_in w.runs_state "r1" ≡ some settled_run)
    × (w.published ≡ to_request opened_run g2_corroboration system ∷ [])
    × (w.ending ≡ exits exit_ok)
    × (reject_claim settled_run (to_request opened_run g2_corroboration system) 300 ≡ none)
run_gate-publishes_example =
    run_gate-publishes runs pairs never never (λ i s. s) (λ i s. s) (λ t. "stranded")
      (λ run g q s. (q, s, counted done)) 120 121 "r1" g1_neutral g2_corroboration "worker-1" [] []
      one_run one_run opened_run opened_run settled_run done 300 refl refl refl refl refl
      opened-IsConsistent refl g1_settles next_of_g1
