-- ===== src/Cascade/Whole.antt =====
-- The cascade as a whole: what the four gates leave of a run's queue.

use lakshmana_core.Prelude.{
  ◌≢◌, ℕ, ◌<◌, true, String, none, some, List, ◌≡◌, All, All-map, All-select, All-values, str_eq,
  eq_iff,
}
use lakshmana_core.Enums.{g1_neutral, g2_corroboration, g3_contradiction, g4_escalation}
use lakshmana_core.Decisions.{Thresholds, G1Scores, G2Scores, G3Scores}
use lakshmana_core.Firestore.{Collection}
use lakshmana_core.Runs.{GatekeeperRun, gate}
use lakshmana_core.Queue.{QueuedPair, GraphPair, pair_key, run_query, all_pairs}
use lakshmana_core.Queue.Lease.{IsKeyed}
use lakshmana_core.Queue.Seed.{IsSeeded}
use lakshmana_core.Routing.Placement.{IsPlaced, placed-reconciles}
use lakshmana_core.Finalize.{tally, reconciles}
use lakshmana_core.Finalize.Tallies.{IsSettled}
use lakshmana_core.Tail.{Response, uncaught}
use lakshmana_core.Loop.{drained, g2_step, g3_step, g4_step}
use lakshmana_core.Loop.Complete.{RunRows}
use lakshmana_core.Cascade.{Execution, run_g1, run_g2, run_g3, run_g4}
use lakshmana_core.Cascade.Ready.{IsSteady, IsReady, PastG4, PastG4-gone, PastG4-IsSettled}
use lakshmana_core.Cascade.Stages.{run_loop-Has, stage1, stage2, stage3, stage4}

module _ (col : Collection QueuedPair) where
  open col use {State, find, docs, docs_sound}

  settled-reconciles :
      (run : String) (s : State)
      → RunRows col run PastG4 s
      → reconciles (tally (all_pairs col run s)) ≡ true
  unfolding all_pairs run_query
  settled-reconciles run s all =
      let rows =
        All-select (λ (d : String × QueuedPair). find s d.0 ≡ some d.1)
          (λ (d : String × QueuedPair). PastG4 d.1)
          (λ (d : String × QueuedPair). str_eq d.1.stage3_run_id run) (docs s)
          (λ d e f. all d.0 d.1 f ((eq_iff d.1.stage3_run_id run).0 e)) (docs_sound s) in
      (placed-reconciles (all_pairs col run s) (
          All-values (λ d. d.1) IsPlaced (run_query col run s)
            (All-map _ _ (run_query col run s) (λ d h. h.0.0.0.0.0) rows))).1
        (All-values (λ d. d.1) (λ p. p.gate ≡ none) (run_query col run s)
          (All-map _ _ (run_query col run s) (λ d h. PastG4-gone d.1 h) rows))

  -- A pair of the graph has a row of the run, which is settled.
  abbrev pub IsJudged : String → State → GraphPair → Type 0
  IsJudged run s g =
      (p : QueuedPair) × (find s (pair_key run g.claim_a_id g.claim_b_id) ≡ some p)
      × (p.stage3_run_id ≡ run)
      × IsSettled p

  judged :
      (run : String) (s : State) (g : GraphPair)
      → RunRows col run PastG4 s
      → IsSeeded col run s (pair_key run g.claim_a_id g.claim_b_id)
      → IsJudged run s g
  judged run s g all (p, f, same) = (p, f, same, PastG4-IsSettled p (all _ p f same))

  -- A run that goes through its four gates undisturbed settles every pair: if each gate is run by an
  -- execution with room for a pair, whose lease guard renews each time, if the graph names the subject,
  -- the scorers answer, the stored scores of family A and the cards of the claims can be read, and if the
  -- live calls are on and none of them raises anything but a VertexError or a ValueError, though each may
  -- raise one of these or the cap stop it, then, from any queue at G1's first attempt, all four loops end
  -- because no batch is left, every pair of the graph has a settled row of the run, and the tally of
  -- the run's rows reconciles, as FINALIZE demands. At a later attempt it asks that the run's rows stand
  -- where a gate leaves them, with no lease.
  pub cascade-settles :
      (x1 x2 x3 x4 : Execution) (run : GatekeeperRun) (subject_id model : String) (t : Thresholds)
      (pairs : List GraphPair) (score1 : List QueuedPair → QueuedPair → G1Scores)
      (score2 : List QueuedPair → QueuedPair → G2Scores)
      (family_a : List QueuedPair → QueuedPair → G1Scores)
      (score3 : List QueuedPair → QueuedPair → G3Scores) (max_llm_pairs : ℕ)
      (ask : QueuedPair → Response) (s : State)
      → ((p : QueuedPair) → ask p ≢ uncaught)
      → IsSteady x1
      → IsSteady x2
      → IsSteady x3
      → IsSteady x4
      → IsKeyed col s
      → (1 < (gate run g1_neutral).attempt → RunRows col run.stage3_run_id IsReady s)
      → let (s1, j1, e1) = run_g1 col x1 run (some subject_id) t pairs (λ ps. some (score1 ps)) s in
        let (s2, j2, e2) = run_g2 col x2 run (some subject_id) t (λ ps. some (score2 ps)) s1 in
        let (s3, j3, e3) =
          run_g3 col x3 run
            (some subject_id)
            t
            (λ ps. some (family_a ps))
            (λ ps. some (score3 ps))
            s2 in
        let (s4, j4, e4) =
          run_g4 col x4 run (some subject_id) model max_llm_pairs ask true (λ ps. true) s3 in
        (e1 ≡ drained)
        × (e2 ≡ drained)
        × (e3 ≡ drained)
        × (e4 ≡ drained)
        × All (IsJudged run.stage3_run_id s4) pairs
        × (reconciles (tally (all_pairs col run.stage3_run_id s4)) ≡ true)
  unfolding run_g2 run_g3 run_g4
  cascade-settles x1 x2 x3 x4 run subject_id model t pairs score1 score2 family_a score3
        max_llm_pairs ask s caught y1 y2 y3 y4 keyed before =
      let id = run.stage3_run_id in
      let r1 = run_g1 col x1 run (some subject_id) t pairs (λ ps. some (score1 ps)) s in
      let r2 = run_g2 col x2 run (some subject_id) t (λ ps. some (score2 ps)) r1.0 in
      let r3 =
        run_g3 col x3 run (some subject_id) t (λ ps. some (family_a ps)) (λ ps. some (score3 ps))
          r2.0 in
      let r4 = run_g4 col x4 run (some subject_id) model max_llm_pairs ask true (λ ps. true) r3.0 in
      let h1 =
        stage1 col x1 x2 x3 x4 run subject_id model t pairs score1 score2 family_a score3
          max_llm_pairs ask caught s y1 keyed before in
      let h2 =
        stage2 col x1 x2 x3 x4 run subject_id model t pairs score1 score2 family_a score3
          max_llm_pairs ask caught r1.0 y2 h1.0.1 h1.0.2 in
      let h3 =
        stage3 col x1 x2 x3 x4 run subject_id model t pairs score1 score2 family_a score3
          max_llm_pairs ask caught r2.0 y3 h2.1 h2.2 in
      let h4 =
        stage4 col x1 x2 x3 x4 run subject_id model t pairs score1 score2 family_a score3
          max_llm_pairs ask caught r3.0 y4 h3.1 h3.2 in
      let seeded =
        All-map _ _ pairs
          (λ g k.
            run_loop-Has col x4 (g4_step run subject_id model ask max_llm_pairs true (λ ps. true))
              id g4_escalation _ _ r3.0
              (run_loop-Has col x3
                (g3_step (λ ps. some (family_a ps)) (λ ps. some (score3 ps)) t run.run_request_id)
                id g3_contradiction tt _ r2.0
                (run_loop-Has col x2 (g2_step (λ ps. some (score2 ps)) t run.run_request_id) id
                  g2_corroboration tt _ r1.0 k)))
          h1.1 in
      (
        h1.0.0,
        h2.0,
        h3.0,
        h4.0,
        All-map _ _ pairs (λ g k. judged id r4.0 g h4.2 k) seeded,
        settled-reconciles id r4.0 h4.2,
      )
