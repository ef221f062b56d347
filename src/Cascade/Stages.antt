-- ===== src/Cascade/Stages.antt =====
-- Each gate of the cascade drains its stage.

use lakshmana_core.Prelude.{
  [], ◌∷◌, ◌≢◌, Option-cases, All, Bool-cases, ℕ, suc, ◌<◌, true, String, none, some, List, ◌≡◌,
  refl, inl, inr, arith, All-map, length, List-cases, select, not,
}
use lakshmana_core.Enums.{Gate, g1_neutral, g2_corroboration, g3_contradiction, g4_escalation}
use lakshmana_core.Decisions.{Thresholds, G1Scores, G2Scores, G3Scores}
use lakshmana_core.Firestore.{Collection}
use lakshmana_core.Runs.{GatekeeperRun, gate}
use lakshmana_core.Queue.{QueuedPair, GraphPair}
use lakshmana_core.Queue.Lease.{IsKeyed}
use lakshmana_core.Queue.Seed.{AllSeeded, IsSeeded}
use lakshmana_core.Tail.Cap.{judge_loop-caught}
use lakshmana_core.Tail.{Response, uncaught, Judging, judge_loop}
use lakshmana_core.Loop.{
  Step, g1_step, g2_step, g3_step, TailState, g4_step, is_gatekeeper, is_shadow_mode,
}
use lakshmana_core.Loop.Round.{IsJudge}
use lakshmana_core.Loop.Complete.{RunRows, Drains, gate_loop-Drains}
use lakshmana_core.Loop.Keep.{gate_loop-Has}
use lakshmana_core.Loop.Steps.{
  IsPast, IsPast-leaves, g1_step-IsJudge, g2_step-IsJudge, g3_step-IsJudge, g4_step-IsJudge,
}
use lakshmana_core.Cascade.{Execution, run_loop, g1_setup, run_g1, run_g2, run_g3, run_g4}
use lakshmana_core.Cascade.Setup.{g1_setup_lem}
use lakshmana_core.Cascade.Ready.{
  IsSteady, IsReady, PastG1, PastG2, PastG3, keeps_g2, keeps_g3, keeps_g4,
}

module _ (col : Collection QueuedPair) where
  open col use {State, find, docs, docs_sound}

  run_loop-Drains :
      {J : Type 0} (x : Execution) (step : Step J) (run : String) (g : Gate)
      (Q : QueuedPair → Type 0) (j : J) (s : State)
      → IsSteady x
      → IsJudge (IsPast g) step
      → ((j : J) (ps : List QueuedPair) → (step j ps).2 ≡ true)
      → ((p : QueuedPair) → IsPast g p → Q p)
      → ((p : QueuedPair) → Q p → p.lease_expires_at ≡ none)
      → IsKeyed col s
      → RunRows col run Q s
      → Drains col run g Q (run_loop col x step run g j s)
  unfolding run_loop
  run_loop-Drains x step run g Q j s (room, steady) judge through keeps unleased keyed all =
      gate_loop-Drains col step x.renewed x.clock run g x.owner x.batch_size x.lease (IsPast g) Q
        judge (IsPast-leaves g) keeps unleased steady through j s (suc (length (docs s))) room keyed
        all (omega arith)

  pub run_loop-Has :
      {J : Type 0} (x : Execution) (step : Step J) (run : String) (g : Gate) (j : J) (k : String)
      (s : State)
      → IsSeeded col run s k
      → IsSeeded col run (run_loop col x step run g j s).0 k
  unfolding run_loop
  run_loop-Has x step run g j k s h =
      gate_loop-Has col (λ p. p.stage3_run_id ≡ run) (λ p owner expires same. same)
        (λ p c same. same) k step x.renewed x.clock run g x.owner x.batch_size x.lease
        (suc (length (docs s))) 0 j s h

  -- The queue after the four gates, each in an execution of its own; the scorers and the graph answer,
  -- and the model is reachable, but each of its calls may raise an error that is caught.
  module _ (x1 x2 x3 x4 : Execution) (run : GatekeeperRun) (subject_id model : String)
      (t : Thresholds) (pairs : List GraphPair) (score1 : List QueuedPair → QueuedPair → G1Scores)
      (score2 : List QueuedPair → QueuedPair → G2Scores)
      (family_a : List QueuedPair → QueuedPair → G1Scores)
      (score3 : List QueuedPair → QueuedPair → G3Scores) (max_llm_pairs : ℕ)
      (ask : QueuedPair → Response) (caught : (p : QueuedPair) → ask p ≢ uncaught) where
    -- The steps get through.
    g1_through :
        (j : Unit {0}) (ps : List QueuedPair)
        → (g1_step (λ ps. some (score1 ps)) t run.run_request_id j ps).2 ≡ true
    unfolding g1_step
    g1_through j ps = refl

    g2_through :
        (j : Unit {0}) (ps : List QueuedPair)
        → (g2_step (λ ps. some (score2 ps)) t run.run_request_id j ps).2 ≡ true
    unfolding g2_step
    g2_through j ps = elim (List-cases (select (λ p. not p.contradiction_flag) ps)) [
      | inl e ↦ rw (g2_step, e) refl
      | inr (p, rest, e) ↦ rw (g2_step, e) refl
    ]

    g3_through :
        (j : Unit {0}) (ps : List QueuedPair)
        → (g3_step (λ ps. some (family_a ps)) (λ ps. some (score3 ps)) t run.run_request_id j ps).2
          ≡ true
    unfolding g3_step
    g3_through j ps = refl

    all_caught : (ps : List QueuedPair) → All (λ (p : QueuedPair). ask p ≢ uncaught) ps
    all_caught [] = tt
    all_caught (p ∷ ps) = (caught p, all_caught ps)

    g4_through :
        (j : TailState) (ps : List QueuedPair)
        → (g4_step run subject_id model ask max_llm_pairs true (λ ps. true) j ps).2 ≡ true
    unfolding g4_step
    g4_through j ps =
        let start : Judging = record {
          verdicts = [];
          routes = [];
          counters = j.counters;
          spent = j.spent;
        } in
        elim (Bool-cases (is_shadow_mode run.judge_mode)) [
          | inl e ↦ rw (g4_step, e) refl
          | inr e ↦
              elim (Option-cases (judge_loop run subject_id model ask max_llm_pairs start ps)) [
                | inl raises ↦ absurd (
                    judge_loop-caught run subject_id model ask max_llm_pairs start ps
                      (all_caught ps) raises)
                | inr (w, ends) ↦ elim (Bool-cases (is_gatekeeper run.judge_mode)) [
                  | inl f ↦ rw (g4_step, e, f, ends) refl
                  | inr f ↦ rw (g4_step, e, f, ends) refl
                ]
              ]
        ]

    pub stage1 :
        (s : State)
        → IsSteady x1
        → IsKeyed col s
        → (1 < (gate run g1_neutral).attempt → RunRows col run.stage3_run_id IsReady s)
        → let r = run_g1 col x1 run (some subject_id) t pairs (λ ps. some (score1 ps)) s in
          Drains col run.stage3_run_id g1_neutral IsReady r
          × AllSeeded col run.stage3_run_id r.0 pairs
    unfolding run_g1
    stage1 s steady keyed before =
        let id = run.stage3_run_id in
        let attempt = (gate run g1_neutral).attempt in
        let h =
          g1_setup_lem col IsReady attempt id run.intake_id pairs s (λ pair. ((refl, refl), refl))
            (λ p. ((refl, refl), refl)) keyed before in
        let seeded = (g1_setup col attempt id run.intake_id pairs s).0 in
        let step = g1_step (λ ps. some (score1 ps)) t run.run_request_id in
        (
          run_loop-Drains x1 step id g1_neutral IsReady tt seeded steady
              (g1_step-IsJudge (λ ps. some (score1 ps)) t run.run_request_id) g1_through
              (λ p h. (h.0, h.2)) (λ p h. h.1) h.0 h.1,
          All-map _ _ pairs (λ g k. run_loop-Has x1 step id g1_neutral tt _ seeded k) h.2,
        )

    pub stage2 :
        (s : State)
        → IsSteady x2
        → IsKeyed col s
        → RunRows col run.stage3_run_id PastG1 s
        → Drains col run.stage3_run_id g2_corroboration PastG1
            (run_g2 col x2 run (some subject_id) t (λ ps. some (score2 ps)) s)
    unfolding run_g2
    stage2 s steady keyed all =
        run_loop-Drains x2 (g2_step (λ ps. some (score2 ps)) t run.run_request_id) run.stage3_run_id
          g2_corroboration PastG1 tt s steady
          (g2_step-IsJudge (λ ps. some (score2 ps)) t run.run_request_id) g2_through keeps_g2
          (λ p h. h.0.1) keyed all

    pub stage3 :
        (s : State)
        → IsSteady x3
        → IsKeyed col s
        → RunRows col run.stage3_run_id PastG2 s
        → Drains col run.stage3_run_id g3_contradiction PastG2 (
            run_g3 col x3 run
              (some subject_id)
              t
              (λ ps. some (family_a ps))
              (λ ps. some (score3 ps))
              s)
    unfolding run_g3
    stage3 s steady keyed all =
        run_loop-Drains x3
          (g3_step (λ ps. some (family_a ps)) (λ ps. some (score3 ps)) t run.run_request_id)
          run.stage3_run_id g3_contradiction PastG2 tt s steady
          (g3_step-IsJudge (λ ps. some (family_a ps)) (λ ps. some (score3 ps)) t run.run_request_id)
          g3_through keeps_g3 (λ p h. h.0.0.1) keyed all

    pub stage4 :
        (s : State)
        → IsSteady x4
        → IsKeyed col s
        → RunRows col run.stage3_run_id PastG3 s
        → Drains col run.stage3_run_id g4_escalation PastG3
            (run_g4 col x4 run (some subject_id) model max_llm_pairs ask true (λ ps. true) s)
    unfolding run_g4
    stage4 s steady keyed all =
        run_loop-Drains x4 (g4_step run subject_id model ask max_llm_pairs true (λ ps. true))
          run.stage3_run_id g4_escalation PastG3 _ s steady
          (g4_step-IsJudge run subject_id model ask max_llm_pairs true (λ ps. true)) g4_through
          keeps_g4 (λ p h. h.0.0.0.1) keyed all
