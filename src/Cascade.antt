-- ===== src/Cascade.antt =====
-- The four gates on one queue, one after another: `run_g1`, with its purge and its seeding of the queue,
-- `run_g2`, `run_g3` and `run_g4` of gatekeeper/gates, each with its batch loop. The edge rows and the
-- counters, which no routing reads, are left out.
pub mod Setup
pub mod Ready
pub mod Stages
pub mod Whole
use lakshmana_core.Prelude.{
  ℕ, suc, ◌+◌, Bool, true, false, String, Option, none, some, List, leb, length, if◌then◌else◌,
}
use lakshmana_core.Enums.{
  Gate, g1_neutral, g2_corroboration, g3_contradiction, g4_escalation, gk_g4_llm,
}
use lakshmana_core.Decisions.{Thresholds, G1Scores, G2Scores, G3Scores}
use lakshmana_core.Firestore.{Collection}
use lakshmana_core.Runs.{Time, GatekeeperRun, gate}
use lakshmana_core.Queue.{QueuedPair, GraphPair, seed, reset, count_decided_by}
use lakshmana_core.Tail.{Response, TailCounters}
use lakshmana_core.Loop.{LoopEnd, Step, gate_loop, g1_step, g2_step, g3_step, TailState, g4_step}

-- One execution of a gate by a worker: its owner and lease, the batch size, what each renewal of the
-- gate's lease answers, and the time of each claim of a batch.
pub record Execution : Type 0 where
  pub owner : String
  pub batch_size : ℕ
  pub lease : Time
  pub renewed : ℕ → Bool
  pub clock : ℕ → Time

-- `Counter(dict.fromkeys(G4_COUNTERS, 0))`
abbrev pub no_tail_counters : TailCounters
no_tail_counters = record {
  seen = 0;
  decided = 0;
  llm_calls = 0;
  llm_errors = 0;
  capped = 0;
  shadow_suppressed = 0;
  prompt_tokens = 0;
  output_tokens = 0;
}

module _ (col : Collection QueuedPair) where
  open col use {State, docs}

  -- The batch loop of an execution, with fuel for a round more than the queue has rows.
  unfoldable pub run_loop :
      {J : Type 0} → Execution → Step J → String → Gate → J → State → State × J × LoopEnd
  run_loop x step stage3_run_id g j s =
      gate_loop col step x.renewed x.clock stage3_run_id g x.owner x.batch_size x.lease
        (suc (length (docs s))) 0 j s

  -- A gate refuses to start when the run names no subject.
  abbrev pub with_subject :
      {J : Type 0}
      → Option String
      → J
      → (String → State → State × J × LoopEnd)
      → State
      → State × J × LoopEnd
  with_subject none j body s = (s, j, LoopEnd.raised)
  with_subject (some subject_id) j body s = body subject_id s

  -- What G1 does to the queue before its loop: a purge at the first attempt, and the seeding, with the
  -- counts of both.
  unfoldable pub g1_setup : ℕ → String → String → List GraphPair → State → State × ℕ × ℕ
  g1_setup attempt stage3_run_id intake_id pairs s =
      let (purged, purged_queue) = if leb attempt 1 then reset col stage3_run_id s else (s, 0) in
      let (seeded, created) = seed col stage3_run_id intake_id pairs purged in
      (seeded, purged_queue, created)

  module _ (x : Execution) (run : GatekeeperRun) (subject : Option String) (t : Thresholds) where
    unfoldable pub run_g1 :
        List GraphPair
        → (List QueuedPair → Option (QueuedPair → G1Scores))
        → State
        → State × Unit {0} × LoopEnd
    run_g1 pairs score = with_subject subject tt (λ subject_id s.
        let seeded =
          (g1_setup (gate run g1_neutral).attempt run.stage3_run_id run.intake_id pairs s).0 in
        run_loop x (g1_step score t run.run_request_id) run.stage3_run_id g1_neutral tt seeded)

    unfoldable pub run_g2 :
        (List QueuedPair → Option (QueuedPair → G2Scores)) → State → State × Unit {0} × LoopEnd
    run_g2 score = with_subject subject tt (λ subject_id s.
        run_loop x (g2_step score t run.run_request_id) run.stage3_run_id g2_corroboration tt s)

    unfoldable pub run_g3 :
        (List QueuedPair → Option (QueuedPair → G1Scores))
        → (List QueuedPair → Option (QueuedPair → G3Scores))
        → State
        → State × Unit {0} × LoopEnd
    run_g3 read_family_a score = with_subject subject tt (λ subject_id s.
        run_loop x (g3_step read_family_a score t run.run_request_id) run.stage3_run_id
          g3_contradiction tt s)

  -- G4 starts from the spend that the queue shows.
  unfoldable pub run_g4 :
      Execution
      → GatekeeperRun
      → Option String
      → String
      → ℕ
      → (QueuedPair → Response)
      → Bool
      → (List QueuedPair → Bool)
      → State
      → State × TailState × LoopEnd
  run_g4 x run subject model max_llm_pairs ask live has_cards s =
      let start : TailState = record {
        counters = no_tail_counters;
        spent = count_decided_by col run.stage3_run_id gk_g4_llm s;
      } in
      with_subject subject start
        (λ subject_id s.
          run_loop x (g4_step run subject_id model ask max_llm_pairs live has_cards)
            run.stage3_run_id g4_escalation start s)
        s
