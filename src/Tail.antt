-- ===== src/Tail.antt =====
-- The escalation tail: `_judge_batch`, `_reject` and `_record_shadow` of gatekeeper/gates/g4.py. The
-- model's response to a pair, `ask`, is what `client.generate` and `parse_g4_response` give or raise. `llmSpendUsd`, a sum of doubles, is left out of the
-- counters, and so are the log lines.
pub mod Cap
pub mod Shadow
use lakshmana_core.Prelude.{
  ℕ, ◌+◌, Bool, true, false, not, ◌&&◌, String, Option, none, some, List, [], ◌∷◌, ◌++◌, leb, ◌==◌,
  if◌then◌else◌,
}
use lakshmana_core.Enums.{
  Method, gk_g4_llm, Verdict, EscalationReason, cap_exceeded, llm_error, llm_tail, human,
  g4_escalation,
}
use lakshmana_core.Decisions.{Score}
use lakshmana_core.Firestore.{Collection}
use lakshmana_core.Runs.{GatekeeperRun, gate}
use lakshmana_core.Queue.{QueuedPair, Changes, route_all}
use lakshmana_core.Edges.{EdgeVerdict}

pub record Answer : Type 0 where
  pub relation : Verdict
  pub confidence : Option Score
  pub rationale : Option String
  pub temporal_note : Option String
  pub prompt_tokens : ℕ
  pub output_tokens : ℕ

-- An answer; a VertexError or ValueError, which `_judge_batch` catches; or another exception, such as the
-- OverflowError of the parser, which it does not.
pub data Response : Type 0 where
  given : Answer → Response
  refused uncaught : Response

pub record TailCounters : Type 0 where
  pub seen : ℕ
  pub decided : ℕ
  pub llm_calls : ℕ
  pub llm_errors : ℕ
  pub capped : ℕ
  pub shadow_suppressed : ℕ
  pub prompt_tokens : ℕ
  pub output_tokens : ℕ

-- What the loop over a batch accumulates.
pub record Judging : Type 0 where
  pub verdicts : List EdgeVerdict
  pub routes : List (QueuedPair × Changes)
  pub counters : TailCounters
  pub spent : ℕ

-- `SHADOW_WOULD_ESCALATE_LLM`
abbrev pub would_escalate_llm : String
would_escalate_llm = "WOULD_ESCALATE_LLM"

-- The constructor calls of `EdgeVerdict`, around the fields that differ.
abbrev pub tail_verdict : GatekeeperRun → String → String → QueuedPair → EdgeVerdict
tail_verdict run subject_id model p = record {
  claim_a_id = p.claim_a_id;
  claim_b_id = p.claim_b_id;
  subject_id = subject_id;
  intake_id = run.intake_id;
  stage3_run_id = run.stage3_run_id;
  run_request_id = run.run_request_id;
  slot = "g4";
  method = gk_g4_llm;
  judge_model = model;
  stage_scores = [];
  verdict = none;
  confidence = none;
  escalation_reason = none;
  truncated = false;
  with_context = p.with_context;
  attempt = (gate run g4_escalation).attempt;
  rationale = none;
  temporal_note = none;
  shadow_verdict = none;
}

-- The routing dicts of the three functions.
abbrev pub human_route : GatekeeperRun → Changes
human_route run = record {
  gate = none;
  tier = human;
  decided_by = none;
  gk_run_request_id = run.run_request_id;
  contradiction_flag = none;
}

abbrev pub tail_route : GatekeeperRun → Option Method → Changes
tail_route run decided_by = record {
  gate = none;
  tier = llm_tail;
  decided_by = decided_by;
  gk_run_request_id = run.run_request_id;
  contradiction_flag = none;
}

-- `max_llm_pairs and spent >= max_llm_pairs`
unfoldable pub is_capped : ℕ → ℕ → Bool
is_capped max_llm_pairs spent = not (max_llm_pairs == 0) && leb max_llm_pairs spent

module _ (run : GatekeeperRun) (subject_id model : String) where
  -- `_reject`
  unfoldable pub reject : EscalationReason → QueuedPair → Judging → Judging
  reject reason p w = record w {
    verdicts =
        w.verdicts
        ++ (record (tail_verdict run subject_id model p) { escalation_reason = some reason }) ∷ [];
    routes = w.routes ++ (p, human_route run) ∷ [];
  }

  -- One round of the loop of `_record_shadow`.
  unfoldable pub shadow_one : Judging → QueuedPair → Judging
  shadow_one w p = record w {
    verdicts =
        w.verdicts
        ++ (record (tail_verdict run subject_id model p) {
          shadow_verdict = some would_escalate_llm;
        })
          ∷ [];
    routes = w.routes ++ (p, tail_route run none) ∷ [];
    counters = record w.counters {
      seen = w.counters.seen + 1;
      shadow_suppressed = w.counters.shadow_suppressed + 1;
    };
  }

  unfoldable pub shadow_loop : Judging → List QueuedPair → Judging
  shadow_loop w [] = w
  shadow_loop w (p ∷ rest) = shadow_loop (shadow_one w p) rest

  -- The three ways in which a round of `_judge_batch` ends.
  abbrev pub over_cap : Judging → QueuedPair → Judging
  over_cap w p = record (reject cap_exceeded p w) {
    counters = record w.counters { seen = w.counters.seen + 1; capped = w.counters.capped + 1 };
  }

  abbrev pub after_error : Judging → QueuedPair → Judging
  after_error w p = record (reject llm_error p w) {
    counters = record w.counters {
      seen = w.counters.seen + 1;
      llm_errors = w.counters.llm_errors + 1;
      llm_calls = w.counters.llm_calls + 1;
    };
    spent = w.spent + 1;
  }

  abbrev pub after_answer : Judging → QueuedPair → Answer → Judging
  after_answer w p a = record {
    verdicts =
        w.verdicts
        ++ (record (tail_verdict run subject_id model p) {
          verdict = some a.relation;
          confidence = a.confidence;
          rationale = a.rationale;
          temporal_note = a.temporal_note;
        })
          ∷ [];
    routes = w.routes ++ (p, tail_route run (some gk_g4_llm)) ∷ [];
    counters = record w.counters {
      seen = w.counters.seen + 1;
      llm_calls = w.counters.llm_calls + 1;
      decided = w.counters.decided + 1;
      prompt_tokens = w.counters.prompt_tokens + a.prompt_tokens;
      output_tokens = w.counters.output_tokens + a.output_tokens;
    };
    spent = w.spent + 1;
  }

  module _ (ask : QueuedPair → Response) (max_llm_pairs : ℕ) where
    -- One round of the loop of `_judge_batch`; `none` stands for an exception that leaves it.
    unfoldable pub judge_one : Judging → QueuedPair → Option Judging
    judge_one w p = if is_capped max_llm_pairs w.spent then some (over_cap w p) else elim (ask p) [
      | uncaught ↦ none
      | refused ↦ some (after_error w p)
      | given a ↦ some (after_answer w p a)
    ]

    unfoldable pub judge_loop : Judging → List QueuedPair → Option Judging
    judge_loop w [] = some w
    judge_loop w (p ∷ rest) = elim (judge_one w p) [ none ↦ none | some w' ↦ judge_loop w' rest ]

    -- `_judge_batch`: the queue after the routes, and the loop's result, whose verdicts are written. An
    -- exception that leaves the loop leaves the queue as it was.
    unfoldable pub judge_batch :
        (col : Collection QueuedPair)
        → List QueuedPair
        → TailCounters
        → ℕ
        → col.State
        → col.State × Option Judging
    judge_batch col batch counters spent s =
        let start : Judging = record {
          verdicts = [];
          routes = [];
          counters = counters;
          spent = spent;
        } in
        elim (judge_loop start batch) [
          | none ↦ (s, none)
          | some done ↦ ((route_all col done.routes s).0, some done)
        ]
