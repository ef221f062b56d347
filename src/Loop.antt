-- ===== src/Loop.antt =====
-- The batch loops of `run_g1`, `run_g2`, `run_g3` and `run_g4` of gatekeeper/gates: renew the lease, lease
-- a batch, judge it, route it. The loops have this in common, so they are one definition here; what a
-- gate does to a batch is its step, which gives the calls of `route_all` that it makes, in order, and
-- whether it gets through or raises then. The scorers and the model are arguments of the steps.
pub mod Rows
pub mod Round
pub mod Drain
pub mod Empty
pub mod Complete
pub mod Keep
pub mod Steps
use lakshmana_core.Prelude.{
  ℕ, zero, suc, ◌+◌, Bool, true, false, not, ◌&&◌, String, Option, none, some, List, [], ◌∷◌, map,
  select, if◌then◌else◌,
}
use lakshmana_core.Enums.{Gate, JudgeMode, shadow, gatekeeper}
use lakshmana_core.Decisions.{Thresholds, G1Scores, G2Scores, G3Scores}
use lakshmana_core.Firestore.{Collection}
use lakshmana_core.Runs.{Time, GatekeeperRun}
use lakshmana_core.Queue.{QueuedPair, Changes, claim_batch, route_all}
use lakshmana_core.Routing.{g1_update, pass_through, g2_update, g3_update}
use lakshmana_core.Tail.{Response, TailCounters, Judging, judge_loop, shadow_loop}

-- How a loop ends: no batch was left, the gate's lease has moved on, or the gate has raised.
-- `out_of_fuel` is no end of the code's loop.
pub data LoopEnd : Type 0 where
  drained lease_lost raised out_of_fuel : LoopEnd

abbrev pub Updates : Type 0
Updates = List (QueuedPair × Changes)

-- What a gate does to a batch, with a state of its own; `false` stands for an exception.
abbrev pub Step : Type 0 → Type 0
Step J = J → List QueuedPair → J × List Updates × Bool

module _ (col : Collection QueuedPair) where
  open col use {State}

  unfoldable pub route_calls : List Updates → State → State
  route_calls [] s = s
  route_calls (us ∷ rest) s = route_calls rest (route_all col us s).0

  module _ {J : Type 0} (step : Step J) (renewed : ℕ → Bool) (clock : ℕ → Time)
      (stage3_run_id : String) (g : Gate) (owner : String) (limit : ℕ) (lease : Time) where
    -- Round `i` reads the clock and the lease guard of that round.
    unfoldable pub gate_loop : ℕ → ℕ → J → State → State × J × LoopEnd
    gate_loop zero i j s = (s, j, out_of_fuel)
    gate_loop (suc fuel) i j s =
        if not (renewed i)
        then (s, j, lease_lost)
        else let (leased, batch) =
            claim_batch col stage3_run_id g owner limit (clock i) lease s s in
          elim batch [
            | [] ↦ (leased, j, drained)
            | p ∷ rest ↦
                let (j', calls, ok) = step j (p ∷ rest) in
                let routed = route_calls calls leased in
                elim ok [ true ↦ gate_loop fuel (i + 1) j' routed | false ↦ (routed, j', raised) ]
          ]

-- The steps of the encoder gates, which keep no state; a scorer answers a batch with the scores of its
-- pairs, or raises.
unfoldable pub g1_step :
    (List QueuedPair → Option (QueuedPair → G1Scores)) → Thresholds → String → Step Unit
g1_step score t id j batch = elim (score batch) [
  | none ↦ (tt, [], false)
  | some scores ↦ (tt, map (λ p. g1_update (scores p) t id p) batch ∷ [], true)
]

-- G2 routes the flagged pairs first, and asks the scorer about the others, when there are any.
unfoldable pub g2_step :
    (List QueuedPair → Option (QueuedPair → G2Scores)) → Thresholds → String → Step Unit
g2_step score t id j batch =
    let judged = select (λ p. not p.contradiction_flag) batch in
    let flagged = select (λ p. p.contradiction_flag) batch in
    let passed : Updates = map (λ p. (p, pass_through id)) flagged in
    elim judged [
      | [] ↦ (tt, passed ∷ [], true)
      | p ∷ rest ↦ elim (score (p ∷ rest)) [
        | none ↦ (tt, passed ∷ [], false)
        | some scores ↦ (tt, passed ∷ map (g2_update scores t id) (p ∷ rest) ∷ [], true)
      ]
    ]

unfoldable pub g3_step :
    (List QueuedPair → Option (QueuedPair → G1Scores))
    → (List QueuedPair → Option (QueuedPair → G3Scores))
    → Thresholds
    → String
    → Step Unit
g3_step read_family_a score t id j batch = elim (read_family_a batch) [
  | none ↦ (tt, [], false)
  | some a ↦ elim (score batch) [
    | none ↦ (tt, [], false)
    | some b ↦ (tt, map (λ p. g3_update (a p) (b p) t id p) batch ∷ [], true)
  ]
]

-- What G4 carries from batch to batch.
pub record TailState : Type 0 where
  pub counters : TailCounters
  pub spent : ℕ

abbrev pub is_gatekeeper : JudgeMode → Bool
is_gatekeeper gatekeeper = true
is_gatekeeper _ = false

abbrev pub is_shadow_mode : JudgeMode → Bool
is_shadow_mode shadow = true
is_shadow_mode _ = false

-- The step of G4. `live` says whether the client calls the model, and `has_cards` whether the graph has
-- the claim cards of a batch. The client is built at the first batch, and its refusal of a dry run in
-- GATEKEEPER mode is the same at each.
unfoldable pub g4_step :
    GatekeeperRun
    → String
    → String
    → (QueuedPair → Response)
    → ℕ
    → Bool
    → (List QueuedPair → Bool)
    → Step TailState
g4_step run subject_id model ask max_llm_pairs live has_cards j batch =
    let start : Judging = record {
      verdicts = [];
      routes = [];
      counters = j.counters;
      spent = j.spent;
    } in
    let after : Judging → TailState × List Updates × Bool =
      λ w. (record { counters = w.counters; spent = w.spent }, w.routes ∷ [], true) in
    if is_shadow_mode run.judge_mode
    then after (shadow_loop run subject_id model start batch)
    else if is_gatekeeper run.judge_mode && not live
    then (j, [], false)
    else if not (has_cards batch)
    then (j, [], false)
    else elim (judge_loop run subject_id model ask max_llm_pairs start batch) [
      | none ↦ (j, [], false)
      | some w ↦ after w
    ]
