-- ===== src/Loop/Complete.antt =====
-- A batch loop that is left alone drains its gate.
use mathlib.Core.List.{Memᴰ}
use mathlib.Core.Path.{subst}
use lakshmana_core.Prelude.{
  ◌⊎◌, ℕ, zero, suc, ◌+◌, ◌<◌, Bool, true, String, none, some, List, [], ◌≡◌, ◌≢◌, refl, sym, ◌∙◌,
  ap, inl, inr, length,
}
use lakshmana_core.Enums.{Gate}
use lakshmana_core.Firestore.{Collection}
use lakshmana_core.Runs.{Time}
use lakshmana_core.Queue.{QueuedPair}
use lakshmana_core.Queue.Lease.{IsKeyed}
use lakshmana_core.Loop.{LoopEnd, drained, out_of_fuel, Step, gate_loop}
use lakshmana_core.Loop.Round.{
  IsJudge, claim, round-AtKey, routed-IsKeyed, claim-found, claim-IsKeyed,
}
use lakshmana_core.Loop.Drain.{gate_loop-cases, gate_loop-terminates}
use lakshmana_core.Loop.Empty.{claim_batch_empty, mem_nonempty}

-- A property that every row of the run has.
abbrev pub RunRows :
    (col : Collection QueuedPair) → String → (QueuedPair → Type 0) → col.State → Type 0
RunRows col run Q s =
    (k : String) (p : QueuedPair) → col.find s k ≡ some p → p.stage3_run_id ≡ run → Q p

-- How a loop ends that has drained its gate.
abbrev pub Drains :
    (col : Collection QueuedPair) {J : Type 0}
    → String
    → Gate
    → (QueuedPair → Type 0)
    → col.State × J × LoopEnd
    → Type 0
Drains col run g Q (s, j, e) =
    (e ≡ drained) × IsKeyed col s × RunRows col run (λ p. Q p × (p.gate ≢ some g)) s

module _ (col : Collection QueuedPair) {J : Type 0} (step : Step J) (renewed : ℕ → Bool)
    (clock : ℕ → Time) (run : String) (g : Gate) (owner : String) (limit : ℕ) (lease : Time)
    (R Q : QueuedPair → Type 0) (judge : IsJudge R step)
    (leaves : (p : QueuedPair) → R p → p.gate ≢ some g) (keeps : (p : QueuedPair) → R p → Q p)
    (unleased : (p : QueuedPair) → Q p → p.lease_expires_at ≡ none) where
  open col use {State, find, docs}

  abbrev loop : ℕ → ℕ → J → State → State × J × LoopEnd
  loop fuel i j s = gate_loop col step renewed clock run g owner limit lease fuel i j s

  abbrev IsDrained : State × J × LoopEnd → Type 0
  IsDrained = Drains col run g Q

  -- An empty claim leaves the rows as they were, and none of them at the gate.
  empty-IsDrained :
      (i : ℕ) (j : J) (s : State)
      → 0 < limit
      → IsKeyed col s
      → RunRows col run Q s
      → (claim col run g owner limit (clock i) lease s).1 ≡ []
      → IsDrained ((claim col run g owner limit (clock i) lease s).0, j, drained)
  empty-IsDrained i j s l keyed all empty = (
    refl,
    claim-IsKeyed col run g owner limit (clock i) lease s keyed,
    λ k p f ours.
        let before = was k p (claim-found col run g owner limit (clock i) lease s k p f) in
        (
          all k p before ours,
          claim_batch_empty col run g owner limit (clock i) lease s keyed l
              (λ k p f ours. unleased p (all k p f ours)) empty k p before ours,
        ),
  )
    where
      was :
          (k : String) (p : QueuedPair)
          → (find s k ≡ some p) ⊎ Memᴰ p (claim col run g owner limit (clock i) lease s).1
          → find s k ≡ some p
      was k p (inl f) = f
      was k p (inr m) = absurd (mem_nonempty m empty)

  module _ (always : (i : ℕ) → renewed i ≡ true)
      (through : (j : J) (ps : List QueuedPair) → (step j ps).2 ≡ true) where
    gate_loop-IsDrained :
        (fuel i : ℕ) (j : J) (s : State)
        → 0 < limit
        → IsKeyed col s
        → RunRows col run Q s
        → (loop fuel i j s).2 ≢ out_of_fuel
        → IsDrained (loop fuel i j s)
    unfolding gate_loop
    gate_loop-IsDrained zero i j s l keyed all ends = absurd (ends refl)
    gate_loop-IsDrained (suc fuel) i j s l keyed all ends =
        elim (gate_loop-cases col step renewed clock run g owner limit lease fuel i j s) [
          | inl (lost, e) ↦ absurd (cc (always i, lost))
          | inr (inl (empty, e)) ↦ subst IsDrained (sym e) (empty-IsDrained i j s l keyed all empty)
          | inr (inr (inl (fails, e))) ↦
              absurd (cc (through j (claim col run g owner limit (clock i) lease s).1, fails))
          | inr (inr (inr (p, rest, full, ok, e))) ↦ subst IsDrained (sym e) (
              gate_loop-IsDrained fuel (i + 1) _ _ l
                (routed-IsKeyed col R step judge j run g owner limit (clock i) lease s keyed)
                (λ k q f.
                  round-AtKey col R step judge j run g owner limit (clock i) lease s keyed
                    (λ p. p.stage3_run_id ≡ run → Q p) k (λ p r o. keeps p r) ok (all k) q f)
                (λ h. ends (ap (λ r. r.2) e ∙ h)))
        ]

    -- A batch loop with room for a pair, whose lease guard renews and whose step gets through each time,
    -- drains its gate: it ends because no batch is left, and then no row of the run stands at the gate.
    -- It asks that the run's rows have no lease when it starts, and keeps, besides, any property of theirs
    -- that the step's rows have.
    pub gate_loop-Drains :
        (j : J) (s : State) (fuel : ℕ)
        → 0 < limit
        → IsKeyed col s
        → RunRows col run Q s
        → length (docs s) < fuel
        → Drains col run g Q (gate_loop col step renewed clock run g owner limit lease fuel 0 j s)
    gate_loop-Drains j s fuel l keyed all enough = gate_loop-IsDrained fuel 0 j s l keyed all (
        gate_loop-terminates col step renewed clock run g owner limit lease R judge leaves j s fuel
          keyed enough)
