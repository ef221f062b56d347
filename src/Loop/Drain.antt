-- ===== src/Loop/Drain.antt =====
-- The batch loops come to an end.
use mathlib.Core.List.{Memᴰ}
use mathlib.Core.Option.{some-injective}
use mathlib.Core.Path.{subst}
use lakshmana_core.Prelude.{
  ℕ, zero, suc, ◌+◌, ◌<◌, Bool, true, false, not, String, str_eq, eq_iff, eq_refl, some, List, [],
  ◌∷◌, ◌≡◌, ◌≢◌, refl, sym, ◌∙◌, ap, ◌⊎◌, inl, inr, All, arith, Bool-cases, Option-cases,
  List-cases, length, select, map, mem-select, mem-map, length-map, length-select_lt,
}
use lakshmana_core.Enums.{Gate, is_gate}
use lakshmana_core.Enums.Order.{is_gate_refl}
use lakshmana_core.Firestore.{Collection}
use lakshmana_core.Runs.{Time}
use lakshmana_core.Queue.{QueuedPair, same_gate, claim_batch}
use lakshmana_core.Queue.Lease.{IsKeyed, IsTaken, claim_batch-IsTaken, same_gate-eq}
use lakshmana_core.Loop.{LoopEnd, drained, lease_lost, raised, out_of_fuel, Step, gate_loop}
use lakshmana_core.Loop.Rows.{AtKey}
use lakshmana_core.Loop.Round.{IsJudge, claim, round, batch-done, round-AtKey, routed-IsKeyed}

module _ (col : Collection QueuedPair) {J : Type 0} (step : Step J) (renewed : ℕ → Bool)
    (clock : ℕ → Time) (run : String) (g : Gate) (owner : String) (limit : ℕ) (lease : Time) where
  open col use {State, find, docs, docs_complete}

  abbrev loop : ℕ → ℕ → J → State → State × J × LoopEnd
  loop fuel i j s = gate_loop col step renewed clock run g owner limit lease fuel i j s

  abbrev claim_at : ℕ → State → State × List QueuedPair
  claim_at i s = claim col run g owner limit (clock i) lease s

  abbrev round_at : ℕ → J → State → State
  round_at i j s = round col run g owner limit (clock i) lease s step j

  pub gate_loop-cases :
      (fuel i : ℕ) (j : J) (s : State)
      → ((renewed i ≡ false) × (loop (suc fuel) i j s ≡ (s, j, lease_lost)))
        ⊎ (((claim_at i s).1 ≡ []) × (loop (suc fuel) i j s ≡ ((claim_at i s).0, j, drained)))
        ⊎ (((step j (claim_at i s).1).2 ≡ false)
            × (loop (suc fuel) i j s ≡ (round_at i j s, (step j (claim_at i s).1).0, raised)))
        ⊎ ((p : QueuedPair) × (rest : List QueuedPair) × ((claim_at i s).1 ≡ p ∷ rest)
            × ((step j (claim_at i s).1).2 ≡ true)
            × (loop (suc fuel) i j s
                ≡ loop fuel (i + 1) (step j (claim_at i s).1).0 (round_at i j s)))
  unfolding gate_loop claim_batch
  gate_loop-cases fuel i j s = elim (Bool-cases (renewed i)) [
    | inr e ↦ inl (e, rw (gate_loop, e) refl)
    | inl e ↦ elim (List-cases (claim_at i s).1) [
      | inl empty ↦ inr (inl (empty, rw (gate_loop, e, empty) refl))
      | inr (p, rest, full) ↦ elim (Bool-cases (step j (p ∷ rest)).2) [
        | inl ok ↦ inr (inr (inr (p, rest, full, rw full ok, rw (gate_loop, e, full, ok) refl)))
        | inr fails ↦ inr (inr (inl (rw full fails, rw (gate_loop, e, full, fails) refl)))
      ]
    ]
  ]

  -- The list has the ids of all rows at the gate.
  abbrev Covers : State → List String → Type 0
  Covers s ks = (k : String) (p : QueuedPair) → find s k ≡ some p → p.gate ≡ some g → Memᴰ k ks

  docs-Covers : (s : State) → Covers s (map (λ d. d.0) (docs s))
  docs-Covers s k p e at = mem-map (λ d. d.0) (docs_complete s k p e)

  module _ (R : QueuedPair → Type 0) (judge : IsJudge R step)
      (leaves : (p : QueuedPair) → R p → p.gate ≢ some g) where
    -- After a round that has got through, the first pair of its batch is no longer at the gate, and no
    -- pair has come to it.
    round-Covers :
        (i : ℕ) (j : J) (s : State) (ks : List String) (p : QueuedPair) (rest : List QueuedPair)
        → IsKeyed col s
        → Covers s ks
        → (claim_at i s).1 ≡ p ∷ rest
        → (step j (claim_at i s).1).2 ≡ true
        → Covers (round_at i j s) (select (λ k. not (str_eq k p.pair_id)) ks)
    round-Covers i j s ks p rest keyed covers full ok k q e at =
        elim (Bool-cases (str_eq k p.pair_id)) [
          | inl same ↦ absurd (
              leaves q
                (first.0 q
                  (subst (λ x. find (round_at i j s) x ≡ some q) ((eq_iff k p.pair_id).0 same) e))
                at)
          | inr other ↦ mem-select (λ k. not (str_eq k p.pair_id)) (rw other refl) (covered other)
        ]
      where
        first : All (λ (p : QueuedPair). AtKey col R p.pair_id (round_at i j s)) (p ∷ rest)
        first =
            subst (All (λ (p : QueuedPair). AtKey col R p.pair_id (round_at i j s))) full
              (batch-done col R step judge j run g owner limit (clock i) lease s keyed ok)

        -- A row that was not at the gate before the round is not after it.
        stays : ((r : QueuedPair) → find s k ≡ some r → r.gate ≢ some g) → q.gate ≢ some g
        stays h =
            round-AtKey col R step judge j run g owner limit (clock i) lease s keyed
              (λ p. p.gate ≢ some g) k leaves ok h q e

        not_at :
            (r r' : QueuedPair)
            → find s k ≡ some r
            → find s k ≡ some r'
            → r'.gate ≡ some g
            → same_gate r.gate (some g) ≡ false
            → ⊥
        not_at r r' f f' at' away =
            let at : r.gate ≡ some g = ap (λ x. x.gate) (some-injective r r' (sym f ∙ f')) ∙ at' in
            let no : is_gate g g ≡ false = subst (λ x. same_gate x (some g) ≡ false) at away in
            cc (is_gate_refl g, no)

        covered : str_eq k p.pair_id ≡ false → Memᴰ k ks
        covered other = elim (Option-cases (find s k)) [
          | inl gone ↦ absurd (stays (λ r f. absurd (cc (gone, f))) at)
          | inr (r, f) ↦ elim (Bool-cases (same_gate r.gate (some g))) [
            | inl here ↦ covers k r f (same_gate-eq r.gate g here)
            | inr away ↦ absurd (stays (λ r' f' at'. not_at r r' f f' at' away) at)
          ]
        ]

    shorter :
        (i : ℕ) (s : State) (ks : List String) (p : QueuedPair) (rest : List QueuedPair)
        → IsKeyed col s
        → Covers s ks
        → (claim_at i s).1 ≡ p ∷ rest
        → length (select (λ k. not (str_eq k p.pair_id)) ks) < length ks
    shorter i s ks p rest keyed covers full =
        let taken : All (λ p. IsTaken g owner (clock i) (clock i + lease) (find s p.pair_id) p)
            (p ∷ rest) =
          subst (All (λ p. IsTaken g owner (clock i) (clock i + lease) (find s p.pair_id) p)) full
            (claim_batch-IsTaken col run g owner limit (clock i) lease s s keyed).1 in
        length-select_lt (λ k. not (str_eq k p.pair_id)) (rw (eq_refl p.pair_id) refl)
          (covers p.pair_id taken.0.row taken.0.was taken.0.at_gate)

    pub gate_loop-ends :
        (fuel i : ℕ) (j : J) (s : State) (ks : List String)
        → IsKeyed col s
        → Covers s ks
        → length ks < fuel
        → (loop fuel i j s).2 ≢ out_of_fuel
    gate_loop-ends zero i j s ks keyed covers l = absurd (omega (arith, l))
    gate_loop-ends (suc fuel) i j s ks keyed covers l = elim (gate_loop-cases fuel i j s) [
      | inl (lost, e) ↦ λ h. cc (e, h)
      | inr (inl (empty, e)) ↦ λ h. cc (e, h)
      | inr (inr (inl (fails, e))) ↦ λ h. cc (e, h)
      | inr (inr (inr (p, rest, full, ok, e))) ↦ rw e (
          gate_loop-ends fuel (i + 1) (step j (claim_at i s).1).0 (round_at i j s)
            (select (λ k. not (str_eq k p.pair_id)) ks)
            (routed-IsKeyed col R step judge j run g owner limit (clock i) lease s keyed)
            (round-Covers i j s ks p rest keyed covers full ok)
            (omega (arith, l, shorter i s ks p rest keyed covers full)))
    ]

    -- A batch loop ends after at most one round more than the queue has documents, if its step routes
    -- every pair of a batch away from the gate, whatever the scorers, the lease guard and the clock do.
    pub gate_loop-terminates :
        (j : J) (s : State) (fuel : ℕ)
        → IsKeyed col s
        → length (docs s) < fuel
        → (gate_loop col step renewed clock run g owner limit lease fuel 0 j s).2 ≢ out_of_fuel
    gate_loop-terminates j s fuel keyed l =
        gate_loop-ends fuel 0 j s (map (λ d. d.0) (docs s)) keyed (docs-Covers s)
          (rw (length-map (λ (d : String × QueuedPair). d.0) (docs s)) l)
