-- ===== src/Loop/Keep.antt =====
-- A batch loop loses no row: leasing and routing write rows under the ids that they have read them
-- from.
use mathlib.Core.Option.{some-injective}
use mathlib.Core.Path.{subst}
use lakshmana_core.Prelude.{
  ℕ, zero, suc, ◌+◌, Bool, String, str_eq, eq_iff, some, List, [], ◌∷◌, ◌≡◌, sym, ◌∙◌, ap, inl, inr,
  Bool-cases, take, drop, length,
}
use lakshmana_core.Enums.{Gate}
use lakshmana_core.Firestore.{Collection}
use lakshmana_core.Firestore.Laws.{find-set_self, find-set_ne}
use lakshmana_core.Runs.{Time}
use lakshmana_core.Queue.{
  QueuedPair, Changes, routed_row, leased_row, lease_loop, claim_batch, free_rows, route_loop,
  route_chunks, route_all, route_txn_limit,
}
use lakshmana_core.Queue.Lease.{lease_loop-cases}
use lakshmana_core.Loop.{LoopEnd, Updates, Step, route_calls, gate_loop}
use lakshmana_core.Loop.Rows.{route_loop-cases}
use lakshmana_core.Loop.Drain.{gate_loop-cases}

module _ (col : Collection QueuedPair) (P : QueuedPair → Type 0)
    (leased : (p : QueuedPair) (owner : String) (expires : Time)
      → P p
      → P (leased_row p owner expires))
    (routed : (p : QueuedPair) (c : Changes) → P p → P (routed_row p c)) (k : String) where
  open col use {State, find, set}

  -- There is a row under the id, and it has the property.
  abbrev pub Has : State → Type 0
  Has s = (p : QueuedPair) × (find s k ≡ some p) × P p

  set-Has :
      (read s : State) (j : String) (row q : QueuedPair)
      → find read j ≡ some row
      → (P row → P q)
      → Has read
      → Has s
      → Has (set s j q)
  set-Has read s j row q was change (r, f, has) (p, here, h) = elim (Bool-cases (str_eq j k)) [
    | inl same ↦
        let same' = (eq_iff j k).0 same in
        (
          q,
          subst (λ x. find (set s j q) x ≡ some q) same' (find-set_self col s j q),
          change (
              subst P (some-injective r row (sym f ∙ (ap (λ x. find read x) (sym same') ∙ was)))
                has),
        )
    | inr other ↦ (p, find-set_ne col s j k q other ∙ here, h)
  ]

  lease_loop-Has :
      (read : State) (g : Gate) (owner : String) (now expires : Time) (ps : List QueuedPair)
      (s : State)
      → Has read
      → Has s
      → Has (lease_loop col read ps g owner now expires s).0
  unfolding lease_loop
  lease_loop-Has read g owner now expires [] s was h = h
  lease_loop-Has read g owner now expires (p ∷ ps) s was h =
      elim (lease_loop-cases col read g owner now expires p ps s) [
        | inl e ↦ rw e (lease_loop-Has read g owner now expires ps s was h)
        | inr (row, f, at, free, e) ↦ rw e (
            lease_loop-Has read g owner now expires ps _ was (
              set-Has read s p.pair_id row (leased_row row owner expires) f
                (leased row owner expires) was h))
      ]

  route_loop-Has :
      (read : State) (us : Updates) (s : State) (n : ℕ)
      → Has read
      → Has s
      → Has (route_loop col read us s n).0
  unfolding route_loop
  route_loop-Has read [] s n was h = h
  route_loop-Has read ((p, c) ∷ us) s n was h = elim (route_loop-cases col P read p c us s n) [
    | inl (lost, e) ↦ rw e (route_loop-Has read us s n was h)
    | inr (row, f, e) ↦ rw e (
        route_loop-Has read us _ (n + 1) was
          (set-Has read s p.pair_id row (routed_row row c) f (routed row c) was h))
  ]

  route_chunks-Has :
      (fuel : ℕ) (us : Updates) (s : State) (n : ℕ) → Has s → Has (route_chunks col fuel us s n).0
  unfolding route_chunks
  route_chunks-Has zero us s n h = h
  route_chunks-Has (suc fuel) [] s n h = h
  route_chunks-Has (suc fuel) (u ∷ us) s n h =
      route_chunks-Has fuel (drop route_txn_limit (u ∷ us)) _ _
        (route_loop-Has s (take route_txn_limit (u ∷ us)) s 0 h h)

  route_calls-Has : (calls : List Updates) (s : State) → Has s → Has (route_calls col calls s)
  unfolding route_calls route_all
  route_calls-Has [] s h = h
  route_calls-Has (us ∷ calls) s h = route_calls-Has calls _ (route_chunks-Has (length us) us s 0 h)

  module _ {J : Type 0} (step : Step J) (renewed : ℕ → Bool) (clock : ℕ → Time) (run : String)
      (g : Gate) (owner : String) (limit : ℕ) (lease : Time) where
    claim-Has :
        (now : Time) (s : State) → Has s → Has (claim_batch col run g owner limit now lease s s).0
    unfolding claim_batch
    claim-Has now s h =
        lease_loop-Has s g owner now (now + lease) (free_rows col run g limit now s) s h h

    -- However the loop ends.
    pub gate_loop-Has :
        (fuel i : ℕ) (j : J) (s : State)
        → Has s
        → Has (gate_loop col step renewed clock run g owner limit lease fuel i j s).0
    unfolding gate_loop
    gate_loop-Has zero i j s h = h
    gate_loop-Has (suc fuel) i j s h =
        let (leased, batch) = claim_batch col run g owner limit (clock i) lease s s in
        elim (gate_loop-cases col step renewed clock run g owner limit lease fuel i j s) [
          | inl (lost, e) ↦ rw e h
          | inr (inl (empty, e)) ↦ rw e (claim-Has (clock i) s h)
          | inr (inr (inl (fails, e))) ↦
              rw e (route_calls-Has (step j batch).1 leased (claim-Has (clock i) s h))
          | inr (inr (inr (p, rest, full, ok, e))) ↦
              subst (λ (r : State × J × LoopEnd). Has r.0) (sym e)
                (gate_loop-Has fuel (i + 1) _ _
                  (route_calls-Has (step j batch).1 leased (claim-Has (clock i) s h)))
        ]
