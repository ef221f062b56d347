-- ===== src/Loop/Round.antt =====
-- One round of a batch loop: what leasing a batch and routing it leave under each id.
use mathlib.Core.List.{Memᴰ}
use mathlib.Core.Option.{some-injective}
use lakshmana_core.Prelude.{
  ℕ, zero, suc, ◌+◌, Bool, true, String, str_eq, eq_iff, eq_refl, Option, none, some, List, [], ◌∷◌,
  ◌≡◌, refl, sym, ◌∙◌, ap, ◌⊎◌, inl, inr, All, arith, Bool-cases, Option-cases, take, drop, length,
  All-map, All-mem,
}
use lakshmana_core.Enums.{Gate}
use lakshmana_core.Enums.Order.{is_gate_refl}
use lakshmana_core.Firestore.{Collection}
use lakshmana_core.Firestore.Laws.{find-set_self, find-set_ne, set-AllDocs}
use lakshmana_core.Runs.{Time}
use lakshmana_core.Queue.{
  QueuedPair, Changes, routed_row, leased_row, still_owned, same_gate, same_string, lease_loop,
  claim_batch, free_rows, route_loop, route_chunks, route_all, route_txn_limit,
}
use lakshmana_core.Queue.Lease.{IsKeyed, lease_loop-cases, lease_loop-IsKeyed, claim_batch-IsTaken}
use lakshmana_core.Loop.{Updates, Step, route_calls}
use lakshmana_core.Loop.Rows.{
  AtKey, Makes, IsDue, route_loop-cases, route_calls-AtKey, route_calls-done,
}

pub same_gate_refl : (g : Option Gate) → same_gate g g ≡ true
same_gate_refl none = refl
same_gate_refl (some g) = is_gate_refl g

same_string_refl : (s : Option String) → same_string s s ≡ true
same_string_refl none = refl
same_string_refl (some s) = eq_refl s

still_owned_refl : (p : QueuedPair) → still_owned p p ≡ true
unfolding still_owned
still_owned_refl p = rw (same_gate_refl p.gate) (same_string_refl p.lease_owner)

-- What a step has to make of a batch for its gate: every row that its calls make has the property `R`,
-- they route no pair that is not in the batch, and, when the step gets through, every pair that is.
pub record Judged {J : Type 0} (R : QueuedPair → Type 0) (batch : List QueuedPair)
    (r : J × List Updates × Bool) : Type 1 where
  pub makes : All (Makes R) r.1
  pub only :
      (Q : QueuedPair → Type 0) → All Q batch → All (All (λ (u : QueuedPair × Changes). Q u.0)) r.1
  pub all_routed :
      (Q : QueuedPair → Type 0)
      → r.2 ≡ true
      → All (All (λ (u : QueuedPair × Changes). Q u.0)) r.1
      → All Q batch

abbrev pub IsJudge : {J : Type 0} → (QueuedPair → Type 0) → Step J → Type 1
IsJudge {J = J} R step = (j : J) (batch : List QueuedPair) → Judged R batch (step j batch)

module _ (col : Collection QueuedPair) where
  open col use {State, find, set}

  -- A row after a leasing transaction is as it was before, or it was leased.
  pub lease_loop-found :
      (read : State) (g : Gate) (owner : String) (now expires : Time) (ps : List QueuedPair)
      (s : State) (k : String) (q : QueuedPair)
      → find (lease_loop col read ps g owner now expires s).0 k ≡ some q
      → (find s k ≡ some q) ⊎ Memᴰ q (lease_loop col read ps g owner now expires s).1
  unfolding lease_loop
  lease_loop-found read g owner now expires [] s k q e = inl e
  lease_loop-found read g owner now expires (p ∷ ps) s k q e =
      elim (lease_loop-cases col read g owner now expires p ps s) [
        | inl skip ↦ rw skip (lease_loop-found read g owner now expires ps s k q (rw skip at e))
        | inr (row, was, at, free, take_it) ↦
            let lent = leased_row row owner expires in
            rw take_it
              (elim (lease_loop-found read g owner now expires ps (set s p.pair_id lent) k q
                (rw take_it at e)) [
                  | inr there ↦ inr (Memᴰ.tail there)
                  | inl here ↦ elim (Bool-cases (str_eq p.pair_id k)) [
                    | inl same ↦ inr (
                        Memᴰ.head (
                          some-injective q lent (
                            sym here
                            ∙ (ap (λ x. find (set s p.pair_id lent) x)
                                  (sym ((eq_iff p.pair_id k).0 same))
                                ∙ find-set_self col s p.pair_id lent))))
                    | inr other ↦ inl (sym (find-set_ne col s p.pair_id k lent other) ∙ here)
                  ]
                ])
      ]

  route_loop-IsKeyed :
      (read : State) (us : Updates) (s : State) (n : ℕ)
      → IsKeyed col read
      → IsKeyed col s
      → IsKeyed col (route_loop col read us s n).0
  unfolding route_loop
  route_loop-IsKeyed read [] s n keyed all = all
  route_loop-IsKeyed read ((p, c) ∷ us) s n keyed all =
      elim (route_loop-cases col (λ p. Unit) read p c us s n) [
        | inl (lost, e) ↦ rw e (route_loop-IsKeyed read us s n keyed all)
        | inr (row, f, e) ↦ rw e (
            route_loop-IsKeyed read us (set s p.pair_id (routed_row row c)) (n + 1) keyed (
              set-AllDocs col (λ k q. q.pair_id ≡ k) s p.pair_id (routed_row row c)
                (keyed p.pair_id row f) all))
      ]

  route_chunks-IsKeyed :
      (fuel : ℕ) (us : Updates) (s : State) (n : ℕ)
      → IsKeyed col s
      → IsKeyed col (route_chunks col fuel us s n).0
  unfolding route_chunks
  route_chunks-IsKeyed zero us s n all = all
  route_chunks-IsKeyed (suc fuel) [] s n all = all
  route_chunks-IsKeyed (suc fuel) (u ∷ us) s n all =
      route_chunks-IsKeyed fuel (drop route_txn_limit (u ∷ us)) _ _
        (route_loop-IsKeyed s (take route_txn_limit (u ∷ us)) s 0 all all)

  route_calls-IsKeyed :
      (calls : List Updates) (s : State) → IsKeyed col s → IsKeyed col (route_calls col calls s)
  unfolding route_calls route_all
  route_calls-IsKeyed [] s all = all
  route_calls-IsKeyed (us ∷ calls) s all =
      route_calls-IsKeyed calls _ (route_chunks-IsKeyed (length us) us s 0 all)

  module _ (run : String) (g : Gate) (owner : String) (limit : ℕ) (now lease : Time)
      (s : State) where
    -- The state and the batch of the claim, and the state after the step's calls.
    abbrev pub claim : State × List QueuedPair
    claim = claim_batch col run g owner limit now lease s s

    pub claim-IsKeyed : IsKeyed col s → IsKeyed col claim.0
    unfolding claim_batch
    claim-IsKeyed keyed =
        lease_loop-IsKeyed col s (free_rows col run g limit now s) g owner now (now + lease) s keyed
          keyed

    -- A row after a claim is as it was before, or in the batch.
    pub claim-found :
        (k : String) (q : QueuedPair)
        → find claim.0 k ≡ some q
        → (find s k ≡ some q) ⊎ Memᴰ q claim.1
    unfolding claim_batch
    claim-found = lease_loop-found s g owner now (now + lease) (free_rows col run g limit now s) s

    abbrev pub round : {J : Type 0} → Step J → J → State
    round step j = route_calls col (step j claim.1).1 claim.0

  module _ {J : Type 0} (R : QueuedPair → Type 0) (step : Step J) (judge : IsJudge R step) (j : J)
      (run : String) (g : Gate) (owner : String) (limit : ℕ) (now lease : Time) (s : State)
      (keyed : IsKeyed col s) where
    abbrev claimed : State × List QueuedPair
    claimed = claim run g owner limit now lease s

    abbrev routed : State
    routed = round run g owner limit now lease s step j

    pub routed-IsKeyed : IsKeyed col routed
    routed-IsKeyed =
        route_calls-IsKeyed (step j claimed.1).1 claimed.0
          (claim-IsKeyed run g owner limit now lease s keyed)

    -- Every row of the batch has been made into one with the property.
    pub batch-done :
        (step j claimed.1).2 ≡ true
        → All (λ (p : QueuedPair). AtKey col R p.pair_id routed) claimed.1
    batch-done ok =
        (judge j claimed.1).all_routed (λ p. AtKey col R p.pair_id routed) ok
          (route_calls-done col R (step j claimed.1).1 claimed.0 ((judge j claimed.1).makes) (
            (judge j claimed.1).only (λ p. IsDue col R claimed.0 p)
              (All-map _ _ claimed.1 (λ p f. inl (p, f, still_owned_refl p))
                (claim_batch-IsTaken col run g owner limit now lease s s keyed).2)))

    -- A property that all rows with `R` have is kept under every id.
    pub round-AtKey :
        (R' : QueuedPair → Type 0) (k : String)
        → ((p : QueuedPair) → R p → R' p)
        → (step j claimed.1).2 ≡ true
        → AtKey col R' k s
        → AtKey col R' k routed
    unfolding claim_batch
    round-AtKey R' k implies ok all = elim (Option-cases (find claimed.0 k)) [
      | inl gone ↦ moved (λ p e. absurd (ground (arith, gone, e)))
      | inr (q, f) ↦ elim (claim-found run g owner limit now lease s k q f) [
        | inl before ↦ moved (λ p e. all p (before ∙ (sym f ∙ e)))
        | inr taken ↦ λ p e. implies p (
            All-mem (λ (x : QueuedPair). AtKey col R x.pair_id routed) (batch-done ok) taken p
              (ap (λ x. find routed x) (claim-IsKeyed run g owner limit now lease s keyed k q f)
                ∙ e))
      ]
    ]
      where
        moved : AtKey col R' k claimed.0 → AtKey col R' k routed
        moved h =
            route_calls-AtKey col R' (step j claimed.1).1 claimed.0 k
              (All-map _ _ (step j claimed.1).1
                (λ us m. All-map _ _ us (λ u r row. implies _ (r row)) m)
                ((judge j claimed.1).makes))
              h
