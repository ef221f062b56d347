-- ===== src/Loop/Rows.antt =====
-- What leasing and routing do to the row under one id.

use mathlib.Core.Option.{some-injective}
use mathlib.Core.Path.{subst}
use lakshmana_core.Prelude.{
  ℕ, zero, suc, ◌+◌, ◌≤◌, true, false, String, str_eq, eq_iff, some, List, [], ◌∷◌, ◌≡◌, refl, sym,
  ◌∙◌, ap, ◌⊎◌, inl, inr, All, arith, Bool-cases, Option-cases, take, drop, length, All-take,
  All-drop, All-take_drop, All-map, length-drop-le,
}
use lakshmana_core.Firestore.{Collection}
use lakshmana_core.Firestore.Laws.{find-set_self, find-set_ne}
use lakshmana_core.Queue.{
  QueuedPair, Changes, routed_row, still_owned, route_loop, route_chunks, route_all,
  route_txn_limit,
}
use lakshmana_core.Loop.{Updates, route_calls}

-- Every update of the list makes a row with the property.
abbrev pub Makes : (QueuedPair → Type 0) → Updates → Type 0
Makes R = All (λ (u : QueuedPair × Changes). (row : QueuedPair) → R (routed_row row u.1))

module _ (col : Collection QueuedPair) where
  open col use {State, find, set}

  -- The row under `k`, if there is one, has the property.
  abbrev pub AtKey : (QueuedPair → Type 0) → String → State → Type 0
  AtKey R k s = (p : QueuedPair) → find s k ≡ some p → R p

  pub set-AtKey :
      (R : QueuedPair → Type 0) (s : State) (j k : String) (p : QueuedPair)
      → R p
      → AtKey R k s
      → AtKey R k (set s j p)
  set-AtKey R s j k p h all q e = elim (Bool-cases (str_eq j k)) [
    | inl same ↦
        subst R
          (some-injective p q (
            sym (find-set_self col s j p)
            ∙ (ap (λ x. find (set s j p) x) ((eq_iff j k).0 same) ∙ e)))
          h
    | inr other ↦ all q (sym (find-set_ne col s j k p other) ∙ e)
  ]

  -- The row of this pair is still as the worker leased it, or it has the property.
  abbrev pub IsDue : (QueuedPair → Type 0) → State → QueuedPair → Type 0
  IsDue R s p =
      ((row : QueuedPair) × (find s p.pair_id ≡ some row) × (still_owned row p ≡ true))
      ⊎ AtKey R p.pair_id s

  set-IsDue :
      (R : QueuedPair → Type 0) (s : State) (j : String) (q p : QueuedPair)
      → R q
      → IsDue R s p
      → IsDue R (set s j q) p
  set-IsDue R s j q p h (inr there) = inr (set-AtKey R s j p.pair_id q h there)
  set-IsDue R s j q p h (inl (row, f, own)) = elim (Bool-cases (str_eq j p.pair_id)) [
    | inl same ↦ inr (λ r e.
        subst R
          (some-injective q r (
            sym (find-set_self col s j q)
            ∙ (ap (λ x. find (set s j q) x) ((eq_iff j p.pair_id).0 same) ∙ e)))
          h)
    | inr other ↦ inl (row, find-set_ne col s j p.pair_id q other ∙ f, own)
  ]

  module _ (R : QueuedPair → Type 0) where
    pub route_loop-cases :
        (read : State) (p : QueuedPair) (c : Changes) (us : Updates) (s : State) (n : ℕ)
        → (((row : QueuedPair) → find read p.pair_id ≡ some row → still_owned row p ≡ false)
            × (route_loop col read ((p, c) ∷ us) s n ≡ route_loop col read us s n))
          ⊎ ((row : QueuedPair) × (find read p.pair_id ≡ some row)
              × (route_loop col read ((p, c) ∷ us) s n
                  ≡ route_loop col read us (set s p.pair_id (routed_row row c)) (n + 1)))
    unfolding route_loop
    route_loop-cases read p c us s n = elim (Option-cases (find read p.pair_id)) [
      | inl gone ↦ inl (λ row e. cc (gone, e), rw (route_loop, gone) refl)
      | inr (row, e) ↦ elim (Bool-cases (still_owned row p)) [
        | inl own ↦ inr (row, e, rw (route_loop, e, own) refl)
        | inr lost ↦ inl (
          λ r f. subst (λ q. still_owned q p ≡ false) (some-injective row r (sym e ∙ f)) lost,
          rw (route_loop, e, lost) refl,
        )
      ]
    ]

    route_loop-AtKey :
        (read : State) (us : Updates) (s : State) (n : ℕ) (k : String)
        → Makes R us
        → AtKey R k s
        → AtKey R k (route_loop col read us s n).0
    unfolding route_loop
    route_loop-AtKey read [] s n k h all = all
    route_loop-AtKey read ((p, c) ∷ us) s n k h all = elim (route_loop-cases read p c us s n) [
      | inl (lost, e) ↦ rw e (route_loop-AtKey read us s n k h.1 all)
      | inr (row, f, e) ↦ rw e (
          route_loop-AtKey read us (set s p.pair_id (routed_row row c)) (n + 1) k h.1
            (set-AtKey R s p.pair_id k (routed_row row c) (h.0 row) all))
    ]

    route_loop-IsDue :
        (read : State) (us : Updates) (s : State) (n : ℕ) (p : QueuedPair)
        → Makes R us
        → IsDue R s p
        → IsDue R (route_loop col read us s n).0 p
    unfolding route_loop
    route_loop-IsDue read [] s n p h due = due
    route_loop-IsDue read ((q, c) ∷ us) s n p h due = elim (route_loop-cases read q c us s n) [
      | inl (lost, e) ↦ rw e (route_loop-IsDue read us s n p h.1 due)
      | inr (row, f, e) ↦ rw e (
          route_loop-IsDue read us (set s q.pair_id (routed_row row c)) (n + 1) p h.1
            (set-IsDue R s q.pair_id (routed_row row c) p (h.0 row) due))
    ]

    -- A transaction that reads the rows as they are due leaves the property under each of its ids.
    route_loop-done :
        (read : State) (us : Updates) (s : State) (n : ℕ)
        → Makes R us
        → ((k : String) → AtKey R k read → AtKey R k s)
        → All (λ (u : QueuedPair × Changes). IsDue R read u.0) us
        → All (λ (u : QueuedPair × Changes). AtKey R u.0.pair_id (route_loop col read us s n).0) us
    unfolding route_loop
    route_loop-done read [] s n h keeps due = tt
    route_loop-done read ((p, c) ∷ us) s n h keeps due = elim (route_loop-cases read p c us s n) [
      | inl (lost, e) ↦ subst (Done p us) (sym e) (
        route_loop-AtKey read us s n p.pair_id h.1 (elim due.0 [
          | inl (row, f, own) ↦ absurd (cc (lost row f, own))
          | inr there ↦ keeps p.pair_id there
        ]),
        route_loop-done read us s n h.1 keeps due.1,
      )
      | inr (row, f, e) ↦
          let after = set s p.pair_id (routed_row row c) in
          subst (Done p us) (sym e) (
            route_loop-AtKey read us after (n + 1) p.pair_id h.1
                (here-AtKey s p.pair_id (routed_row row c) (h.0 row)),
            route_loop-done read us after (n + 1) h.1
                (λ k there. set-AtKey R s p.pair_id k (routed_row row c) (h.0 row) (keeps k there))
                due.1,
          )
    ]
      where
        Done : QueuedPair → Updates → State × ℕ → Type 0
        Done p us r =
            AtKey R p.pair_id r.0 × All (λ (u : QueuedPair × Changes). AtKey R u.0.pair_id r.0) us

        here-AtKey : (s : State) (k : String) (q : QueuedPair) → R q → AtKey R k (set s k q)
        here-AtKey s k q h r e = subst R (some-injective q r (sym (find-set_self col s k q) ∙ e)) h

    Makes-take : (k : ℕ) (us : Updates) → Makes R us → Makes R (take k us)
    Makes-take k us h = All-take _ k us h

    -- The same of all chunks, one after another.
    route_chunks-AtKey :
        (fuel : ℕ) (us : Updates) (s : State) (n : ℕ) (k : String)
        → Makes R us
        → AtKey R k s
        → AtKey R k (route_chunks col fuel us s n).0
    unfolding route_chunks
    route_chunks-AtKey zero us s n k h all = all
    route_chunks-AtKey (suc fuel) [] s n k h all = all
    route_chunks-AtKey (suc fuel) (u ∷ us) s n k h all =
        let chunk = take route_txn_limit (u ∷ us) in
        route_chunks-AtKey fuel (drop route_txn_limit (u ∷ us)) (route_loop col s chunk s 0).0 _ k
          (All-drop _ route_txn_limit (u ∷ us) h)
          (route_loop-AtKey s chunk s 0 k (Makes-take route_txn_limit (u ∷ us) h) all)

    route_chunks-IsDue :
        (fuel : ℕ) (us : Updates) (s : State) (n : ℕ) (p : QueuedPair)
        → Makes R us
        → IsDue R s p
        → IsDue R (route_chunks col fuel us s n).0 p
    unfolding route_chunks
    route_chunks-IsDue zero us s n p h due = due
    route_chunks-IsDue (suc fuel) [] s n p h due = due
    route_chunks-IsDue (suc fuel) (u ∷ us) s n p h due =
        let chunk = take route_txn_limit (u ∷ us) in
        route_chunks-IsDue fuel (drop route_txn_limit (u ∷ us)) (route_loop col s chunk s 0).0 _ p
          (All-drop _ route_txn_limit (u ∷ us) h)
          (route_loop-IsDue s chunk s 0 p (Makes-take route_txn_limit (u ∷ us) h) due)

    route_chunks-done :
        (fuel : ℕ) (us : Updates) (s : State) (n : ℕ)
        → length us ≤ fuel
        → Makes R us
        → All (λ (u : QueuedPair × Changes). IsDue R s u.0) us
        → All
            (λ (u : QueuedPair × Changes). AtKey R u.0.pair_id (route_chunks col fuel us s n).0)
            us
    unfolding route_chunks
    route_chunks-done zero [] s n l h due = tt
    route_chunks-done zero (u ∷ us) s n l h due = absurd (ground arith)
    route_chunks-done (suc fuel) [] s n l h due = tt
    route_chunks-done (suc fuel) (u ∷ us) s n l h due =
        let k = route_txn_limit in
        let first = take k (u ∷ us) in
        let rest = drop k (u ∷ us) in
        let s' = (route_loop col s first s 0).0 in
        let h1 = Makes-take k (u ∷ us) h in
        let h2 = All-drop _ k (u ∷ us) h in
        All-take_drop _ k (u ∷ us)
          (All-map _ _ first (λ v there. route_chunks-AtKey fuel rest s' _ v.0.pair_id h2 there)
            (route_loop-done s first s 0 h1 (λ j there. there) (All-take _ k (u ∷ us) due)))
          (route_chunks-done fuel rest s' _ (let d = length-drop-le 199 us in omega arith) h2 (
            All-map _ _ rest (λ v d. route_loop-IsDue s first s 0 v.0 h1 d)
              (All-drop _ k (u ∷ us) due)))

    pub route_calls-AtKey :
        (calls : List Updates) (s : State) (k : String)
        → All (Makes R) calls
        → AtKey R k s
        → AtKey R k (route_calls col calls s)
    unfolding route_calls route_all
    route_calls-AtKey [] s k h all = all
    route_calls-AtKey (us ∷ calls) s k h all =
        route_calls-AtKey calls (route_all col us s).0 k h.1
          (route_chunks-AtKey (length us) us s 0 k h.0 all)

    -- After all its calls, a gate that has held its rows has made every one of them into a row with the
    -- property.
    pub route_calls-done :
        (calls : List Updates) (s : State)
        → All (Makes R) calls
        → All (All (λ (u : QueuedPair × Changes). IsDue R s u.0)) calls
        → All
            (All (λ (u : QueuedPair × Changes). AtKey R u.0.pair_id (route_calls col calls s)))
            calls
    unfolding route_calls route_all
    route_calls-done [] s h due = tt
    route_calls-done (us ∷ calls) s h due =
        let s' = (route_all col us s).0 in
        (
          All-map _ _ us (λ v there. route_calls-AtKey calls s' v.0.pair_id h.1 there)
              (route_chunks-done (length us) us s 0 (omega arith) h.0 due.0),
          route_calls-done calls s' h.1 (
              All-map _ _ calls
                (λ vs d. All-map _ _ vs (λ v e. route_chunks-IsDue (length us) us s 0 v.0 h.0 e) d)
                due.1),
        )
