-- ===== src/Queue/Route.antt =====
-- `route_all` of gatekeeper/worker/queue.py: a row is written only under the lease it was claimed by.
use native.Mathlib.Nat.{add-zero}
use lakshmana_core.Prelude.{
  ℕ, zero, suc, ◌+◌, ◌≤◌, true, false, String, str_eq, none, some, List, [], ◌∷◌, ◌++◌, ◌≡◌, refl,
  sym, ◌∙◌, ap, All, arith, Option-cases, inl, inr, take, drop, length, All-take, All-drop,
  take-append-drop, length-drop-le,
}
use lakshmana_core.Firestore.{Collection}
use lakshmana_core.Firestore.Laws.{find-set_ne}
use lakshmana_core.Queue.{
  QueuedPair, Changes, routed_row, still_owned, route_loop, route_chunks, route_all,
  route_txn_limit,
}

module _ (col : Collection QueuedPair) where
  open col use {State, find, set}

  -- The worker that claimed the pair of this update has lost it: its row is gone, has left the gate, or
  -- is under another lease.
  abbrev pub IsStale : State → QueuedPair × Changes → Type 0
  IsStale s u = (row : QueuedPair) → find s u.0.pair_id ≡ some row → still_owned row u.0 ≡ false

  route_loop_stale :
      (read s : State) (us : List (QueuedPair × Changes)) (n : ℕ)
      → All (IsStale read) us
      → route_loop col read us s n ≡ (s, n)
  unfolding route_loop
  route_loop_stale read s [] n h = refl
  route_loop_stale read s ((p, c) ∷ us) n h = elim (Option-cases (find read p.pair_id)) [
    | inl gone ↦ ground (arith, route_loop_stale read s us n h.1)
    | inr (row, e) ↦ ground (arith, h.0 row e, route_loop_stale read s us n h.1)
  ]

  route_chunks_stale :
      (fuel : ℕ) (s : State) (us : List (QueuedPair × Changes)) (n : ℕ)
      → All (IsStale s) us
      → route_chunks col fuel us s n ≡ (s, n)
  unfolding route_chunks
  route_chunks_stale zero s us n h = refl
  route_chunks_stale (suc fuel) s [] n h = refl
  route_chunks_stale (suc fuel) s (u ∷ us) n h =
      rw
        (
          route_loop_stale s s (take route_txn_limit (u ∷ us)) 0
              (All-take (IsStale s) route_txn_limit (u ∷ us) h),
          add-zero n,
        )
        (route_chunks_stale fuel s (drop route_txn_limit (u ∷ us)) n
          (All-drop (IsStale s) route_txn_limit (u ∷ us) h))

  -- A straggler writes nothing: when every pair that it routes has left its gate or its lease, by any
  -- number of chunks, `route_all` changes no row and counts none.
  pub route_all_stale :
      (s : State) (us : List (QueuedPair × Changes))
      → All (IsStale s) us
      → route_all col us s ≡ (s, 0)
  unfolding route_all
  route_all_stale s us h = route_chunks_stale (length us) s us 0 h

-- No two updates are for one row.
abbrev pub AreDistinct : List (QueuedPair × Changes) → Type 0
AreDistinct [] = Unit
AreDistinct (u ∷ us) =
    All (λ (v : QueuedPair × Changes). str_eq u.0.pair_id v.0.pair_id ≡ false) us × AreDistinct us

AreDistinct-drop :
    (n : ℕ) (us : List (QueuedPair × Changes)) → AreDistinct us → AreDistinct (drop n us)
AreDistinct-drop zero us h = h
AreDistinct-drop (suc n) [] h = tt
AreDistinct-drop (suc n) (u ∷ us) h = AreDistinct-drop n us h.1

AreDistinct-take :
    (n : ℕ) (us : List (QueuedPair × Changes)) → AreDistinct us → AreDistinct (take n us)
AreDistinct-take zero us h = tt
AreDistinct-take (suc n) [] h = tt
AreDistinct-take (suc n) (u ∷ us) h = (All-take _ n us h.0, AreDistinct-take n us h.1)

module _ (col : Collection QueuedPair) where
  open col use {State, find, set}

  -- The reference: one update after another, each guarded by the row as it then is.
  pub route_each : List (QueuedPair × Changes) → State → ℕ → State × ℕ
  route_each [] s n = (s, n)
  route_each ((p, c) ∷ us) s n = elim (find s p.pair_id) [
    | none ↦ route_each us s n
    | some row ↦ elim (still_owned row p) [
      | false ↦ route_each us s n
      | true ↦ route_each us (set s p.pair_id (routed_row row c)) (n + 1)
    ]
  ]

  SameRows : State → State → List (QueuedPair × Changes) → Type 0
  SameRows read s = All (λ (u : QueuedPair × Changes). find s u.0.pair_id ≡ find read u.0.pair_id)

  SameRows-set :
      (read s : State) (k : String) (row : QueuedPair) (us : List (QueuedPair × Changes))
      → All (λ (v : QueuedPair × Changes). str_eq k v.0.pair_id ≡ false) us
      → SameRows read s us
      → SameRows read (set s k row) us
  unfolding SameRows
  SameRows-set read s k row [] d h = tt
  SameRows-set read s k row (u ∷ us) d h =
      (find-set_ne col s k u.0.pair_id row d.0 ∙ h.0, SameRows-set read s k row us d.1 h.1)

  route_loop-route_each :
      (read s : State) (us : List (QueuedPair × Changes)) (n : ℕ)
      → AreDistinct us
      → SameRows read s us
      → route_loop col read us s n ≡ route_each us s n
  unfolding route_loop route_each SameRows
  route_loop-route_each read s [] n d h = refl
  route_loop-route_each read s ((p, c) ∷ us) n d h = elim (Option-cases (find read p.pair_id)) [
    | inl gone ↦ ground (arith, h.0, route_loop-route_each read s us n d.1 h.1)
    | inr (row, e) ↦ ground (
      arith,
      h.0,
      route_loop-route_each read s us n d.1 h.1,
      route_loop-route_each read (set s p.pair_id (routed_row row c)) us (n + 1) d.1
          (SameRows-set read s p.pair_id (routed_row row c) us d.0 h.1),
    )
  ]

  SameRows-refl : (s : State) (us : List (QueuedPair × Changes)) → SameRows s s us
  unfolding SameRows
  SameRows-refl s [] = tt
  SameRows-refl s (u ∷ us) = (refl, SameRows-refl s us)

  -- The count only accumulates.
  route_each-count :
      (us : List (QueuedPair × Changes)) (s : State) (n : ℕ)
      → route_each us s n ≡ ((route_each us s 0).0, n + (route_each us s 0).1)
  unfolding route_each
  route_each-count [] s n = ground arith
  route_each-count ((p, c) ∷ us) s n = elim (Option-cases (find s p.pair_id)) [
    | inl gone ↦ ground (arith, route_each-count us s n)
    | inr (row, e) ↦ ground (
      arith,
      route_each-count us s n,
      route_each-count us (set s p.pair_id (routed_row row c)) (n + 1),
      route_each-count us (set s p.pair_id (routed_row row c)) 1,
    )
  ]

  route_each-append :
      (us vs : List (QueuedPair × Changes)) (s : State) (n : ℕ)
      → route_each (us ++ vs) s n ≡ route_each vs (route_each us s n).0 (route_each us s n).1
  unfolding route_each
  route_each-append [] vs s n = refl
  route_each-append ((p, c) ∷ us) vs s n = elim (Option-cases (find s p.pair_id)) [
    | inl gone ↦ ground (arith, route_each-append us vs s n)
    | inr (row, e) ↦ ground (
      arith,
      route_each-append us vs s n,
      route_each-append us vs (set s p.pair_id (routed_row row c)) (n + 1),
    )
  ]

  AreDistinct-SameRows-chunk :
      (s : State) (us : List (QueuedPair × Changes))
      → AreDistinct us
      → route_loop col s (take route_txn_limit us) s 0 ≡ route_each (take route_txn_limit us) s 0
  AreDistinct-SameRows-chunk s us d =
      route_loop-route_each s s (take route_txn_limit us) 0 (AreDistinct-take route_txn_limit us d)
        (SameRows-refl s (take route_txn_limit us))

  route_chunks-route_each :
      (fuel : ℕ) (us : List (QueuedPair × Changes)) (s : State) (n : ℕ)
      → length us ≤ fuel
      → AreDistinct us
      → route_chunks col fuel us s n ≡ route_each us s n
  unfolding route_chunks route_each
  route_chunks-route_each zero [] s n h d = refl
  route_chunks-route_each zero (u ∷ us) s n h d = ground arith
  route_chunks-route_each (suc fuel) [] s n h d = refl
  route_chunks-route_each (suc fuel) (u ∷ us) s n h d =
      let k = route_txn_limit in
      let chunk = route_each (take k (u ∷ us)) s 0 in
      let later : length (drop k (u ∷ us)) ≤ fuel =
        let shorter = length-drop-le 199 us in omega arith in
      rw (AreDistinct-SameRows-chunk s (u ∷ us) d) (
        route_chunks-route_each fuel (drop k (u ∷ us)) chunk.0 (n + chunk.1) later
          (AreDistinct-drop k (u ∷ us) d)
        ∙ (ap (λ (r : State × ℕ). route_each (drop k (u ∷ us)) r.0 r.1)
              (sym (route_each-count (take k (u ∷ us)) s n))
            ∙ (sym (route_each-append (take k (u ∷ us)) (drop k (u ∷ us)) s n)
                ∙ ap (λ vs. route_each vs s n) (take-append-drop k (u ∷ us)))))

  -- For updates of different rows, the chunked transactions, which read every row of a chunk before
  -- the first write, do what one guarded update after another does: the same rows, the same count.
  pub route_all-route_each :
      (us : List (QueuedPair × Changes)) (s : State)
      → AreDistinct us
      → route_all col us s ≡ route_each us s 0
  unfolding route_all
  route_all-route_each us s d = route_chunks-route_each (length us) us s 0 (omega arith) d
