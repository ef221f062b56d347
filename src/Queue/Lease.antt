-- ===== src/Queue/Lease.antt =====
-- `claim_batch` of gatekeeper/worker/queue.py: the pair lease as a cursor.
use mathlib.Core.Path.{subst}
use mathlib.Core.Option.{some-injective}
use native.Mathlib.Nat.{le_trans}
use lakshmana_core.Prelude.{
  All-values, ℕ, ◌+◌, ◌*◌, ◌<◌, ◌≤◌, true, false, not, ◌||◌, String, str_eq, eq_iff, Option, none,
  some, List, [], ◌∷◌, ◌≡◌, ◌≢◌, refl, sym, ◌∙◌, All, arith, Bool-cases, Option-cases, inl, inr,
  ◌⊎◌, length, length-take-le, All-map, All-zip, All-take, All-select, ap,
}
use lakshmana_core.Enums.{Gate}
use lakshmana_core.Enums.Order.{is_gate-eq}
use lakshmana_core.Firestore.{Collection}
use lakshmana_core.Firestore.Laws.{find-set_self, find-set_ne, AllDocs, set-AllDocs}
use lakshmana_core.Runs.{Time}
use lakshmana_core.Queue.Sort.{All-sort_rows}
use lakshmana_core.Queue.{
  QueuedPair, lease_held_at, same_gate, run_query, free_rows, leased_row, lease_loop, claim_batch,
}

-- What a leased row says of the row that was stored under its id: it stood at the gate, unleased, and
-- only its lease has changed.
pub record IsTaken (g : Gate) (owner : String) (now expires : Time) (old : Option QueuedPair)
    (p : QueuedPair) : Type 0 where
  pub row : QueuedPair
  pub was : old ≡ some row
  pub free : lease_held_at row now ≡ false
  pub at_gate : row.gate ≡ some g
  pub leased : p ≡ leased_row row owner expires

pub same_gate-eq : (a : Option Gate) (g : Gate) → same_gate a (some g) ≡ true → a ≡ some g
same_gate-eq none g h = cc
same_gate-eq (some k) g h = cc (is_gate-eq k g h)

still_leased :
    (p row : QueuedPair) (owner : String) (now later lease : Time)
    → p ≡ leased_row row owner (now + lease)
    → later < now + lease
    → ¬ (lease_held_at p later ≡ false)
unfolding lease_held_at
still_leased p row owner now later lease e l free =
    let held : lease_held_at (leased_row row owner (now + lease)) later ≡ true = ground arith in
    cc (ap (λ r. lease_held_at r later) e, held, free)

held_not_free :
    (row : QueuedPair) (now : Time)
    → (t : Time) × (row.lease_expires_at ≡ some t) × (now < t)
    → ¬ (lease_held_at row now ≡ false)
unfolding lease_held_at
held_not_free row now (t, e, l) free = ground (arith, e, l, free)

module _ (col : Collection QueuedPair) where
  open col use {State, find, set, docs, find-set}

  -- Every row is stored under its own `pair_id`.
  abbrev pub IsKeyed : State → Type 0
  IsKeyed = AllDocs col (λ k p. p.pair_id ≡ k)

  module _ (read : State) (g : Gate) (owner : String) (now expires : Time) where
    abbrev loop : List QueuedPair → State → State × List QueuedPair
    loop ps s = lease_loop col read ps g owner now expires s

    pub lease_loop-cases :
        (p : QueuedPair) (ps : List QueuedPair) (s : State)
        → (loop (p ∷ ps) s ≡ loop ps s)
          ⊎ ((row : QueuedPair) × (find read p.pair_id ≡ some row)
              × (row.gate ≡ some g)
              × (lease_held_at row now ≡ false)
              × (loop (p ∷ ps) s ≡ (
                (loop ps (set s p.pair_id (leased_row row owner expires))).0,
                leased_row row owner expires
                    ∷ (loop ps (set s p.pair_id (leased_row row owner expires))).1,
              )))
    unfolding lease_loop
    lease_loop-cases p ps s = elim (Option-cases (find read p.pair_id)) [
      | inl gone ↦ inl (ground arith)
      | inr (row, e) ↦
          elim (Bool-cases (not (same_gate row.gate (some g)) || lease_held_at row now)) [
            | inl skip ↦ inl (ground arith)
            | inr take_it ↦
                inr (row, e, same_gate-eq row.gate g (ground arith), ground arith, ground arith)
          ]
    ]

    lease_loop-IsTaken :
        (ps : List QueuedPair) (s : State)
        → IsKeyed read
        → All
            (λ (p : QueuedPair). IsTaken g owner now expires (find read p.pair_id) p)
            (loop ps s).1
    unfolding lease_loop
    lease_loop-IsTaken [] s keyed = tt
    lease_loop-IsTaken (p ∷ ps) s keyed = elim (lease_loop-cases p ps s) [
      | inl e ↦ rw e (lease_loop-IsTaken ps s keyed)
      | inr (row, was, at, free, e) ↦ rw e (
        record {
          row = row;
          was = subst (λ k. find read k ≡ some row) (sym (keyed p.pair_id row was)) was;
          free = free;
          at_gate = at;
          leased = refl;
        },
        lease_loop-IsTaken ps (set s p.pair_id (leased_row row owner expires)) keyed,
      )
    ]

    -- A row that the loop has leased stays as it leased it.
    lease_loop-keeps :
        (ps : List QueuedPair) (s : State) (k : String) (row : QueuedPair)
        → find read k ≡ some row
        → find s k ≡ some (leased_row row owner expires)
        → find (loop ps s).0 k ≡ some (leased_row row owner expires)
    unfolding lease_loop
    lease_loop-keeps [] s k row was now_is = now_is
    lease_loop-keeps (p ∷ ps) s k row was now_is = elim (lease_loop-cases p ps s) [
      | inl e ↦ rw e (lease_loop-keeps ps s k row was now_is)
      | inr (other, found, at, free, e) ↦ rw e (
          lease_loop-keeps ps (set s p.pair_id (leased_row other owner expires)) k row was
            (again other found))
    ]
      where
        again :
            (other : QueuedPair)
            → find read p.pair_id ≡ some other
            → find (set s p.pair_id (leased_row other owner expires)) k
              ≡ some (leased_row row owner expires)
        again other found = elim (Bool-cases (str_eq p.pair_id k)) [
          | inl same ↦
              let same' : p.pair_id ≡ k = (eq_iff p.pair_id k).0 same in
              let other-row : other ≡ row = some-injective other row (cc (was, found, same')) in
              rw (find-set s p.pair_id k (leased_row other owner expires), same, other-row) refl
          | inr differs ↦
              find-set_ne col s p.pair_id k (leased_row other owner expires) differs ∙ now_is
        ]

    lease_loop-stored :
        (ps : List QueuedPair) (s : State)
        → IsKeyed read
        → All (λ (p : QueuedPair). find (loop ps s).0 p.pair_id ≡ some p) (loop ps s).1
    unfolding lease_loop
    lease_loop-stored [] s keyed = tt
    lease_loop-stored (p ∷ ps) s keyed = elim (lease_loop-cases p ps s) [
      | inl e ↦ rw e (lease_loop-stored ps s keyed)
      | inr (row, was, at, free, e) ↦ rw e (
        subst
            (λ k.
              find (loop ps (set s p.pair_id (leased_row row owner expires))).0 k
              ≡ some (leased_row row owner expires))
            (sym (keyed p.pair_id row was))
            (lease_loop-keeps ps (set s p.pair_id (leased_row row owner expires)) p.pair_id row was
              (find-set_self col s p.pair_id (leased_row row owner expires))),
        lease_loop-stored ps (set s p.pair_id (leased_row row owner expires)) keyed,
      )
    ]

    lease_loop-length : (ps : List QueuedPair) (s : State) → length (loop ps s).1 ≤ length ps
    unfolding lease_loop
    lease_loop-length [] s = omega arith
    lease_loop-length (p ∷ ps) s = elim (lease_loop-cases p ps s) [
      | inl e ↦ rw e (omega (arith, lease_loop-length ps s))
      | inr (row, was, at, free, e) ↦
          rw e
            (omega (arith, lease_loop-length ps (set s p.pair_id (leased_row row owner expires))))
    ]

  pub lease_loop-IsKeyed :
      (read : State) (ps : List QueuedPair) (g : Gate) (owner : String) (now expires : Time)
      (s : State)
      → IsKeyed read
      → IsKeyed s
      → IsKeyed (lease_loop col read ps g owner now expires s).0
  unfolding lease_loop
  lease_loop-IsKeyed read [] g owner now expires s keyed all = all
  lease_loop-IsKeyed read (p ∷ ps) g owner now expires s keyed all =
      elim (lease_loop-cases read g owner now expires p ps s) [
        | inl e ↦ rw e (lease_loop-IsKeyed read ps g owner now expires s keyed all)
        | inr (row, was, at, free, e) ↦ rw e (
            lease_loop-IsKeyed read ps g owner now expires _ keyed (
              set-AllDocs col (λ k q. q.pair_id ≡ k) s p.pair_id (leased_row row owner expires)
                (keyed p.pair_id row was) all))
      ]

  -- The rows that `claim_batch` returns are at most `limit`, whatever its query has seen; each of them
  -- stood at the gate with no lease running when the transaction read it, is now stored under its id with
  -- the caller's lease, and has not changed otherwise.
  pub claim_batch-IsTaken :
      (stage3_run_id : String) (g : Gate) (owner : String) (limit : ℕ) (now lease : Time)
      (seen s : State)
      → IsKeyed s
      → let (s', batch) = claim_batch col stage3_run_id g owner limit now lease seen s in
        (length batch ≤ limit)
        × All (λ (p : QueuedPair). IsTaken g owner now (now + lease) (find s p.pair_id) p) batch
        × All (λ (p : QueuedPair). find s' p.pair_id ≡ some p) batch
  unfolding claim_batch free_rows
  claim_batch-IsTaken stage3_run_id g owner limit now lease seen s keyed = (
    le_trans (lease_loop-length s g owner now (now + lease) _ s) (length-take-le limit _),
    lease_loop-IsTaken s g owner now (now + lease) _ s keyed,
    lease_loop-stored s g owner now (now + lease) _ s keyed,
  )

  -- While the lease of a batch runs, another claim, by any worker at any gate, returns none of its
  -- rows, whatever the queries of the two have seen: the second may have seen the rows unleased.
  pub claim_batch-claim_batch :
      (stage3_run_id : String) (g h : Gate) (owner other : String) (limit limit' : ℕ)
      (now later lease : Time) (seen seen' s : State)
      → IsKeyed s
      → later < now + lease
      → let (s', batch) = claim_batch col stage3_run_id g owner limit now lease seen s in
        let (s'', batch') = claim_batch col stage3_run_id h other limit' later lease seen' s' in
        All (λ (p : QueuedPair). All (λ (q : QueuedPair). q.pair_id ≢ p.pair_id) batch') batch
  claim_batch-claim_batch stage3_run_id g h owner other limit limit' now later lease seen seen' s
        keyed l =
      let s' = (claim_batch col stage3_run_id g owner limit now lease seen s).0 in
      let first = claim_batch-IsTaken stage3_run_id g owner limit now lease seen s keyed in
      let second = claim_batch-IsTaken stage3_run_id h other limit' later lease seen' s' keyed' in
      All-map _ _ _ (λ p hp. All-map _ _ _ (λ q hq. apart p q hp.0 hp.1 hq) second.1)
        (All-zip _ _ _ first.1 first.2)
    where
      keyed' : IsKeyed (claim_batch col stage3_run_id g owner limit now lease seen s).0
      keyed' =
          unfold claim_batch in
          lease_loop-IsKeyed s (free_rows col stage3_run_id g limit now seen) g owner now
            (now + lease) s keyed keyed

      apart :
          (p q : QueuedPair)
          → IsTaken g owner now (now + lease) (find s p.pair_id) p
          → find (claim_batch col stage3_run_id g owner limit now lease seen s).0 p.pair_id ≡ some p
          → IsTaken h other later
              (later + lease)
              (find (claim_batch col stage3_run_id g owner limit now lease seen s).0 q.pair_id)
              q
          → q.pair_id ≢ p.pair_id
      apart p q tp stored tq same =
          let row-p : tq.row ≡ p = some-injective tq.row p (cc (tq.was, stored, same)) in
          still_leased p tp.row owner now later lease tp.leased l
            (subst (λ r. lease_held_at r later ≡ false) row-p tq.free)

  -- A row that the transaction does not find at the gate without a lease that is still to expire.
  abbrev pub IsHeld : Gate → Time → State → QueuedPair → Type 0
  IsHeld g now s p =
      (row : QueuedPair)
      → find s p.pair_id ≡ some row
      → row.gate ≡ some g
      → (t : Time) × (row.lease_expires_at ≡ some t) × (now < t)

  lease_loop_held :
      (g : Gate) (owner : String) (now expires : Time) (s : State) (ps : List QueuedPair)
      → All (IsHeld g now s) ps
      → lease_loop col s ps g owner now expires s ≡ (s, [])
  unfolding lease_loop
  lease_loop_held g owner now expires s [] h = refl
  lease_loop_held g owner now expires s (p ∷ ps) h =
      elim (lease_loop-cases s g owner now expires p ps s) [
        | inl e ↦ e ∙ lease_loop_held g owner now expires s ps h.1
        | inr (row, was, at, free, e) ↦ absurd (held_not_free row now (h.0 row was at) free)
      ]

  -- A claim takes nothing and writes nothing when each row of the run that its query has seen stands
  -- elsewhere, or under a lease that expires later, or is gone, when the transaction reads it, whoever
  -- holds the leases and whatever the query has seen of them.
  pub claim_batch_leased :
      (stage3_run_id : String) (g : Gate) (owner : String) (limit : ℕ) (now lease : Time)
      (seen s : State)
      → All (λ (d : String × QueuedPair). IsHeld g now s d.1) (run_query col stage3_run_id seen)
      → claim_batch col stage3_run_id g owner limit now lease seen s ≡ (s, [])
  unfolding claim_batch free_rows
  claim_batch_leased stage3_run_id g owner limit now lease seen s h =
      lease_loop_held g owner now (now + lease) s (free_rows col stage3_run_id g limit now seen) (
        All-take (IsHeld g now s) limit _ (
          All-sort_rows (IsHeld g now s) _ (
            All-select (IsHeld g now s) (IsHeld g now s) (λ p. not (lease_held_at p now)) _
              (λ p e k. k)
              (All-values (λ d. d.1) (IsHeld g now s) _
                (All-take _ (limit * 4) _ (
                  All-select _ _ (λ (d : String × QueuedPair). same_gate d.1.gate (some g)) _
                    (λ d e k. k) h))))))
