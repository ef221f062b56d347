-- ===== src/Loop/Empty.antt =====
-- What an empty batch of `claim_batch` says of the queue.
use mathlib.Core.List.{Memᴰ}
use mathlib.Core.Path.{subst}
use lakshmana_core.Prelude.{
  ℕ, zero, suc, ◌+◌, ◌*◌, ◌<◌, Bool, true, false, not, String, str_eq, eq_iff, eq_refl, none, some,
  List, [], ◌∷◌, ◌≡◌, ◌≢◌, refl, sym, ap, All, arith, select, map, take, mem-select, All-take,
  All-select, All-values,
}
use lakshmana_core.Enums.{Gate}
use lakshmana_core.Firestore.{Collection}
use lakshmana_core.Runs.{Time}
use lakshmana_core.Queue.{
  QueuedPair, same_gate, lease_held_at, insert_row, sort_rows, run_query, free_rows, lease_loop,
  claim_batch,
}
use lakshmana_core.Queue.Lease.{IsKeyed}
use lakshmana_core.Queue.Sort.{All-sort_rows}
use lakshmana_core.Loop.Round.{same_gate_refl}

select_all {ℓ} :
    {A : Type ℓ} (p : A → Bool) (xs : List A) → All (λ a. p a ≡ true) xs → select p xs ≡ xs
select_all p [] h = refl
select_all p (x ∷ xs) h = rw h.0 (ap (λ t. x ∷ t) (select_all p xs h.1))

pub mem_nonempty {ℓ} : {A : Type ℓ} {a : A} {xs : List A} → Memᴰ a xs → xs ≢ []
mem_nonempty (Memᴰ.head e) h = cc h
mem_nonempty (Memᴰ.tail m) h = cc h

take_nonempty {ℓ} : {A : Type ℓ} (n : ℕ) (xs : List A) → 0 < n → xs ≢ [] → take n xs ≢ []
take_nonempty zero xs l h e = omega (arith, l)
take_nonempty (suc n) [] l h e = h refl
take_nonempty (suc n) (x ∷ xs) l h e = cc e

map_nonempty {ℓ κ} : {A : Type ℓ} {B : Type κ} (f : A → B) (xs : List A) → xs ≢ [] → map f xs ≢ []
map_nonempty f [] h e = h refl
map_nonempty f (x ∷ xs) h e = cc e

insert_nonempty : (p : QueuedPair) (qs : List QueuedPair) → insert_row p qs ≢ []
unfolding insert_row
insert_nonempty p [] e = cc e
insert_nonempty p (q ∷ qs) e = ground arith

sort_nonempty : (ps : List QueuedPair) → ps ≢ [] → sort_rows ps ≢ []
unfolding sort_rows
sort_nonempty [] h = absurd (h refl)
sort_nonempty (p ∷ ps) h = insert_nonempty p (sort_rows ps)

module _ (col : Collection QueuedPair) (run : String) (g : Gate) (owner : String) (limit : ℕ)
    (now lease : Time) where
  open col use {State, find, docs, docs_sound, docs_complete}

  -- A row that the claim can take: stored under its id, at the gate, and with no lease running.
  abbrev IsFree : State → QueuedPair → Type 0
  IsFree s p =
      (find s p.pair_id ≡ some p)
      × (same_gate p.gate (some g) ≡ true)
      × (lease_held_at p now ≡ false)

  abbrev IsHere : State → QueuedPair → Type 0
  IsHere s p = (find s p.pair_id ≡ some p) × (same_gate p.gate (some g) ≡ true)

  free_rows-IsFree : (s : State) → IsKeyed col s → All (IsFree s) (free_rows col run g limit now s)
  unfolding free_rows run_query
  free_rows-IsFree s keyed = All-take (IsFree s) limit _ (
      All-sort_rows (IsFree s) _ (
        All-select (IsHere s) (IsFree s) (λ p. not (lease_held_at p now)) _
          (λ p e h. (h.0, h.1, ground arith))
          (All-values (λ d. d.1) (IsHere s) _
            (All-take _ (limit * 4) _ (
              All-select _ _ (λ (d : String × QueuedPair). same_gate d.1.gate (some g)) _
                (λ d e h. (h, e))
                (All-select _ _ (λ (d : String × QueuedPair). str_eq d.1.stage3_run_id run) (docs s)
                  (λ d e h. subst (λ k. find s k ≡ some d.1) (sym (keyed d.0 d.1 h)) h)
                  (docs_sound s)))))))

  lease_loop_nonempty :
      (s : State) (ps : List QueuedPair)
      → All (IsFree s) ps
      → ps ≢ []
      → (lease_loop col s ps g owner now (now + lease) s).1 ≢ []
  unfolding lease_loop
  lease_loop_nonempty s [] h ne = absurd (ne refl)
  lease_loop_nonempty s (p ∷ ps) h ne = rw (lease_loop, h.0.0, h.0.1, h.0.2) (λ e. cc e)

  abbrev Idle : String × QueuedPair → Type 0
  Idle d = not (lease_held_at d.1 now) ≡ true

  -- A claim with room comes back empty only when no row of the run at the gate is without a lease: if
  -- the run's rows have no lease, none is at the gate.
  pub claim_batch_empty :
      (s : State)
      → IsKeyed col s
      → 0 < limit
      → ((k : String) (p : QueuedPair)
          → find s k ≡ some p
          → p.stage3_run_id ≡ run
          → p.lease_expires_at ≡ none)
      → (claim_batch col run g owner limit now lease s s).1 ≡ []
      → (k : String) (p : QueuedPair) → find s k ≡ some p
      → p.stage3_run_id ≡ run
      → p.gate ≢ some g
  unfolding claim_batch
  claim_batch_empty s keyed l unleased empty k p f ours at =
      lease_loop_nonempty s (free_rows col run g limit now s) (free_rows-IsFree s keyed) free empty
    where
      candidates : List (String × QueuedPair)
      candidates = select (λ d. same_gate d.1.gate (some g)) (run_query col run s)

      there : Memᴰ (k, p) candidates
      there =
          unfold run_query in
          mem-select (λ d. same_gate d.1.gate (some g)) (rw at (same_gate_refl (some g)))
            (mem-select (λ d. str_eq d.1.stage3_run_id run) (rw ours (eq_refl run))
              (docs_complete s k p f))

      idle : All (λ (d : String × QueuedPair). not (lease_held_at d.1 now) ≡ true) candidates
      idle =
          unfold run_query in
          All-select Idle Idle (λ (d : String × QueuedPair). same_gate d.1.gate (some g)) _
            (λ d e h. h)
            (All-select (λ (d : String × QueuedPair). find s d.0 ≡ some d.1) Idle
              (λ (d : String × QueuedPair). str_eq d.1.stage3_run_id run) (docs s)
              (λ d e h.
                unfold lease_held_at in
                rw (unleased d.0 d.1 h ((eq_iff d.1.stage3_run_id run).0 e)) refl)
              (docs_sound s))

      free : free_rows col run g limit now s ≢ []
      free =
          let few = take (limit * 4) candidates in
          let same =
            select_all (λ p. not (lease_held_at p now)) (map (λ d. d.1) few)
              (All-values (λ d. d.1) (λ p. not (lease_held_at p now) ≡ true) few
                (All-take _ (limit * 4) candidates idle)) in
          unfold free_rows in
          take_nonempty limit _ l (
            sort_nonempty _ (
              subst (λ ps. ps ≢ []) (sym same)
                (map_nonempty (λ d. d.1) few
                  (take_nonempty (limit * 4) candidates (omega (arith, l)) (mem_nonempty there)))))
