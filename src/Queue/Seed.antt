-- ===== src/Queue/Seed.antt =====
-- `seed` and `reset` of gatekeeper/worker/queue.py.
use mathlib.Core.Path.{subst}
use lakshmana_core.Prelude.{
  ℕ, ◌+◌, true, false, String, str_eq, eq_iff, eq_refl, some, List, [], ◌∷◌, ◌≡◌, refl, sym, ◌∙◌,
  All, arith, Bool-cases, inl, inr, any, map, mem-select, mem-any, mem-map, All-select,
}
use lakshmana_core.Prelude.Order.{sorted_pair_comm}
use lakshmana_core.Firestore.{Collection}
use lakshmana_core.Firestore.Laws.{find-set_self, find-set_ne}
use lakshmana_core.Queue.{
  pair_key, GraphPair, QueuedPair, new_row, run_query, pair_ids, seed_loop, seed,
}

-- A pair has one id, whichever claim comes first.
pub pair_key_comm : (run a b : String) → pair_key run a b ≡ pair_key run b a
unfolding pair_key
pair_key_comm run a b = rw (sorted_pair_comm a b) refl

module _ (col : Collection QueuedPair) where
  open col use {State, find, set, docs, docs_sound, docs_complete}

  -- What was there before the seeding is not written.
  seed_loop-keeps :
      (existing : List String) (run intake : String) (pairs : List GraphPair) (s : State) (n : ℕ)
      (k : String)
      → any (λ j. str_eq j k) existing ≡ true
      → find (seed_loop col existing run intake pairs s n).0 k ≡ find s k
  unfolding seed_loop
  seed_loop-keeps existing run intake [] s n k h = refl
  seed_loop-keeps existing run intake (pair ∷ rest) s n k h =
      elim (Bool-cases
        (any (λ j. str_eq j (pair_key run pair.claim_a_id pair.claim_b_id)) existing)) [
          | inl e ↦ rw (seed_loop, e) (seed_loop-keeps existing run intake rest s n k h)
          | inr e ↦
              rw (seed_loop, e)
                (seed_loop-keeps existing run intake rest
                    (set s (pair_key run pair.claim_a_id pair.claim_b_id) (new_row run intake pair))
                    (n + 1) k h
                  ∙ find-set_ne col s (pair_key run pair.claim_a_id pair.claim_b_id) k _
                      (apart (pair_key run pair.claim_a_id pair.claim_b_id) e))
        ]
    where
      apart : (key : String) → any (λ j. str_eq j key) existing ≡ false → str_eq key k ≡ false
      apart key e = elim (Bool-cases (str_eq key k)) [
        | inr other ↦ other
        | inl same ↦
            let here =
              subst (λ x. any (λ j. str_eq j x) existing ≡ false) ((eq_iff key k).0 same) e in
            cc (h, here)
      ]

  -- A row of the run has the id `k` among the ids that `seed` reads.
  known :
      (run k : String) (p : QueuedPair) (s : State)
      → find s k ≡ some p
      → p.stage3_run_id ≡ run
      → any (λ j. str_eq j k) (pair_ids col run s) ≡ true
  unfolding pair_ids run_query
  known run k p s f same =
      mem-any (λ j. str_eq j k) (eq_refl k)
        (mem-map (λ (d : String × QueuedPair). d.0)
          (mem-select (λ (d : String × QueuedPair). str_eq d.1.stage3_run_id run)
            ((eq_iff p.stage3_run_id run).1 same) (docs_complete s k p f)))

  -- Seeding never touches a row that the run already has: wherever its pair stands, its gate, tier,
  -- decision and lease stay.
  pub seed-keeps :
      (run intake : String) (pairs : List GraphPair) (s : State) (k : String) (p : QueuedPair)
      → find s k ≡ some p
      → p.stage3_run_id ≡ run
      → find (seed col run intake pairs s).0 k ≡ some p
  unfolding seed
  seed-keeps run intake pairs s k p f same =
      seed_loop-keeps (pair_ids col run s) run intake pairs s 0 k (known run k p s f same) ∙ f

  -- A row of the run stands under the id.
  abbrev pub IsSeeded : String → State → String → Type 0
  IsSeeded run s k = (p : QueuedPair) × (find s k ≡ some p) × (p.stage3_run_id ≡ run)

  set-IsSeeded :
      (run intake : String) (pair : GraphPair) (s : State) (k key : String)
      → IsSeeded run s k
      → IsSeeded run (set s key (new_row run intake pair)) k
  set-IsSeeded run intake pair s k key (p, f, same) = elim (Bool-cases (str_eq key k)) [
    | inl e ↦ (
      new_row run intake pair,
      rw (sym ((eq_iff key k).0 e)) (find-set_self col s key (new_row run intake pair)),
      refl,
    )
    | inr e ↦ (p, find-set_ne col s key k (new_row run intake pair) e ∙ f, same)
  ]

  seed_loop-IsSeeded :
      (existing : List String) (run intake : String) (pairs : List GraphPair) (s : State) (n : ℕ)
      (k : String)
      → IsSeeded run s k
      → IsSeeded run (seed_loop col existing run intake pairs s n).0 k
  unfolding seed_loop
  seed_loop-IsSeeded existing run intake [] s n k h = h
  seed_loop-IsSeeded existing run intake (pair ∷ rest) s n k h =
      let key = pair_key run pair.claim_a_id pair.claim_b_id in
      elim (Bool-cases (any (λ j. str_eq j key) existing)) [
        | inl e ↦ rw (seed_loop, e) (seed_loop-IsSeeded existing run intake rest s n k h)
        | inr e ↦
            rw (seed_loop, e)
              (seed_loop-IsSeeded existing run intake rest (set s key (new_row run intake pair))
                (n + 1) k (set-IsSeeded run intake pair s k key h))
      ]

  -- Every pair of the list has a row.
  abbrev pub AllSeeded : String → State → List GraphPair → Type 0
  AllSeeded run s = All (λ (g : GraphPair). IsSeeded run s (pair_key run g.claim_a_id g.claim_b_id))

  seed_loop-AllSeeded :
      (existing : List String) (run intake : String) (pairs : List GraphPair) (s : State) (n : ℕ)
      → ((k : String) → any (λ j. str_eq j k) existing ≡ true → IsSeeded run s k)
      → AllSeeded run (seed_loop col existing run intake pairs s n).0 pairs
  unfolding seed_loop
  seed_loop-AllSeeded existing run intake [] s n h = tt
  seed_loop-AllSeeded existing run intake (pair ∷ rest) s n h =
      let key = pair_key run pair.claim_a_id pair.claim_b_id in
      let s' = set s key (new_row run intake pair) in
      let after = seed_loop col existing run intake (pair ∷ rest) s n in
      elim (Bool-cases (any (λ j. str_eq j key) existing)) [
        | inl e ↦
            let same : seed_loop col existing run intake rest s n ≡ after =
              rw (seed_loop, e) refl in
            subst (λ (r : State × ℕ). AllSeeded run r.0 (pair ∷ rest)) same
              (
                seed_loop-IsSeeded existing run intake rest s n key (h key e),
                seed_loop-AllSeeded existing run intake rest s n h,
              )
        | inr e ↦
            let same : seed_loop col existing run intake rest s' (n + 1) ≡ after =
              rw (seed_loop, e) refl in
            subst (λ (r : State × ℕ). AllSeeded run r.0 (pair ∷ rest)) same
              (
                seed_loop-IsSeeded existing run intake rest s' (n + 1) key (
                  new_row run intake pair,
                  find-set_self col s key (new_row run intake pair),
                  refl,
                ),
                seed_loop-AllSeeded existing run intake rest s' (n + 1)
                    (λ k known. set-IsSeeded run intake pair s k key (h k known)),
              )
      ]

  seed_loop-seeded :
      (run intake : String) (pairs : List GraphPair) (s : State) (n : ℕ)
      → AllSeeded run s pairs
      → seed_loop col (pair_ids col run s) run intake pairs s n ≡ (s, n)
  unfolding seed_loop
  seed_loop-seeded run intake [] s n h = refl
  seed_loop-seeded run intake (pair ∷ rest) s n ((p, f, same), h) =
      rw (seed_loop, known run (pair_key run pair.claim_a_id pair.claim_b_id) p s f same)
        (seed_loop-seeded run intake rest s n h)

  All-any :
      (run k : String) (s : State) (ds : List (String × QueuedPair))
      → All (λ (d : String × QueuedPair). IsSeeded run s d.0) ds
      → any (λ j. str_eq j k) (map (λ d. d.0) ds) ≡ true
      → IsSeeded run s k
  All-any run k s [] h e = absurd (ground arith)
  All-any run k s ((j, p) ∷ ds) h e = elim (Bool-cases (str_eq j k)) [
    | inl same ↦ subst (IsSeeded run s) ((eq_iff j k).0 same) h.0
    | inr other ↦ All-any run k s ds h.1 (rw other at e)
  ]

  pair_ids-IsSeeded :
      (run k : String) (s : State)
      → any (λ j. str_eq j k) (pair_ids col run s) ≡ true
      → IsSeeded run s k
  unfolding pair_ids run_query
  pair_ids-IsSeeded run k s e =
      All-any run k s (run_query col run s)
        (All-select (λ (d : String × QueuedPair). find s d.0 ≡ some d.1)
          (λ (d : String × QueuedPair). IsSeeded run s d.0)
          (λ (d : String × QueuedPair). str_eq d.1.stage3_run_id run) (docs s)
          (λ d chosen held. (d.1, held, (eq_iff d.1.stage3_run_id run).0 chosen)) (docs_sound s))
        e

  -- Seeding is idempotent: after a seeding, every pair of the graph has a row of the run, and seeding
  -- the same pairs again, as a rescued G1 does, creates and changes nothing.
  pub seed-seed :
      (run intake : String) (pairs : List GraphPair) (s : State)
      → let after = (seed col run intake pairs s).0 in
        AllSeeded run after pairs × (seed col run intake pairs after ≡ (after, 0))
  unfolding seed
  seed-seed run intake pairs s =
      let all =
        seed_loop-AllSeeded (pair_ids col run s) run intake pairs s 0
          (λ k e. pair_ids-IsSeeded run k s e) in
      (all, seed_loop-seeded run intake pairs _ 0 all)
