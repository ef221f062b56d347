-- ===== src/Cascade/Setup.antt =====
-- The queue before the loop of G1.
use mathlib.Core.Path.{subst}
use mathlib.Core.Option.{some-injective}
use mathlib.Core.List.{Memᴰ}
use lakshmana_core.Prelude.{
  ℕ, ◌+◌, ◌<◌, true, String, str_eq, eq_iff, some, List, [], ◌∷◌, ◌≡◌, refl, sym, ◌∙◌, ap, inl, inr,
  arith, All, All-select, any, Bool-cases, Option-cases, mem-select, leb,
}
use lakshmana_core.Firestore.{Collection}
use lakshmana_core.Firestore.Laws.{find-set_self, set-AllDocs}
use lakshmana_core.Queue.{
  QueuedPair, GraphPair, pair_key, new_row, reset_row, run_query, pair_ids, seed_loop, seed,
  reset_loop, reset,
}
use lakshmana_core.Queue.Lease.{IsKeyed}
use lakshmana_core.Queue.Seed.{AllSeeded, seed-seed}
use lakshmana_core.Loop.Rows.{AtKey, set-AtKey}
use lakshmana_core.Loop.Complete.{RunRows}
use lakshmana_core.Cascade.{g1_setup}

module _ (col : Collection QueuedPair) where
  open col use {State, find, set, docs, docs_sound, docs_complete}

  -- The rows of a list of documents are stored under their own ids.
  abbrev KeyedRows : List (String × QueuedPair) → Type 0
  KeyedRows = All (λ (d : String × QueuedPair). d.1.pair_id ≡ d.0)

  reset_loop-IsKeyed :
      (ds : List (String × QueuedPair)) (s : State) (n : ℕ)
      → KeyedRows ds
      → IsKeyed col s
      → IsKeyed col (reset_loop col ds s n).0
  unfolding reset_loop
  reset_loop-IsKeyed [] s n h all = all
  reset_loop-IsKeyed ((k, p) ∷ ds) s n h all =
      reset_loop-IsKeyed ds (set s k (reset_row p)) (n + 1) h.1
        (set-AllDocs col (λ k q. q.pair_id ≡ k) s k (reset_row p) h.0 all)

  seed_loop-IsKeyed :
      (existing : List String) (run intake : String) (pairs : List GraphPair) (s : State) (n : ℕ)
      → IsKeyed col s
      → IsKeyed col (seed_loop col existing run intake pairs s n).0
  unfolding seed_loop
  seed_loop-IsKeyed existing run intake [] s n all = all
  seed_loop-IsKeyed existing run intake (pair ∷ rest) s n all =
      let key = pair_key run pair.claim_a_id pair.claim_b_id in
      elim (Bool-cases (any (λ k. str_eq k key) existing)) [
        | inl e ↦ rw (seed_loop, e) (seed_loop-IsKeyed existing run intake rest s n all)
        | inr e ↦
            rw (seed_loop, e)
              (seed_loop-IsKeyed existing run intake rest (set s key (new_row run intake pair))
                (n + 1)
                (set-AllDocs col (λ k q. q.pair_id ≡ k) s key (new_row run intake pair) refl all))
      ]

  module _ (R : QueuedPair → Type 0) (k : String) where
    seed_loop-AtKey :
        (existing : List String) (run intake : String) (pairs : List GraphPair) (s : State) (n : ℕ)
        → ((pair : GraphPair) → R (new_row run intake pair))
        → AtKey col R k s
        → AtKey col R k (seed_loop col existing run intake pairs s n).0
    unfolding seed_loop
    seed_loop-AtKey existing run intake [] s n new all = all
    seed_loop-AtKey existing run intake (pair ∷ rest) s n new all =
        let key = pair_key run pair.claim_a_id pair.claim_b_id in
        elim (Bool-cases (any (λ k. str_eq k key) existing)) [
          | inl e ↦ rw (seed_loop, e) (seed_loop-AtKey existing run intake rest s n new all)
          | inr e ↦
              rw (seed_loop, e)
                (seed_loop-AtKey existing run intake rest (set s key (new_row run intake pair))
                  (n + 1) new (set-AtKey col R s key k (new_row run intake pair) (new pair) all))
        ]

    reset_loop-AtKey :
        (ds : List (String × QueuedPair)) (s : State) (n : ℕ)
        → ((p : QueuedPair) → R (reset_row p))
        → AtKey col R k s
        → AtKey col R k (reset_loop col ds s n).0
    unfolding reset_loop
    reset_loop-AtKey [] s n again all = all
    reset_loop-AtKey ((j, p) ∷ ds) s n again all =
        reset_loop-AtKey ds (set s j (reset_row p)) (n + 1) again
          (set-AtKey col R s j k (reset_row p) (again p) all)

    -- A document of the list is reset.
    reset_loop-reached :
        (p : QueuedPair) (ds : List (String × QueuedPair)) (s : State) (n : ℕ)
        → ((p : QueuedPair) → R (reset_row p))
        → Memᴰ (k, p) ds
        → AtKey col R k (reset_loop col ds s n).0
    unfolding reset_loop
    reset_loop-reached p ds s n again (Memᴰ.head {x = x} {xs = rest} e) =
        reset_loop-AtKey rest (set s x.0 (reset_row x.1)) (n + 1) again (λ q f.
          subst R
            (some-injective (reset_row x.1) q (
              sym (find-set_self col s x.0 (reset_row x.1))
              ∙ (ap (λ y. find (set s x.0 (reset_row x.1)) y)
                    (sym (ap (λ (d : String × QueuedPair). d.0) e))
                  ∙ f)))
            (again x.1))
    reset_loop-reached p ds s n again (Memᴰ.tail {x = x} m) =
        reset_loop-reached p _ (set s x.0 (reset_row x.1)) (n + 1) again m

  reset-RunRows :
      (R : QueuedPair → Type 0) (run : String) (s : State)
      → ((p : QueuedPair) → R (reset_row p))
      → RunRows col run R (reset col run s).0
  unfolding reset run_query
  reset-RunRows R run s again k q f ours = elim (Option-cases (find s k)) [
    | inl gone ↦
        reset_loop-AtKey Ours k (run_query col run s) s 0 (λ p o. again p)
          (λ p e. absurd (cc (gone, e))) q f ours
    | inr (p, e) ↦ elim (Bool-cases (str_eq p.stage3_run_id run)) [
      | inl same ↦
          reset_loop-reached Ours k p (run_query col run s) s 0 (λ p o. again p)
            (mem-select (λ d. str_eq d.1.stage3_run_id run) same (docs_complete s k p e)) q f ours
      | inr other ↦
          reset_loop-AtKey Ours k (run_query col run s) s 0 (λ p o. again p)
            (λ r g o.
              let same : r ≡ p = some-injective r p (sym g ∙ e) in
              let here : str_eq p.stage3_run_id run ≡ true =
                (eq_iff p.stage3_run_id run).1 (ap (λ x. x.stage3_run_id) (sym same) ∙ o) in
              absurd (cc (here, other)))
            q f ours
    ]
  ]
    where
      Ours : QueuedPair → Type 0
      Ours q = q.stage3_run_id ≡ run → R q

  reset-IsKeyed : (run : String) (s : State) → IsKeyed col s → IsKeyed col (reset col run s).0
  unfolding reset run_query
  reset-IsKeyed run s keyed =
      reset_loop-IsKeyed (run_query col run s) s 0
        (All-select (λ (d : String × QueuedPair). find s d.0 ≡ some d.1)
          (λ (d : String × QueuedPair). d.1.pair_id ≡ d.0)
          (λ (d : String × QueuedPair). str_eq d.1.stage3_run_id run) (docs s)
          (λ d e f. keyed d.0 d.1 f) (docs_sound s))
        keyed

  -- After the setup of G1 every pair of the graph has a row of the run, and every row of the run has a
  -- property that new rows and reset rows have, if the setup purges, or the run's rows had it before.
  pub g1_setup_lem :
      (R : QueuedPair → Type 0) (attempt : ℕ) (run intake : String) (pairs : List GraphPair)
      (s : State)
      → ((pair : GraphPair) → R (new_row run intake pair))
      → ((p : QueuedPair) → R (reset_row p))
      → IsKeyed col s
      → (1 < attempt → RunRows col run R s)
      → let after = (g1_setup col attempt run intake pairs s).0 in
        IsKeyed col after × RunRows col run R after × AllSeeded col run after pairs
  unfolding g1_setup seed
  g1_setup_lem R attempt run intake pairs s new again keyed before =
      elim (Bool-cases (leb attempt 1)) [
        | inl e ↦
            rw e
              (seeded (reset col run s).0 (reset-IsKeyed run s keyed) (reset-RunRows R run s again))
        | inr e ↦ rw e (seeded s keyed (before (ground (arith, e))))
      ]
    where
      seeded :
          (t : State)
          → IsKeyed col t
          → RunRows col run R t
          → IsKeyed col (seed col run intake pairs t).0
            × RunRows col run R (seed col run intake pairs t).0
            × AllSeeded col run (seed col run intake pairs t).0 pairs
      seeded t keyed all =
          unfold seed in
          (
            seed_loop-IsKeyed (pair_ids col run t) run intake pairs t 0 keyed,
            λ k.
                seed_loop-AtKey (λ q. q.stage3_run_id ≡ run → R q) k (pair_ids col run t) run intake
                  pairs t 0 (λ pair o. new pair) (all k),
            (seed-seed col run intake pairs t).0,
          )
