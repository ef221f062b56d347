-- ===== src/Finalize/Tallies.antt =====
-- The tally of a run's pairs.
use lakshmana_core.Prelude.{
  ℕ, ◌+◌, ◌≤◌, true, ◌⊎◌, inl, inr, ◌↔◌, none, List, [], ◌∷◌, ◌≡◌, refl, ◌∙◌, length, All, arith,
}
use lakshmana_core.Enums.{cascade, llm_tail, human}
use lakshmana_core.Queue.{QueuedPair}
use lakshmana_core.Finalize.{
  Tally, is_cascade_method, count, no_pairs, tally_loop, tally, reconciles,
}

-- A pair that has left the cascade in a way that FINALIZE knows: to a human, to the tail, or decided
-- by one of the three encoder gates.
abbrev pub IsSettled : QueuedPair → Type 0
IsSettled p =
    (p.gate ≡ none)
    × ((p.tier ≡ human)
        ⊎ (p.tier ≡ llm_tail)
        ⊎ ((p.tier ≡ cascade) × (is_cascade_method p.decided_by ≡ true)))

-- What the buckets hold together.
abbrev total : Tally → ℕ
total t = t.decided_by_gates + t.escalated_llm + t.escalated_human + t.stranded

count-total :
    (t : Tally) (p : QueuedPair)
    → (total (count t p) ≡ total t + 1) × ((count t p).pairs_seen ≡ t.pairs_seen + 1)
unfolding count
count-total t p = ground arith

tally_loop-total :
    (t : Tally) (ps : List QueuedPair)
    → (total (tally_loop t ps) ≡ total t + length ps)
      × ((tally_loop t ps).pairs_seen ≡ t.pairs_seen + length ps)
unfolding tally_loop
tally_loop-total t [] = (omega arith, omega arith)
tally_loop-total t (p ∷ ps) =
    let (a, b) = count-total t p in
    let (c, d) = tally_loop-total (count t p) ps in (omega arith, omega arith)

-- Every pair of the run is counted once: the three buckets and the stranded pairs add up to the
-- pairs seen, which are all the rows of the list.
pub tally-partition :
    (ps : List QueuedPair)
    → ((tally ps).decided_by_gates
          + (tally ps).escalated_llm
          + (tally ps).escalated_human
          + (tally ps).stranded
        ≡ (tally ps).pairs_seen)
      × ((tally ps).pairs_seen ≡ length ps)
unfolding tally
tally-partition ps = let (a, b) = tally_loop-total no_pairs ps in (omega arith, omega arith)

count-stranded :
    (t : Tally) (p : QueuedPair)
    → ((IsSettled p) × ((count t p).stranded ≡ t.stranded))
      ⊎ ((¬ IsSettled p) × ((count t p).stranded ≡ t.stranded + 1))
unfolding count
count-stranded t p = ground arith

stranded_grows : (t : Tally) (ps : List QueuedPair) → t.stranded ≤ (tally_loop t ps).stranded
unfolding tally_loop
stranded_grows t [] = omega arith
stranded_grows t (p ∷ ps) =
    let h = stranded_grows (count t p) ps in
    elim (count-stranded t p) [ inl (a, e) ↦ omega arith | inr (a, e) ↦ omega arith ]

stranded_lem :
    (t : Tally) (ps : List QueuedPair)
    → ((tally_loop t ps).stranded ≡ t.stranded) ↔ All IsSettled ps
unfolding tally_loop
stranded_lem t [] = (λ h. tt, λ h. refl)
stranded_lem t (p ∷ ps) =
    let ih = stranded_lem (count t p) ps in
    let grows = stranded_grows (count t p) ps in
    elim (count-stranded t p) [
      | inl (a, e) ↦ (λ h. (a, ih.0 (omega arith)), λ h. ih.1 h.1 ∙ e)
      | inr (a, e) ↦ (λ h. absurd (omega arith), λ h. absurd (a h.0))
    ]

-- The run reconciles exactly when every pair has left the cascade to a human, to the tail or by the
-- decision of an encoder gate: no pair at a gate, and none cleared without a method.
pub reconciles-IsSettled :
    (ps : List QueuedPair) → (reconciles (tally ps) ≡ true) ↔ All IsSettled ps
unfolding reconciles tally
reconciles-IsSettled ps =
    let (a, b) = tally_loop-total no_pairs ps in
    let st = stranded_lem no_pairs ps in
    (λ h. st.0 (ground arith), λ h. let e = st.1 h in ground arith)
