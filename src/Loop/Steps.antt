-- ===== src/Loop/Steps.antt =====
-- The steps of the four gates do what a batch loop asks of a step.
use mathlib.Core.Path.{subst}
use lakshmana_core.Prelude.{
  ℕ, ◌<◌, Bool, true, false, not, ◌&&◌, String, Option, none, some, List, [], ◌∷◌, ◌≡◌, ◌≢◌, refl,
  sym, inl, inr, arith, All, All-map, All-select, All-values, All-arguments, All-any, All-partition,
  map, select, Bool-cases, Option-cases, List-cases, if◌then◌else◌,
}
use lakshmana_core.Enums.{
  Gate, g1_neutral, g2_corroboration, g3_contradiction, g4_escalation, gate_order,
}
use lakshmana_core.Enums.Order.{index}
use lakshmana_core.Decisions.{
  Thresholds, G1Scores, decide_g1, G2Scores, decide_g2, G3Scores, decide_g3,
}
use lakshmana_core.Runs.{GatekeeperRun}
use lakshmana_core.Queue.{QueuedPair, Changes, routed_row}
use lakshmana_core.Routing.{g2_routing, g1_update, pass_through, g2_update, g3_update}
use lakshmana_core.Routing.Placement.{
  IsPlaced, IsOnward, g1_routing-IsPlaced, g2_routing-IsPlaced, g3_routing-IsPlaced,
}
use lakshmana_core.Finalize.Tallies.{IsSettled}
use lakshmana_core.Tail.{Response, Judging, shadow_loop}
use lakshmana_core.Tail.Cap.{AllSettled, judge_loop-cases}
use lakshmana_core.Tail.Shadow.{shadow_loop-accounts}
use lakshmana_core.Loop.{
  Updates, g1_step, g2_step, g3_step, TailState, is_gatekeeper, is_shadow_mode, g4_step,
}
use lakshmana_core.Loop.Rows.{Makes}
use lakshmana_core.Loop.Round.{Judged, IsJudge}

-- A row that a gate is done with: placed at a later gate or out of the cascade, without a lease.
abbrev pub IsPast : Gate → QueuedPair → Type 0
IsPast g p = IsPlaced p × IsOnward g p.gate × (p.lease_expires_at ≡ none)

IsOnward_lem : (g : Gate) (p : QueuedPair) → IsOnward g p.gate → p.gate ≢ some g
IsOnward_lem g p on at =
    let same : index gate_order g < index gate_order g = subst (IsOnward g) at on in
    omega (arith, same)

pub IsPast-leaves : (g : Gate) (p : QueuedPair) → IsPast g p → p.gate ≢ some g
IsPast-leaves g p h = IsOnward_lem g p h.1

-- The updates are of the pairs that the function was given.
module _ (f : QueuedPair → QueuedPair × Changes) (own : (p : QueuedPair) → (f p).0 ≡ p) where
  map-Makes :
      (R : QueuedPair → Type 0)
      → ((p row : QueuedPair) → R (routed_row row (f p).1))
      → (ps : List QueuedPair) → Makes R (map f ps)
  map-Makes R h ps =
      All-values f (λ (u : QueuedPair × Changes). (row : QueuedPair) → R (routed_row row u.1)) ps
        (All-any (λ p. (row : QueuedPair) → R (routed_row row (f p).1)) h ps)

  map-only :
      (Q : QueuedPair → Type 0) (ps : List QueuedPair)
      → All Q ps
      → All (λ (u : QueuedPair × Changes). Q u.0) (map f ps)
  map-only Q ps h =
      All-values f (λ (u : QueuedPair × Changes). Q u.0) ps
        (All-map Q (λ p. Q (f p).0) ps (λ p q. subst Q (sym (own p)) q) h)

  map-routed :
      (Q : QueuedPair → Type 0) (ps : List QueuedPair)
      → All (λ (u : QueuedPair × Changes). Q u.0) (map f ps)
      → All Q ps
  map-routed Q ps h =
      All-map (λ p. Q (f p).0) Q ps (λ p q. subst Q (own p) q)
        (All-arguments f (λ (u : QueuedPair × Changes). Q u.0) ps h)

  map-Judged :
      {J : Type 0} (R : QueuedPair → Type 0) (j : J)
      → ((p row : QueuedPair) → R (routed_row row (f p).1))
      → (batch : List QueuedPair) → Judged R batch (j, map f batch ∷ [], true)
  map-Judged R j h batch = record {
    makes = (map-Makes R h batch, tt);
    only = λ Q all. (map-only Q batch all, tt);
    all_routed = λ Q ok all. map-routed Q batch all.0;
  }

-- A step that has raised before it has routed anything.
raised-Judged :
    {J : Type 0} (R : QueuedPair → Type 0) (j : J) (batch : List QueuedPair)
    → Judged R batch (j, [], false)
raised-Judged R j batch = record {
  makes = tt;
  only = λ Q all. tt;
  all_routed = λ Q ok all. absurd (cc ok);
}

module _ (score : List QueuedPair → Option (QueuedPair → G1Scores)) (t : Thresholds)
    (id : String) where
  pub g1_step-IsJudge : IsJudge (IsPast g1_neutral) (g1_step score t id)
  unfolding g1_step g1_update
  g1_step-IsJudge j batch = elim (Option-cases (score batch)) [
    | inl e ↦ rw (g1_step, e) (raised-Judged (IsPast g1_neutral) tt batch)
    | inr (scores, e) ↦
        rw (g1_step, e)
          (map-Judged (λ p. g1_update (scores p) t id p) (λ p. refl) (IsPast g1_neutral) tt
            (λ p row.
              let h = g1_routing-IsPlaced (decide_g1 (scores p) t) id row in (h.0, h.1, refl))
            batch)
  ]

module _ (score : List QueuedPair → Option (QueuedPair → G2Scores)) (t : Thresholds)
    (id : String) where
  abbrev flagged : List QueuedPair → List QueuedPair
  flagged = select (λ p. p.contradiction_flag)

  abbrev unflagged : List QueuedPair → List QueuedPair
  unflagged = select (λ p. not p.contradiction_flag)

  abbrev passed : List QueuedPair → Updates
  passed batch = map (λ p. (p, pass_through id)) (flagged batch)

  All-select_only :
      (Q : QueuedPair → Type 0) (test : QueuedPair → Bool) (batch : List QueuedPair)
      → All Q batch
      → All Q (select test batch)
  All-select_only Q test batch h = All-select Q Q test batch (λ p e q. q) h

  pass_through-Judged :
      (batch : List QueuedPair)
      → Judged (IsPast g2_corroboration) (flagged batch) (tt, passed batch ∷ [], true)
  unfolding pass_through
  pass_through-Judged batch =
      map-Judged (λ p. (p, pass_through id)) (λ p. refl) (IsPast g2_corroboration) tt
        (λ p row. ((refl, refl), omega arith, refl)) (flagged batch)

  g2_update-Judged :
      (scores : QueuedPair → G2Scores) (batch : List QueuedPair)
      → Judged (IsPast g2_corroboration) batch (tt, map (g2_update scores t id) batch ∷ [], true)
  unfolding g2_update pass_through
  g2_update-Judged scores batch =
      map-Judged (g2_update scores t id) (λ p. refl) (IsPast g2_corroboration) tt row_of batch
    where
      either_way :
          (b : Bool) (row : QueuedPair) (u : Changes)
          → IsPast g2_corroboration (routed_row row u)
          → IsPast g2_corroboration (routed_row row (if b then pass_through id else u))
      either_way true row u h = ((refl, refl), omega arith, refl)
      either_way false row u h = h

      row_of :
          (p row : QueuedPair)
          → IsPast g2_corroboration (routed_row row (g2_update scores t id p).1)
      row_of p row =
          let h = g2_routing-IsPlaced (decide_g2 (scores p) t) id row in
          either_way p.contradiction_flag row (g2_routing (decide_g2 (scores p) t) id).0
            (h.0, h.1, refl)

  pub g2_step-IsJudge : IsJudge (IsPast g2_corroboration) (g2_step score t id)
  unfolding g2_step
  g2_step-IsJudge j batch = elim (List-cases (unflagged batch)) [
    | inl e ↦
        rw (g2_step, e)
          (record {
            makes = first.makes;
            only = λ Q all. first.only Q (All-select_only Q (λ p. p.contradiction_flag) batch all);
            all_routed = λ Q ok all.
                All-partition Q (λ p. p.contradiction_flag) batch (rw e tt)
                  (first.all_routed Q refl all);
          })
    | inr (p, rest, e) ↦ elim (Option-cases (score (p ∷ rest))) [
      | inl f ↦
          rw (g2_step, e, f)
            (record {
              makes = first.makes;
              only =
                  λ Q all. first.only Q (All-select_only Q (λ p. p.contradiction_flag) batch all);
              all_routed = λ Q ok all. absurd (cc ok);
            })
      | inr (scores, f) ↦
          let second = g2_update-Judged scores (p ∷ rest) in
          rw (g2_step, e, f)
            (record {
              makes = (first.makes.0, second.makes);
              only = λ Q all. (
                (first.only Q (All-select_only Q (λ p. p.contradiction_flag) batch all)).0,
                second.only Q
                    (subst (All Q) e (All-select_only Q (λ p. not p.contradiction_flag) batch all)),
              );
              all_routed = λ Q ok all.
                  All-partition Q (λ p. p.contradiction_flag) batch
                    (subst (All Q) (sym e) (second.all_routed Q refl all.1))
                    (first.all_routed Q refl (all.0, tt));
            })
    ]
  ]
    where
      first : Judged (IsPast g2_corroboration) (flagged batch) (tt, passed batch ∷ [], true)
      first = pass_through-Judged batch

pub g3_step-IsJudge :
    (read_family_a : List QueuedPair → Option (QueuedPair → G1Scores))
    (score : List QueuedPair → Option (QueuedPair → G3Scores)) (t : Thresholds) (id : String)
    → IsJudge (IsPast g3_contradiction) (g3_step read_family_a score t id)
unfolding g3_step g3_update
g3_step-IsJudge read_family_a score t id j batch = elim (Option-cases (read_family_a batch)) [
  | inl e ↦ rw (g3_step, e) (raised-Judged (IsPast g3_contradiction) tt batch)
  | inr (a, e) ↦ elim (Option-cases (score batch)) [
    | inl f ↦ rw (g3_step, e, f) (raised-Judged (IsPast g3_contradiction) tt batch)
    | inr (b, f) ↦
        rw (g3_step, e, f)
          (map-Judged (λ p. g3_update (a p) (b p) t id p) (λ p. refl) (IsPast g3_contradiction) tt
            (λ p row.
              let h = g3_routing-IsPlaced (decide_g3 (a p) (b p) t) id row in (h.0, h.1, refl))
            batch)
  ]
]

-- The tail's routes.
module _ (batch : List QueuedPair) (w : Judging) where
  routes-Judged :
      (j : TailState)
      → map (λ (u : QueuedPair × Changes). u.0) w.routes ≡ batch
      → AllSettled w.routes
      → Judged (IsPast g4_escalation) batch (j, w.routes ∷ [], true)
  routes-Judged j same settled = record {
    makes = (All-map _ _ w.routes (λ u h row. settled-IsPast u row h) settled, tt);
    only = λ Q all. (
      All-arguments (λ (u : QueuedPair × Changes). u.0) Q w.routes (subst (All Q) (sym same) all),
      tt,
    );
    all_routed = λ Q ok all.
        subst (All Q) same (All-values (λ (u : QueuedPair × Changes). u.0) Q w.routes all.0);
  }
    where
      settled-IsPast :
          (u : QueuedPair × Changes) (row : QueuedPair)
          → IsSettled (routed_row u.0 u.1)
          → IsPast g4_escalation (routed_row row u.1)
      settled-IsPast (p, c) row h = (rw h.0 (refl, h.1), rw h.0 tt, refl)

pub g4_step-IsJudge :
    (run : GatekeeperRun) (subject_id model : String) (ask : QueuedPair → Response)
    (max_llm_pairs : ℕ) (live : Bool) (has_cards : List QueuedPair → Bool)
    → IsJudge (IsPast g4_escalation) (g4_step run subject_id model ask max_llm_pairs live has_cards)
unfolding g4_step
g4_step-IsJudge run subject_id model ask max_llm_pairs live has_cards j batch =
    let start : Judging = record {
      verdicts = [];
      routes = [];
      counters = j.counters;
      spent = j.spent;
    } in
    elim (Bool-cases (is_shadow_mode run.judge_mode)) [
      | inl e ↦
          let w = shadow_loop run subject_id model start batch in
          let h = shadow_loop-accounts run subject_id model start batch in
          rw (g4_step, e)
            (routes-Judged batch w (record { counters = w.counters; spent = w.spent }) h.0 (h.1 tt))
      | inr e ↦ elim (Bool-cases (is_gatekeeper run.judge_mode && not live)) [
        | inl f ↦ rw (g4_step, e, f) (raised-Judged (IsPast g4_escalation) j batch)
        | inr f ↦ elim (Bool-cases (not (has_cards batch))) [
          | inl k ↦ rw (g4_step, e, f, k) (raised-Judged (IsPast g4_escalation) j batch)
          | inr k ↦ elim (judge_loop-cases run subject_id model ask max_llm_pairs start batch) [
            | inl raises ↦
                rw (g4_step, e, f, k, raises) (raised-Judged (IsPast g4_escalation) j batch)
            | inr (w, ends, h) ↦
                rw (g4_step, e, f, k, ends)
                  (routes-Judged batch w (record { counters = w.counters; spent = w.spent }) h.pairs
                    (h.settled tt))
          ]
        ]
      ]
    ]
