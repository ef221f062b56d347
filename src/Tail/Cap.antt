-- ===== src/Tail/Cap.antt =====
-- What the tail spends and what it leaves behind.
use mathlib.Core.Path.{subst}
use mathlib.Core.Option.{some-ne-none}
use mathlib.Core.List.{append-nil, append_assoc, map-append}
use lakshmana_core.Prelude.{
  ℕ, ◌+◌, ◌≤◌, false, inl, inr, ◌⊎◌, none, some, List, [], ◌∷◌, ◌++◌, ◌≡◌, ◌≢◌, refl, sym, ◌∙◌, ap,
  String, arith, map, length, All, All-append, Bool-cases,
}
use lakshmana_core.Enums.{gk_g4_llm}
use lakshmana_core.Firestore.{Collection}
use lakshmana_core.Runs.{GatekeeperRun}
use lakshmana_core.Queue.{QueuedPair, Changes, routed_row}
use lakshmana_core.Finalize.Tallies.{IsSettled}
use lakshmana_core.Tail.{
  Answer, Response, given, refused, uncaught, TailCounters, Judging, human_route, tail_route,
  is_capped, reject, over_cap, after_error, after_answer, judge_one, judge_loop, judge_batch,
}

-- Every route takes its pair out of the cascade to a human or to the tail.
abbrev pub AllSettled : List (QueuedPair × Changes) → Type 0
AllSettled = All (λ (u : QueuedPair × Changes). IsSettled (routed_row u.0 u.1))

-- What one round adds: a route for its pair, and a count for what became of it.
record Adds (w w' : Judging) (p : QueuedPair) (max_llm_pairs : ℕ) : Type 0 where
  pub change : Changes
  pub routed : w'.routes ≡ w.routes ++ (p, change) ∷ []
  pub settled : IsSettled (routed_row p change)
  pub seen : w'.counters.seen ≡ w.counters.seen + 1
  pub split :
      w'.counters.decided + w'.counters.llm_errors + w'.counters.capped
      ≡ w.counters.decided + w.counters.llm_errors + w.counters.capped + 1
  pub calls : w'.spent + w.counters.llm_calls ≡ w.spent + w'.counters.llm_calls
  pub paid :
      w'.counters.llm_calls + w.counters.decided + w.counters.llm_errors
      ≡ w.counters.llm_calls + w'.counters.decided + w'.counters.llm_errors
  pub within : max_llm_pairs ≢ 0 → w.spent ≤ max_llm_pairs → w'.spent ≤ max_llm_pairs

free :
    (max_llm_pairs spent : ℕ)
    → is_capped max_llm_pairs spent ≡ false
    → max_llm_pairs ≢ 0
    → spent + 1 ≤ max_llm_pairs
unfolding is_capped
free max_llm_pairs spent e m = ground arith

Response-cases : (r : Response) → (r ≡ uncaught) ⊎ (r ≡ refused) ⊎ ((a : Answer) × (r ≡ given a))
Response-cases uncaught = inl refl
Response-cases refused = inr (inl refl)
Response-cases (given a) = inr (inr (a, refl))

module _ (run : GatekeeperRun) (subject_id model : String) (ask : QueuedPair → Response)
    (max_llm_pairs : ℕ) where
  judge_one-Adds :
      (w : Judging) (p : QueuedPair)
      → ((ask p ≡ uncaught) × (judge_one run subject_id model ask max_llm_pairs w p ≡ none))
        ⊎ ((w' : Judging) × (judge_one run subject_id model ask max_llm_pairs w p ≡ some w')
            × Adds w w' p max_llm_pairs)
  unfolding judge_one reject
  judge_one-Adds w p = elim (Bool-cases (is_capped max_llm_pairs w.spent)) [
    | inl e ↦ inr (
      over_cap run subject_id model w p,
      rw (judge_one, e) refl,
      record {
        change = human_route run;
        routed = refl;
        settled = (refl, inl refl);
        seen = refl;
        split = omega arith;
        calls = refl;
        paid = refl;
        within = λ m h. h;
      },
    )
    | inr e ↦ elim (Response-cases (ask p)) [
      | inl f ↦ inl (f, rw (judge_one, e, f) refl)
      | inr (inl f) ↦ inr (
        after_error run subject_id model w p,
        rw (judge_one, e, f) refl,
        record {
          change = human_route run;
          routed = refl;
          settled = (refl, inl refl);
          seen = refl;
          split = omega arith;
          calls = omega arith;
          paid = omega arith;
          within = λ m h. free max_llm_pairs w.spent e m;
        },
      )
      | inr (inr (a, f)) ↦ inr (
        after_answer run subject_id model w p a,
        rw (judge_one, e, f) refl,
        record {
          change = tail_route run (some gk_g4_llm);
          routed = refl;
          settled = (refl, inr (inl refl));
          seen = refl;
          split = omega arith;
          calls = omega arith;
          paid = omega arith;
          within = λ m h. free max_llm_pairs w.spent e m;
        },
      )
    ]
  ]

  -- What the loop over a batch adds.
  pub record Accounts (w w' : Judging) (ps : List QueuedPair) : Type 0 where
    pub pairs :
        map (λ (u : QueuedPair × Changes). u.0) w'.routes
        ≡ map (λ (u : QueuedPair × Changes). u.0) w.routes ++ ps
    pub settled : AllSettled w.routes → AllSettled w'.routes
    pub seen : w'.counters.seen ≡ w.counters.seen + length ps
    pub split :
        w'.counters.decided + w'.counters.llm_errors + w'.counters.capped
        ≡ w.counters.decided + w.counters.llm_errors + w.counters.capped + length ps
    pub calls : w'.spent + w.counters.llm_calls ≡ w.spent + w'.counters.llm_calls
    pub paid :
        w'.counters.llm_calls + w.counters.decided + w.counters.llm_errors
        ≡ w.counters.llm_calls + w'.counters.decided + w'.counters.llm_errors
    pub within : max_llm_pairs ≢ 0 → w.spent ≤ max_llm_pairs → w'.spent ≤ max_llm_pairs

  Accounts-empty : (w : Judging) → Accounts w w []
  Accounts-empty w = record {
    pairs = sym (append-nil _);
    settled = λ h. h;
    seen = omega arith;
    split = omega arith;
    calls = refl;
    paid = refl;
    within = λ m h. h;
  }

  Adds-Accounts :
      (w w1 w' : Judging) (p : QueuedPair) (ps : List QueuedPair)
      → Adds w w1 p max_llm_pairs
      → Accounts w1 w' ps
      → Accounts w w' (p ∷ ps)
  Adds-Accounts w w1 w' p ps one rest =
      let fst : QueuedPair × Changes → QueuedPair = λ u. u.0 in
      record {
        pairs =
            rest.pairs
            ∙ (ap (λ us. map fst us ++ ps) one.routed
                ∙ (ap (λ qs. qs ++ ps) (map-append fst w.routes ((p, one.change) ∷ []))
                    ∙ append_assoc (map fst w.routes) (p ∷ []) ps));
        settled = λ h.
            rest.settled
              (subst AllSettled (sym one.routed) (All-append _ w.routes _ h (one.settled, tt)));
        seen = let a = one.seen in let b = rest.seen in omega arith;
        split = let a = one.split in let b = rest.split in omega arith;
        calls = let a = one.calls in let b = rest.calls in omega arith;
        paid = let a = one.paid in let b = rest.paid in omega arith;
        within = λ m h. rest.within m (one.within m h);
      }

  -- The loop raises, or has its accounts; it raises only where a response is not caught.
  pub judge_loop-cases :
      (w : Judging) (ps : List QueuedPair)
      → (judge_loop run subject_id model ask max_llm_pairs w ps ≡ none)
        ⊎ ((w' : Judging) × (judge_loop run subject_id model ask max_llm_pairs w ps ≡ some w')
            × Accounts w w' ps)
  unfolding judge_loop judge_one
  judge_loop-cases w [] = inr (w, refl, Accounts-empty w)
  judge_loop-cases w (p ∷ ps) = elim (judge_one-Adds w p) [
    | inl raises ↦ inl (rw (judge_loop, raises.1) refl)
    | inr (w1, here, one) ↦ elim (judge_loop-cases w1 ps) [
      | inl later ↦ inl (rw (judge_loop, here) later)
      | inr (w', there, rest) ↦
          inr (w', rw (judge_loop, here) there, Adds-Accounts w w1 w' p ps one rest)
    ]
  ]

  pub judge_loop-caught :
      (w : Judging) (ps : List QueuedPair)
      → All (λ (p : QueuedPair). ask p ≢ uncaught) ps
      → judge_loop run subject_id model ask max_llm_pairs w ps ≢ none
  unfolding judge_loop
  judge_loop-caught w [] caught = some-ne-none w
  judge_loop-caught w (p ∷ ps) caught = elim (judge_one-Adds w p) [
    | inl raises ↦ absurd (caught.0 raises.0)
    | inr (w1, here, one) ↦ rw (judge_loop, here) (judge_loop-caught w1 ps caught.1)
  ]

  -- The other end: an exception that is not caught leaves the loop, unless the cap keeps its pair from
  -- the model.
  judge_loop-raises :
      (w : Judging) (p : QueuedPair) (ps : List QueuedPair)
      → is_capped max_llm_pairs w.spent ≡ false
      → ask p ≡ uncaught
      → judge_loop run subject_id model ask max_llm_pairs w (p ∷ ps) ≡ none
  unfolding judge_loop judge_one
  judge_loop-raises w p ps e f = rw (judge_loop, judge_one, e, f) refl

  -- A batch of the tail, from any counters `c` and any spend, in which each call of the model gives an
  -- answer or an error that `_judge_batch` catches, gets through: each pair gets one route, in the
  -- batch's order, which takes it out of the cascade; each pair is counted as decided, failed or over the
  -- cap; the spend grows by the calls made, and never past the cap that it was under.
  pub judge_batch-accounts :
      (col : Collection QueuedPair) (batch : List QueuedPair) (c : TailCounters) (spent : ℕ)
      (s : col.State)
      → All (λ (p : QueuedPair). ask p ≢ uncaught) batch
      → (done : Judging) × ((judge_batch run subject_id model ask max_llm_pairs col batch c spent
            s).1
          ≡ some done)
        × (map (λ (u : QueuedPair × Changes). u.0) done.routes ≡ batch)
        × AllSettled done.routes
        × (done.counters.decided + done.counters.llm_errors + done.counters.capped
            ≡ c.decided + c.llm_errors + c.capped + length batch)
        × (done.spent + c.llm_calls ≡ spent + done.counters.llm_calls)
        × (max_llm_pairs ≢ 0 → spent ≤ max_llm_pairs → done.spent ≤ max_llm_pairs)
  unfolding judge_batch
  judge_batch-accounts col batch c spent s caught =
      let start : Judging = record { verdicts = []; routes = []; counters = c; spent = spent } in
      elim (judge_loop-cases start batch) [
        | inl raises ↦ absurd (judge_loop-caught start batch caught raises)
        | inr (done, e, h) ↦
            (done, rw (judge_batch, e) refl, h.pairs, h.settled tt, h.split, h.calls, h.within)
      ]

  -- A batch whose first call is made and raises an exception that is not caught raises it too, and
  -- leaves the queue as it was.
  judge_batch-raises :
      (col : Collection QueuedPair) (p : QueuedPair) (rest : List QueuedPair) (c : TailCounters)
      (spent : ℕ) (s : col.State)
      → is_capped max_llm_pairs spent ≡ false
      → ask p ≡ uncaught
      → judge_batch run subject_id model ask max_llm_pairs col (p ∷ rest) c spent s ≡ (s, none)
  unfolding judge_batch
  judge_batch-raises col p rest c spent s e f =
      rw
        (
          judge_batch,
          judge_loop-raises (record { verdicts = []; routes = []; counters = c; spent = spent }) p
              rest e f,
        )
        refl
