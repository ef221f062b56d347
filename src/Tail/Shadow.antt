-- ===== src/Tail/Shadow.antt =====
-- `_record_shadow` of gatekeeper/gates/g4.py: the tail in a shadow run.

use mathlib.Core.List.{append-nil, append_assoc, map-append}
use lakshmana_core.Prelude.{
  ◌+◌, ◌++◌, ◌∷◌, [], List, String, ◌≡◌, refl, sym, ◌∙◌, ap, map, length, All-append, none, inr,
  inl, arith,
}
use lakshmana_core.Runs.{GatekeeperRun}
use lakshmana_core.Queue.{QueuedPair, Changes}
use lakshmana_core.Tail.{Judging, tail_route, shadow_one, shadow_loop}
use lakshmana_core.Tail.Cap.{AllSettled}

module _ (run : GatekeeperRun) (subject_id model : String) where
  -- A shadow batch, from any counters: each pair gets one route, in the batch's order, which takes it out
  -- of the cascade, and is counted as suppressed; no call is made and no spend added.
  pub shadow_loop-accounts :
      (w : Judging) (ps : List QueuedPair)
      → let w' = shadow_loop run subject_id model w ps in
        (map (λ (u : QueuedPair × Changes). u.0) w'.routes
          ≡ map (λ (u : QueuedPair × Changes). u.0) w.routes ++ ps)
        × (AllSettled w.routes → AllSettled w'.routes)
        × (w'.counters.shadow_suppressed ≡ w.counters.shadow_suppressed + length ps)
        × (w'.counters.llm_calls ≡ w.counters.llm_calls)
        × (w'.spent ≡ w.spent)
  unfolding shadow_loop shadow_one
  shadow_loop-accounts w [] = (sym (append-nil _), λ h. h, omega arith, refl, refl)
  shadow_loop-accounts w (p ∷ ps) =
      let rest = shadow_loop-accounts (shadow_one run subject_id model w p) ps in
      let fst : QueuedPair × Changes → QueuedPair = λ u. u.0 in
      (
        rest.0
            ∙ (ap (λ qs. qs ++ ps) (map-append fst w.routes ((p, tail_route run none) ∷ []))
                ∙ append_assoc (map fst w.routes) (p ∷ []) ps),
        λ h. rest.1 (All-append _ w.routes _ h ((refl, inr (inl refl)), tt)),
        omega (arith, rest.2),
        rest.3,
        rest.4,
      )
