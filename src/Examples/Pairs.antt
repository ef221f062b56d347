-- ===== src/Examples/Pairs.antt =====
-- The queue.
use lakshmana_core.Prelude.{
  sym, ap, ℕ, ◌<◌, ◌+◌, ◌≤◌, String, none, some, List, [], ◌∷◌, ◌≡◌, ◌≢◌, refl, false, arith,
  length, All,
}
use mathlib.Core.Option.{some-injective}
use lakshmana_core.Enums.{g1_neutral, g2_corroboration, cascade}
use lakshmana_core.Firestore.Laws.{set-AllDocs}
use mathlib.Core.Path.{subst}
use lakshmana_core.Firestore.Memory.{find_in, Log}
use lakshmana_core.Queue.{
  QueuedPair, Changes, leased_row, claim_batch, route_all, seed, still_owned, run_query,
}
use lakshmana_core.Queue.Lease.{
  IsHeld, IsTaken, IsKeyed, claim_batch-IsTaken, claim_batch-claim_batch, claim_batch_leased,
}
use lakshmana_core.Queue.Route.{IsStale, AreDistinct, route_each, route_all-route_each}
use lakshmana_core.Queue.Seed.{AllSeeded, seed-seed}
use lakshmana_core.Examples.{row, pairs, edge}

-- Two rows at G1.
abbrev pub two_rows : Log QueuedPair
two_rows = ("p1", some (row "p1")) ∷ ("p2", some (row "p2")) ∷ []

-- The row `p1` under the lease of `w1` until 150.
abbrev leased : QueuedPair
leased = leased_row (row "p1") "w1" 150

pub two_rows-IsKeyed : IsKeyed pairs two_rows
two_rows-IsKeyed =
    set-AllDocs pairs (λ k p. p.pair_id ≡ k) (("p2", some (row "p2")) ∷ []) "p1" (row "p1") refl
      (set-AllDocs pairs (λ k p. p.pair_id ≡ k) [] "p2" (row "p2") refl (λ k p e. cc))

-- The two rows after `w1` has leased the first.
abbrev one_leased : Log QueuedPair
one_leased = ("p1", some leased) ∷ two_rows

one_leased-IsKeyed : IsKeyed pairs one_leased
one_leased-IsKeyed =
    set-AllDocs pairs (λ k p. p.pair_id ≡ k) two_rows "p1" leased refl two_rows-IsKeyed

claim_batch-IsTaken_example :
    let (s', batch) = claim_batch pairs "stage3" g1_neutral "w1" 5 100 50 two_rows one_leased in
    (length batch ≤ 5)
    × All
        (λ (p : QueuedPair).
          IsTaken g1_neutral "w1" 100 (100 + 50) (find_in one_leased p.pair_id) p)
        batch
    × All (λ (p : QueuedPair). find_in s' p.pair_id ≡ some p) batch
claim_batch-IsTaken_example =
    claim_batch-IsTaken pairs "stage3" g1_neutral "w1" 5 100 50 two_rows one_leased
      one_leased-IsKeyed

claim_batch-claim_batch_example :
    let (s', batch) = claim_batch pairs "stage3" g1_neutral "w1" 1 100 50 two_rows two_rows in
    let (s'', batch') = claim_batch pairs "stage3" g1_neutral "w2" 5 120 50 two_rows s' in
    All (λ (p : QueuedPair). All (λ (q : QueuedPair). q.pair_id ≢ p.pair_id) batch') batch
claim_batch-claim_batch_example =
    claim_batch-claim_batch pairs "stage3" g1_neutral g1_neutral "w1" "w2" 1 5 100 120 50 two_rows
      two_rows two_rows two_rows-IsKeyed (omega arith)

leased-held :
    (p : QueuedPair) → some leased ≡ some p → (t : ℕ) × (p.lease_expires_at ≡ some t) × (120 < t)
leased-held p e = (150, sym (ap (λ r. r.lease_expires_at) (some-injective leased p e)), omega arith)

all_leased :
    All
      (λ (d : String × QueuedPair). IsHeld pairs g1_neutral 120 (("p1", some leased) ∷ []) d.1)
      (run_query pairs "stage3" (("p1", some (row "p1")) ∷ []))
unfolding run_query
all_leased = (λ p e at. leased-held p e, tt)

claim_batch_leased_example :
    claim_batch pairs "stage3" g1_neutral "w3" 5 120 50
      (("p1", some (row "p1")) ∷ [])
      (("p1", some leased) ∷ [])
    ≡ (("p1", some leased) ∷ [], [])
claim_batch_leased_example =
    claim_batch_leased pairs "stage3" g1_neutral "w3" 5 120 50 (("p1", some (row "p1")) ∷ [])
      (("p1", some leased) ∷ []) all_leased

abbrev onward : Changes
onward = record {
  gate = some g2_corroboration;
  tier = cascade;
  decided_by = none;
  gk_run_request_id = "r1";
  contradiction_flag = some false;
}

abbrev updates : List (QueuedPair × Changes)
updates = (leased, onward) ∷ (leased_row (row "p2") "w1" 150, onward) ∷ []

updates-AreDistinct : AreDistinct updates
updates-AreDistinct = ((refl, tt), (tt, tt))

route_all-route_each_example :
    route_all pairs updates (("p1", some leased) ∷ two_rows)
    ≡ route_each pairs updates (("p1", some leased) ∷ two_rows) 0
route_all-route_each_example =
    route_all-route_each pairs updates (("p1", some leased) ∷ two_rows) updates-AreDistinct

updates-IsStale : All (IsStale pairs two_rows) updates
unfolding still_owned
updates-IsStale = (
  λ r e. subst (λ q. still_owned q leased ≡ false) (some-injective (row "p1") r e) refl,
  (
    λ r e.
        subst (λ q. still_owned q (leased_row (row "p2") "w1" 150) ≡ false)
          (some-injective (row "p2") r e) refl,
    tt,
  ),
)

seed-seed_example :
    let after = (seed pairs "stage3" "intake" (edge "a" "b" ∷ edge "b" "c" ∷ []) two_rows).0 in
    AllSeeded pairs "stage3" after (edge "a" "b" ∷ edge "b" "c" ∷ [])
    × (seed pairs "stage3" "intake" (edge "a" "b" ∷ edge "b" "c" ∷ []) after ≡ (after, 0))
seed-seed_example = seed-seed pairs "stage3" "intake" (edge "a" "b" ∷ edge "b" "c" ∷ []) two_rows
