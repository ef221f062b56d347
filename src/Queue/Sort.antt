-- ===== src/Queue/Sort.antt =====
-- The sort of `claim_batch` of gatekeeper/worker/queue.py keeps what all rows have.
use lakshmana_core.Prelude.{List, [], ◌∷◌, All, Bool-cases, inl, inr}
use lakshmana_core.Queue.{QueuedPair, before, insert_row, sort_rows}

All-insert_row :
    (P : QueuedPair → Type 0) (p : QueuedPair) (qs : List QueuedPair)
    → P p
    → All P qs
    → All P (insert_row p qs)
unfolding insert_row
All-insert_row P p [] h hs = (h, tt)
All-insert_row P p (q ∷ qs) h hs = elim (Bool-cases (before q p)) [
  | inl e ↦ rw e (hs.0, All-insert_row P p qs h hs.1)
  | inr e ↦ rw e (h, hs)
]

pub All-sort_rows :
    (P : QueuedPair → Type 0) (ps : List QueuedPair) → All P ps → All P (sort_rows ps)
unfolding sort_rows
All-sort_rows P [] h = tt
All-sort_rows P (p ∷ ps) h = All-insert_row P p (sort_rows ps) h.0 (All-sort_rows P ps h.1)
