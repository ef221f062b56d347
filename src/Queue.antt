-- ===== src/Queue.antt =====
-- `PairQueue` of gatekeeper/worker/queue.py: the rows of one collection, a row for each pair. A row's
-- `createdAt` and `updatedAt`, which no code reads back, are left out.
pub mod Seed
pub mod Sort
pub mod Lease
pub mod Route
use lakshmana_core.Prelude.{
  ℕ, zero, suc, ◌+◌, ◌*◌, Bool, true, false, not, ◌&&◌, ◌||◌, String, str_eq, Option, none, some,
  List, [], ◌∷◌, ◌++◌, ltb, ◌==◌, if◌then◌else◌, format, select, any, map, length, take, drop,
}
use lakshmana_core.Prelude.Order.{str_lt, str_min, str_max, sorted_pair}
use lakshmana_core.Enums.{
  Gate, g1_neutral, is_gate, Method, QueueTier, cascade, ensemble, rule, embedding, gk_g1_nli,
  gk_g2_grounding, gk_g3_xcheck, gk_g4_llm,
}
use lakshmana_core.Firestore.{Collection}
use lakshmana_core.Runs.{Time}

unfoldable pub pair_key : String → String → String → String
pair_key stage3_run_id claim_a_id claim_b_id =
    let (low, high) = sorted_pair claim_a_id claim_b_id in
    format (stage3_run_id ∷ "|" ∷ low ∷ "|" ∷ high ∷ [])

-- `GraphPair` of gatekeeper/worker/hydrate.py.
pub record GraphPair : Type 0 where
  pub claim_a_id : String
  pub claim_b_id : String
  pub rank : ℕ
  pub with_context : Bool
  pub human_asserted : Bool

pub record QueuedPair : Type 0 where
  pub pair_id : String
  pub stage3_run_id : String
  pub intake_id : String
  pub claim_a_id : String
  pub claim_b_id : String
  pub rank : ℕ
  pub with_context : Bool
  pub human_asserted : Bool
  pub tier : QueueTier
  pub gate : Option Gate
  pub contradiction_flag : Bool
  pub decided_by : Option Method
  pub gk_run_request_id : Option String
  pub lease_owner : Option String
  pub lease_expires_at : Option Time

unfoldable pub lease_held_at : QueuedPair → Time → Bool
lease_held_at p now = elim p.lease_expires_at [ none ↦ false | some t ↦ ltb now t ]

-- `a is b` and `a == b` on optional gates and optional strings.
abbrev pub same_gate : Option Gate → Option Gate → Bool
same_gate none none = true
same_gate (some g) (some h) = is_gate g h
same_gate _ _ = false

abbrev pub same_string : Option String → Option String → Bool
same_string none none = true
same_string (some s) (some t) = str_eq s t
same_string _ _ = false

-- `a == b` on methods.
abbrev pub same_method : Method → Method → Bool
same_method ensemble ensemble = true
same_method rule rule = true
same_method embedding embedding = true
same_method gk_g1_nli gk_g1_nli = true
same_method gk_g2_grounding gk_g2_grounding = true
same_method gk_g3_xcheck gk_g3_xcheck = true
same_method gk_g4_llm gk_g4_llm = true
same_method _ _ = false

-- The row that `seed` creates.
abbrev pub new_row : String → String → GraphPair → QueuedPair
new_row stage3_run_id intake_id pair = record {
  pair_id = pair_key stage3_run_id pair.claim_a_id pair.claim_b_id;
  stage3_run_id = stage3_run_id;
  intake_id = intake_id;
  claim_a_id = pair.claim_a_id;
  claim_b_id = pair.claim_b_id;
  rank = pair.rank;
  with_context = pair.with_context;
  human_asserted = pair.human_asserted;
  tier = cascade;
  gate = some g1_neutral;
  contradiction_flag = false;
  decided_by = none;
  gk_run_request_id = none;
  lease_owner = none;
  lease_expires_at = none;
}

-- The update of `reset`.
abbrev pub reset_row : QueuedPair → QueuedPair
reset_row p = record p {
  tier = cascade;
  gate = some g1_neutral;
  contradiction_flag = false;
  decided_by = none;
  gk_run_request_id = none;
  lease_owner = none;
  lease_expires_at = none;
}

-- A routing decision; only G1 and the human route of G3 write the contradiction flag.
pub record Changes : Type 0 where
  pub gate : Option Gate
  pub tier : QueueTier
  pub decided_by : Option Method
  pub gk_run_request_id : String
  pub contradiction_flag : Option Bool

abbrev pub written_flag : Option Bool → Bool → Bool
written_flag none old = old
written_flag (some new) old = new

abbrev pub routed_row : QueuedPair → Changes → QueuedPair
routed_row p c = record p {
  gate = c.gate;
  tier = c.tier;
  decided_by = c.decided_by;
  gk_run_request_id = some c.gk_run_request_id;
  contradiction_flag = written_flag c.contradiction_flag p.contradiction_flag;
  lease_owner = none;
  lease_expires_at = none;
}

-- The sort key `(rank, pair_id)`.
abbrev pub before : QueuedPair → QueuedPair → Bool
before p q = ltb p.rank q.rank || p.rank == q.rank && str_lt p.pair_id q.pair_id

-- `sorted(rows, key=…)`, which is stable.
unfoldable pub insert_row : QueuedPair → List QueuedPair → List QueuedPair
insert_row p [] = p ∷ []
insert_row p (q ∷ rest) =
    let later = insert_row p rest in if before q p then q ∷ later else p ∷ q ∷ rest

unfoldable pub sort_rows : List QueuedPair → List QueuedPair
sort_rows [] = []
sort_rows (p ∷ rest) = insert_row p (sort_rows rest)

abbrev pub route_txn_limit : ℕ
route_txn_limit = 200

-- The row that `_lease_all` writes.
abbrev pub leased_row : QueuedPair → String → Time → QueuedPair
leased_row p owner expires = record p { lease_owner = some owner; lease_expires_at = some expires }

-- Whether the stored row is still where the worker claimed it, under the worker's lease.
unfoldable pub still_owned : QueuedPair → QueuedPair → Bool
still_owned current p =
    same_gate current.gate p.gate && same_string current.lease_owner p.lease_owner

module _ (col : Collection QueuedPair) where
  open col use {State, find, set, docs}

  unfoldable pub run_query : String → State → List (String × QueuedPair)
  run_query stage3_run_id s = select (λ d. str_eq d.1.stage3_run_id stage3_run_id) (docs s)

  unfoldable pub pair_ids : String → State → List String
  unfolding run_query
  pair_ids stage3_run_id s = map (λ d. d.0) (run_query stage3_run_id s)

  unfoldable pub all_pairs : String → State → List QueuedPair
  all_pairs stage3_run_id s = map (λ d. d.1) (run_query stage3_run_id s)

  -- The loop of `seed`, with the ids that existed before it.
  unfoldable pub seed_loop : List String → String → String → List GraphPair → State → ℕ → State × ℕ
  seed_loop existing stage3_run_id intake_id [] s created = (s, created)
  seed_loop existing stage3_run_id intake_id (pair ∷ rest) s created =
      let key = pair_key stage3_run_id pair.claim_a_id pair.claim_b_id in
      elim (any (λ k. str_eq k key) existing) [
        | true ↦ seed_loop existing stage3_run_id intake_id rest s created
        | false ↦
            seed_loop existing stage3_run_id intake_id rest
              (set s key (new_row stage3_run_id intake_id pair)) (created + 1)
      ]

  unfoldable pub seed : String → String → List GraphPair → State → State × ℕ
  seed stage3_run_id intake_id pairs s =
      seed_loop (pair_ids stage3_run_id s) stage3_run_id intake_id pairs s 0

  unfoldable pub reset_loop : List (String × QueuedPair) → State → ℕ → State × ℕ
  reset_loop [] s count = (s, count)
  reset_loop ((k, p) ∷ rest) s count = reset_loop rest (set s k (reset_row p)) (count + 1)

  unfoldable pub reset : String → State → State × ℕ
  reset stage3_run_id s = reset_loop (run_query stage3_run_id s) s 0

  unfoldable pub count_decided_by : String → Method → State → ℕ
  count_decided_by stage3_run_id method s = length (
      select (λ p. elim p.decided_by [ none ↦ false | some m ↦ same_method m method ])
        (all_pairs stage3_run_id s))

  -- The rows that `claim_batch` tries to lease.
  unfoldable pub free_rows : String → Gate → ℕ → Time → State → List QueuedPair
  free_rows stage3_run_id g limit now s =
      let candidates =
        take (limit * 4) (select (λ d. same_gate d.1.gate (some g)) (run_query stage3_run_id s)) in
      take limit (sort_rows (select (λ p. not (lease_held_at p now)) (map (λ d. d.1) candidates)))

  -- The transaction of `_lease_all`: the rows are read from `read`, and written to `s`.
  unfoldable pub lease_loop :
      State → List QueuedPair → Gate → String → Time → Time → State → State × List QueuedPair
  lease_loop read [] g owner now expires s = (s, [])
  lease_loop read (p ∷ rest) g owner now expires s = elim (find read p.pair_id) [
    | none ↦ lease_loop read rest g owner now expires s
    | some current ↦ elim (not (same_gate current.gate (some g)) || lease_held_at current now) [
      | true ↦ lease_loop read rest g owner now expires s
      | false ↦
          let row = leased_row current owner expires in
          let (s', taken) = lease_loop read rest g owner now expires (set s p.pair_id row) in
          (s', row ∷ taken)
    ]
  ]

  -- The candidates are queried outside of the transaction, so the query may have seen another state,
  -- `seen`, than the transaction reads.
  unfoldable pub claim_batch :
      String → Gate → String → ℕ → Time → Time → State → State → State × List QueuedPair
  claim_batch stage3_run_id g owner limit now lease seen s =
      lease_loop s (free_rows stage3_run_id g limit now seen) g owner now (now + lease) s

  -- The transaction of `_route_chunk`.
  unfoldable pub route_loop : State → List (QueuedPair × Changes) → State → ℕ → State × ℕ
  route_loop read [] s applied = (s, applied)
  route_loop read ((p, c) ∷ rest) s applied = elim (find read p.pair_id) [
    | none ↦ route_loop read rest s applied
    | some current ↦ elim (still_owned current p) [
      | false ↦ route_loop read rest s applied
      | true ↦ route_loop read rest (set s p.pair_id (routed_row current c)) (applied + 1)
    ]
  ]

  -- The loop of `route_all` over the chunks; one round of fuel for each update is enough, as a chunk
  -- takes at least one.
  unfoldable pub route_chunks : ℕ → List (QueuedPair × Changes) → State → ℕ → State × ℕ
  route_chunks zero updates s written = (s, written)
  route_chunks (suc fuel) [] s written = (s, written)
  route_chunks (suc fuel) (u ∷ updates) s written =
      let (s', applied) = route_loop s (take route_txn_limit (u ∷ updates)) s 0 in
      route_chunks fuel (drop route_txn_limit (u ∷ updates)) s' (written + applied)

  unfoldable pub route_all : List (QueuedPair × Changes) → State → State × ℕ
  route_all updates s = route_chunks (length updates) updates s 0
