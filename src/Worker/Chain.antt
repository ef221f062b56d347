-- ===== src/Worker/Chain.antt =====
-- The chain of messages: commit first, publish second.
use lakshmana_core.Prelude.{
  ℕ, Bool, true, false, String, none, some, [], ◌∷◌, ◌≡◌, refl, ◌∙◌, ap, arith,
}
use lakshmana_core.Enums.{Gate, system}
use lakshmana_core.Enums.Order.{next_gate}
use lakshmana_core.Firestore.{Collection}
use lakshmana_core.Firestore.Laws.{find-set_self}
use lakshmana_core.Firestore.Txn.{commit_first, returned}
use lakshmana_core.Runs.{Time, Counters, GatekeeperRun, gate, to_request}
use lakshmana_core.Runs.Claim.{reject_claim, is_live}
use lakshmana_core.Runs.Settle.{owned_by, committed, settle}
use lakshmana_core.Runs.Invariant.{IsConsistent}
use lakshmana_core.Runs.Liveness.{commit-claim}
use lakshmana_core.Store.{commit_gate, settle_txn, update_doc}
use lakshmana_core.Queue.{QueuedPair}
use lakshmana_core.Finalize.{Tally, exits, exit_ok}
use lakshmana_core.Worker.{GateResult, counted, Worked, follow, run_gate}

module _ (runs : Collection GatekeeperRun) (pairs : Collection QueuedPair)
    (aborted finalize_aborted : ℕ → Bool) (others finalize_others : ℕ → runs.State → runs.State)
    (detail : Tally → String)
    (runner : GatekeeperRun
      → Gate
      → pairs.State
      → runs.State
      → pairs.State × runs.State × GateResult)
    (now server : Time) where
  settle_txn-stored :
      (k : String) (g : Gate) (owner : String) (c : Counters) (stored after : GatekeeperRun)
      (s : runs.State)
      → runs.find s k ≡ some stored
      → settle stored g owner committed (some c) now server ≡ some after
      → settle_txn runs k g owner committed (some c) now server s ≡ (runs.set s k after, true)
  unfolding settle_txn update_doc
  settle_txn-stored k g owner c stored after s f e = rw (settle_txn, update_doc, f, e) refl

  commit_gate-stored :
      (k : String) (g : Gate) (owner : String) (c : Counters) (stored after : GatekeeperRun)
      (s : runs.State)
      → aborted 0 ≡ false
      → runs.find (others 0 s) k ≡ some stored
      → settle stored g owner committed (some c) now server ≡ some after
      → commit_gate runs aborted others k g owner (some c) now server s
        ≡ (runs.set (others 0 s) k after, returned true)
  unfolding commit_gate
  commit_gate-stored k g owner c stored after s go f e =
      commit_first aborted others (settle_txn runs k g owner committed (some c) now server) s go
      ∙ ap (λ (r : runs.State × Bool). (r.0, returned r.1))
          (settle_txn-stored k g owner c stored after (others 0 s) f e)

  -- A worker that holds the lease, whose gate's work ends with counters, and whose commit settles a
  -- consistent live run in its first round, leaves the gate committed in the store, publishes exactly
  -- one message, the next gate's, and that message is accepted by the claim at any later time.
  pub run_gate-publishes :
      (k : String) (g h : Gate) (owner : String) (queue queue' : pairs.State) (s s' : runs.State)
      (run stored after : GatekeeperRun) (c : Counters) (later : Time)
      → runs.find s k ≡ some run
      → owned_by (gate run g) owner ≡ true
      → runner run g queue s ≡ (queue', s', counted c)
      → aborted 0 ≡ false
      → runs.find (others 0 s') k ≡ some stored
      → IsConsistent stored
      → is_live stored.state ≡ true
      → settle stored g owner committed (some c) now server ≡ some after
      → next_gate g ≡ some h
      → let w =
          run_gate runs pairs aborted finalize_aborted others finalize_others detail runner true now
            server k g owner queue s in
        (runs.find w.runs_state k ≡ some after)
        × (w.published ≡ to_request run h system ∷ [])
        × (w.ending ≡ exits exit_ok)
        × (reject_claim after (to_request run h system) later ≡ none)
  unfolding run_gate follow reject_claim to_request
  run_gate-publishes k g h owner queue queue' s s' run stored after c later f own did go f' ok live
        e next =
      let done = commit_gate-stored k g owner c stored after s' go f' e in
      let all = commit-claim stored g h owner (some c) now later server system ok live e next in
      let w : Worked runs.State pairs.State = record {
        runs_state = runs.set (others 0 s') k after;
        queue_state = queue';
        published = to_request run h system ∷ [];
        ending = exits exit_ok;
      } in
      let worked : run_gate runs pairs aborted finalize_aborted others finalize_others detail runner
            true now server k g owner queue s
          ≡ w =
        ground (arith, f, own, did, done, next) in
      (
        ap (λ (x : Worked runs.State pairs.State). runs.find x.runs_state k) worked
            ∙ find-set_self runs (others 0 s') k after,
        ap (λ (x : Worked runs.State pairs.State). x.published) worked,
        ap (λ (x : Worked runs.State pairs.State). x.ending) worked,
        all,
      )
