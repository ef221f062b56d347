-- ===== src/Runs/Refine.antt =====
-- The transactions on a run document implement the abstract run.
use lakshmana_core.Prelude.{
  List, [], ◌∷◌, Option-cases, inl, inr, str_eq, eq_iff, ap, ◌∙◌, ℕ, true, String, Option, none,
  some, ◌≡◌, refl, arith,
}
use lakshmana_core.Enums.{Gate, g1_neutral, ErrorCode}
use lakshmana_core.Runs.{
  GateEntry, Time, Counters, RunTotals, GatekeeperRun, GatekeeperRunRequest, gate,
}
use lakshmana_core.Runs.Claim.{reject_claim, claim_updates}
use lakshmana_core.Runs.Settle.{
  owned_by, stuck, Ending, committed, gate_failed, SweepOutcome, settle, renew, rescue, fail_run,
  finalize_run,
}
use lakshmana_core.Runs.Step.{Step, Reach, here, next}
use lakshmana_core.Runs.Invariant.{IsConsistent, Reach-IsConsistent}
use lakshmana_core.Runs.Spec.{
  Event, started, advanced, broken_off, extended, released, given_up, failed, replaced, Move, Moves,
  progress,
}

abbrev ended : Ending → String → Event
ended committed owner = advanced owner
ended (gate_failed code detail) owner = broken_off owner

abbrev swept : SweepOutcome → Time → Event
swept stuck now = given_up now
swept _ now = released now

-- What a transaction is to the abstract run: with the owner, the time and the lease of its call.
abbrev pub event : {run run' : GatekeeperRun} → Step run run' → Event
event (Step.claim request owner now lease server h) = started owner now lease
event (Step.end_gate g owner ending counters now server h) = ended ending owner
event (Step.heartbeat g owner now lease server h) = extended owner now lease
event (Step.sweep g max_sweeps now server outcome h) = swept outcome now
event (Step.fail code detail now server h) = failed
event (Step.finalize totals server h) = Event.finished
event (Step.supersede by server h) = replaced

abbrev pub events : {run run' : GatekeeperRun} → Reach run run' → List Event
events here = []
events (next r st) = event st ∷ events r

claim-Move :
    (run : GatekeeperRun) (request : GatekeeperRunRequest) (g : Gate) (owner : String)
    (now lease server : Time)
    → request.gate_id ≡ g
    → reject_claim run request now ≡ none
    → IsConsistent run
    → Move
        (progress run)
        (progress (claim_updates run g owner now lease server))
        (started owner now lease)
unfolding reject_claim claim_updates
claim-Move run request g1_neutral owner now lease server p h c =
    Move.start owner now lease (ground arith) (ground arith) (ground arith) (ground arith)
claim-Move run request _ owner now lease server p h c =
    Move.start owner now lease (ground arith) (ground arith) (ground arith) (ground arith)

owned_by_lem :
    (e : GateEntry) (owner : String) → owned_by e owner ≡ true → e.lease_owner ≡ some owner
owned_by_lem e owner h = elim (Option-cases e.lease_owner) [
  | inl f ↦ absurd (ground (arith, f, h))
  | inr (o, f) ↦ let h' : str_eq o owner ≡ true = rw f at h in f ∙ ap some ((eq_iff o owner).0 h')
]

settle-owned :
    (run : GatekeeperRun) (g : Gate) (owner : String) (ending : Ending) (counters : Option Counters)
    (now server : Time) {run' : GatekeeperRun}
    → settle run g owner ending counters now server ≡ some run'
    → (gate run g).lease_owner ≡ some owner
unfolding settle
settle-owned run g owner ending counters now server h =
    owned_by_lem (gate run g) owner (ground arith)

renew-owned :
    (run : GatekeeperRun) (g : Gate) (owner : String) (now lease server : Time)
    {run' : GatekeeperRun}
    → renew run g owner now lease server ≡ some run'
    → (gate run g).lease_owner ≡ some owner
unfolding renew
renew-owned run g owner now lease server h = owned_by_lem (gate run g) owner (ground arith)

settle-Move :
    (run : GatekeeperRun) (g : Gate) (owner : String) (ending : Ending) (counters : Option Counters)
    (now server : Time) {run' : GatekeeperRun}
    → settle run g owner ending counters now server ≡ some run'
    → (gate run g).lease_owner ≡ some owner
    → IsConsistent run
    → Move (progress run) (progress run') (ended ending owner)
unfolding settle
settle-Move run g1_neutral owner committed counters now server h o c =
    Move.advance owner (gate run g1_neutral).lease_expires_at (ground arith) (ground arith)
      (ground arith)
settle-Move run g1_neutral owner (gate_failed code detail) counters now server h o c =
    Move.break_off owner (gate run g1_neutral).lease_expires_at (ground arith) (ground arith)
      (ground arith)
settle-Move run g owner committed counters now server h o c =
    Move.advance owner (gate run g).lease_expires_at (ground arith) (ground arith) (ground arith)
settle-Move run g owner (gate_failed code detail) counters now server h o c =
    Move.break_off owner (gate run g).lease_expires_at (ground arith) (ground arith) (ground arith)

renew-Move :
    (run : GatekeeperRun) (g : Gate) (owner : String) (now lease server : Time)
    {run' : GatekeeperRun}
    → renew run g owner now lease server ≡ some run'
    → (gate run g).lease_owner ≡ some owner
    → IsConsistent run
    → Move (progress run) (progress run') (extended owner now lease)
unfolding renew
renew-Move run g1_neutral owner now lease server h o c =
    Move.extend owner (gate run g1_neutral).lease_expires_at now lease (ground arith) (ground arith)
      (ground arith)
renew-Move run g owner now lease server h o c =
    Move.extend owner (gate run g).lease_expires_at now lease (ground arith) (ground arith)
      (ground arith)

rescue-Move :
    (run : GatekeeperRun) (g : Gate) (max_sweeps : ℕ) (now server : Time) (outcome : SweepOutcome)
    {run' : GatekeeperRun}
    → rescue run g max_sweeps now server ≡ some (outcome, run')
    → IsConsistent run
    → Move (progress run) (progress run') (swept outcome now)
unfolding rescue
rescue-Move run g1_neutral max_sweeps now server stuck h c =
    Move.give_up (gate run g1_neutral).lease_owner (gate run g1_neutral).lease_expires_at now
      (ground arith) (ground arith) (ground arith) (ground arith)
rescue-Move run g1_neutral max_sweeps now server _ h c =
    Move.release (gate run g1_neutral).lease_owner (gate run g1_neutral).lease_expires_at now
      (ground arith) (ground arith) (ground arith) (ground arith)
rescue-Move run g max_sweeps now server stuck h c =
    Move.give_up (gate run g).lease_owner (gate run g).lease_expires_at now (ground arith)
      (ground arith) (ground arith) (ground arith)
rescue-Move run g max_sweeps now server _ h c =
    Move.release (gate run g).lease_owner (gate run g).lease_expires_at now (ground arith)
      (ground arith) (ground arith) (ground arith)

fail_run-Move :
    (run : GatekeeperRun) (code : ErrorCode) (detail : String) (now server : Time)
    {run' : GatekeeperRun}
    → fail_run run code detail now server ≡ some run'
    → Move (progress run) (progress run') failed
unfolding fail_run
fail_run-Move run code detail now server h = Move.fail (ground arith) (ground arith)

finalize_run-Move :
    (run : GatekeeperRun) (totals : RunTotals) (server : Time) {run' : GatekeeperRun}
    → finalize_run run totals server ≡ some run'
    → IsConsistent run
    → Move (progress run) (progress run') Event.finished
unfolding finalize_run
finalize_run-Move run totals server h c = Move.finish (ground arith) (ground arith) (ground arith)

-- Every transaction of the store on a consistent run document is a transition of the abstract run: a
-- claim starts the next gate of a run that is neither succeeded nor superseded, and only where no
-- lease runs; only the lease's owner advances, breaks off or extends; only an expired lease is released or given up; and
-- a run finishes only behind its last gate.
pub Step-Move :
    {run run' : GatekeeperRun} (st : Step run run')
    → IsConsistent run
    → Move (progress run) (progress run') (event st)
Step-Move {run} (Step.claim request owner now lease server h) c =
    claim-Move run request request.gate_id owner now lease server refl h c
Step-Move {run} (Step.end_gate g owner ending counters now server h) c =
    settle-Move run g owner ending counters now server h
      (settle-owned run g owner ending counters now server h) c
Step-Move {run} (Step.heartbeat g owner now lease server h) c =
    renew-Move run g owner now lease server h (renew-owned run g owner now lease server h) c
Step-Move {run} (Step.sweep g max_sweeps now server outcome h) c =
    rescue-Move run g max_sweeps now server outcome h c
Step-Move {run} (Step.fail code detail now server h) c = fail_run-Move run code detail now server h
Step-Move {run} (Step.finalize totals server h) c = finalize_run-Move run totals server h c
Step-Move {run} (Step.supersede by server h) c = Move.replace (ground arith) (ground arith)

-- The document implements the abstract run: whatever transactions have led from one consistent document
-- to another, the progress that the first records leads to that of the second by one transition for each
-- of them, in their order, with the owner, the time and the lease that the transaction was called with. So
-- a gate is started only where no lease runs at the time of the claim, and next in the order; only the
-- caller who holds a gate advances it, breaks it off or extends it; only a lease that has expired by the
-- sweeper's time is released or given up; and a run is finished only behind its last gate.
pub Reach-Moves :
    {run run' : GatekeeperRun} (r : Reach run run')
    → IsConsistent run
    → Moves (progress run) (events r) (progress run')
Reach-Moves here c = Moves.rest
Reach-Moves (next r st) c =
    Moves.onward (event st) (Reach-Moves r c) (Step-Move st (Reach-IsConsistent r c))
