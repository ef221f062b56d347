-- ===== src/Runs/Lease.antt =====
-- One worker per gate: what a claim keeps other callers from doing while its lease runs.
use lakshmana_core.Prelude.{
  ℕ, ◌+◌, ◌<◌, String, eq_iff, eq_refl, Option, none, some, ◌≡◌, ◌≢◌, refl, arith,
}
use lakshmana_core.Enums.{Gate, g1_neutral}
use lakshmana_core.Runs.{Time, Counters, GatekeeperRun, GatekeeperRunRequest}
use lakshmana_core.Runs.Claim.{reject_claim, claim_updates, gate_leased}
use lakshmana_core.Runs.Settle.{Ending, SweepOutcome, settle, renew, rescue}

claimed_again :
    (run : GatekeeperRun) (first second : GatekeeperRunRequest) (g : Gate) (owner : String)
    (now later lease server : Time)
    → first.gate_id ≡ g
    → second.gate_id ≡ g
    → reject_claim run first now ≡ none
    → later < now + lease
    → reject_claim (claim_updates run g owner now lease server) second later ≡ some gate_leased
unfolding reject_claim claim_updates
claimed_again run first second g1_neutral owner now later lease server p q h l = ground arith
claimed_again run first second _ owner now later lease server p q h l = ground arith

-- After a successful claim, every further message for the same gate, FULL or FROM_GATE, is rejected
-- as leased until the lease has run out.
pub claim-claim :
    (run : GatekeeperRun) (first second : GatekeeperRunRequest) (owner : String)
    (now later lease server : Time)
    → reject_claim run first now ≡ none
    → second.gate_id ≡ first.gate_id
    → later < now + lease
    → reject_claim (claim_updates run first.gate_id owner now lease server) second later
      ≡ some gate_leased
claim-claim run first second owner now later lease server h q l =
    claimed_again run first second first.gate_id owner now later lease server refl q h l

rescue_claimed :
    (run : GatekeeperRun) (g : Gate) (owner : String) (max_sweeps : ℕ)
    (now later lease server server' : Time)
    → later < now + lease
    → rescue (claim_updates run g owner now lease server) g max_sweeps later server' ≡ none
unfolding rescue claim_updates
rescue_claimed run g1_neutral owner max_sweeps now later lease server server' l = ground arith
rescue_claimed run _ owner max_sweeps now later lease server server' l = ground arith

-- The lease holder, and nobody else, settles and renews the gate that it claimed, at any time before
-- another transaction; the sweeper leaves the gate alone while the lease runs.
pub claim-holder :
    (run : GatekeeperRun) (g : Gate) (owner other : String) (ending : Ending)
    (counters : Option Counters) (max_sweeps : ℕ) (now later lease server server' : Time)
    → other ≢ owner
    → let claimed = claim_updates run g owner now lease server in
      (settle claimed g owner ending counters later server' ≢ none)
      × (renew claimed g owner later lease server' ≢ none)
      × (settle claimed g other ending counters later server' ≡ none)
      × (renew claimed g other later lease server' ≡ none)
      × (later < now + lease → rescue claimed g max_sweeps later server' ≡ none)
unfolding claim_updates settle renew
claim-holder run g owner other ending counters max_sweeps now later lease server server' d = (
  ground (arith, eq_refl owner),
  ground (arith, eq_refl owner),
  ground (arith, eq_iff owner other),
  ground (arith, eq_iff owner other),
  rescue_claimed run g owner max_sweeps now later lease server server',
)

-- A worker whose gate was rescued, or failed by an exhausted sweep, has lost it: whatever owner it
-- presents, it can neither settle nor renew the gate before a new claim.
pub rescue-settle :
    (run : GatekeeperRun) (g : Gate) (owner : String) (ending : Ending) (counters : Option Counters)
    (max_sweeps : ℕ) (now later lease server server' : Time) (outcome : SweepOutcome)
    {run' : GatekeeperRun}
    → rescue run g max_sweeps now server ≡ some (outcome, run')
    → (settle run' g owner ending counters later server' ≡ none)
      × (renew run' g owner later lease server' ≡ none)
unfolding rescue settle renew
rescue-settle run g owner ending counters max_sweeps now later lease server server' outcome h =
    ground arith
