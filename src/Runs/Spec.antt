-- ===== src/Runs/Spec.antt =====
-- What a run document promises, without its layout: a run goes through its gates in order, at most one
-- of them is worked on, and the worker holds it under a lease. The document of gatekeeper/runs/model.py
-- spreads this over four entries.
use lakshmana_core.Prelude.{
  List, [], ◌∷◌, ℕ, ◌+◌, ◌<◌, Bool, true, false, not, String, Option, some, ◌≡◌, ltb, if◌then◌else◌,
}
use lakshmana_core.Enums.{RunState, GateState}
use lakshmana_core.Runs.{Time, GateEntry, is_succeeded, GatekeeperRun}
use lakshmana_core.Runs.Claim.{is_live}
use lakshmana_core.Runs.Settle.{is_superseded}

-- The gate that the run has come to: nobody works on it, a worker holds it until its lease expires, or
-- it has failed.
pub data Phase : Type 0 where
  waiting : Phase
  held : Option String → Option Time → Phase
  broken : Phase

-- How many gates have succeeded, the phase of the next one, and the state of the run.
pub record Progress : Type 0 where
  pub finished : ℕ
  pub phase : Phase
  pub state : RunState

abbrev pub is_claimable : RunState → Bool
is_claimable RunState.succeeded = false
is_claimable RunState.superseded = false
is_claimable _ = true

-- A lease that runs keeps others out.
abbrev pub is_free : Phase → Time → Bool
is_free (held owner (some t)) now = not (ltb now t)
is_free _ now = true

-- What happens to a run, with who does it and when: a worker starts the next gate with a lease of some
-- length, advances past it, breaks it off or extends its lease; the sweeper releases a gate or gives it up;
-- the run fails, is finished or replaced.
pub data Event : Type 0 where
  started : String → Time → Time → Event
  advanced broken_off : String → Event
  extended : String → Time → Time → Event
  released given_up : Time → Event
  failed finished replaced : Event

-- The transitions of the abstract run.
pub data Move (a b : Progress) : Event → Type 0 where
  start :
      (owner : String) (now lease : Time)
      → is_claimable a.state ≡ true
      → is_free a.phase now ≡ true
      → a.finished < 4
      → b ≡ record a { phase = held (some owner) (some (now + lease)); state = RunState.running }
      → Move a b (started owner now lease)
  advance :
      (owner : String) (expires : Option Time)
      → is_superseded a.state ≡ false
      → a.phase ≡ held (some owner) expires
      → b ≡ record a { finished = a.finished + 1; phase = waiting }
      → Move a b (advanced owner)
  break_off :
      (owner : String) (expires : Option Time)
      → is_superseded a.state ≡ false
      → a.phase ≡ held (some owner) expires
      → b ≡ record a { phase = broken; state = RunState.failed }
      → Move a b (broken_off owner)
  extend :
      (owner : String) (expires : Option Time) (now lease : Time)
      → is_live a.state ≡ true
      → a.phase ≡ held (some owner) expires
      → b ≡ record a { phase = held (some owner) (some (now + lease)) }
      → Move a b (extended owner now lease)
  release :
      (owner : Option String) (expires : Option Time) (now : Time)
      → is_live a.state ≡ true
      → a.phase ≡ held owner expires
      → is_free a.phase now ≡ true
      → b ≡ record a { phase = waiting }
      → Move a b (released now)
  give_up :
      (owner : Option String) (expires : Option Time) (now : Time)
      → is_live a.state ≡ true
      → a.phase ≡ held owner expires
      → is_free a.phase now ≡ true
      → b ≡ record a { phase = broken; state = RunState.failed }
      → Move a b (given_up now)
  fail : is_live a.state ≡ true → b ≡ record a { state = RunState.failed } → Move a b failed
  finish :
      is_live a.state ≡ true
      → a.finished ≡ 4
      → b ≡ record a { state = RunState.succeeded }
      → Move a b Event.finished
  replace :
      is_live a.state ≡ true → b ≡ record a { state = RunState.superseded } → Move a b replaced

-- One transition for each event of a list, the last event first.
pub data Moves (a : Progress) : List Event → Progress → Type 0 where
  rest : Moves a [] a
  onward :
      {es : List Event} {mid b : Progress} (e : Event)
      → Moves a es mid
      → Move mid b e
      → Moves a (e ∷ es) b

abbrev pub phase_of : GateEntry → Phase
phase_of e = elim e.state [
  | GateState.running ↦ held e.lease_owner e.lease_expires_at
  | GateState.failed ↦ broken
  | _ ↦ waiting
]

-- The progress that a document records.
abbrev pub progress : GatekeeperRun → Progress
progress run =
    if not (is_succeeded run.gates.g1.state)
    then record { finished = 0; phase = phase_of run.gates.g1; state = run.state }
    else if not (is_succeeded run.gates.g2.state)
    then record { finished = 1; phase = phase_of run.gates.g2; state = run.state }
    else if not (is_succeeded run.gates.g3.state)
    then record { finished = 2; phase = phase_of run.gates.g3; state = run.state }
    else if not (is_succeeded run.gates.g4.state)
    then record { finished = 3; phase = phase_of run.gates.g4; state = run.state }
    else record { finished = 4; phase = waiting; state = run.state }
