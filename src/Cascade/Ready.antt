-- ===== src/Cascade/Ready.antt =====
-- Where a row stands before each gate of the cascade, and after the last one.
use mathlib.Core.Path.{subst}
use lakshmana_core.Prelude.{ℕ, ◌<◌, ◌≤◌, true, Option, none, some, ◌≡◌, ◌≢◌, refl, arith}
use lakshmana_core.Enums.{
  Gate, g1_neutral, g2_corroboration, g3_contradiction, g4_escalation, gate_order,
}
use lakshmana_core.Enums.Order.{index}
use lakshmana_core.Queue.{QueuedPair}
use lakshmana_core.Routing.Placement.{IsPlaced, IsOnward, IsPlaced-gone}
use lakshmana_core.Finalize.Tallies.{IsSettled}
use lakshmana_core.Loop.Steps.{IsPast}
use lakshmana_core.Cascade.{Execution}

-- An execution with room for a pair, whose lease guard renews each time.
abbrev pub IsSteady : Execution → Type 0
IsSteady x = (0 < x.batch_size) × ((i : ℕ) → x.renewed i ≡ true)

-- Where a row stands before each gate, and after the last one.
abbrev pub IsReady : QueuedPair → Type 0
IsReady p = IsPlaced p × (p.lease_expires_at ≡ none)

abbrev pub PastG1 : QueuedPair → Type 0
PastG1 p = IsReady p × (p.gate ≢ some g1_neutral)

abbrev pub PastG2 : QueuedPair → Type 0
PastG2 p = PastG1 p × (p.gate ≢ some g2_corroboration)

abbrev pub PastG3 : QueuedPair → Type 0
PastG3 p = PastG2 p × (p.gate ≢ some g3_contradiction)

abbrev pub PastG4 : QueuedPair → Type 0
PastG4 p = PastG3 p × (p.gate ≢ some g4_escalation)

none_left :
    (o : Option Gate)
    → o ≢ some g1_neutral
    → o ≢ some g2_corroboration
    → o ≢ some g3_contradiction
    → o ≢ some g4_escalation
    → o ≡ none
none_left none a b c d = refl
none_left (some g1_neutral) a b c d = absurd (a refl)
none_left (some g2_corroboration) a b c d = absurd (b refl)
none_left (some g3_contradiction) a b c d = absurd (c refl)
none_left (some g4_escalation) a b c d = absurd (d refl)

pub PastG4-gone : (p : QueuedPair) → PastG4 p → p.gate ≡ none
PastG4-gone p ((((ready, n1), n2), n3), n4) = none_left p.gate n1 n2 n3 n4

pub PastG4-IsSettled : (p : QueuedPair) → PastG4 p → IsSettled p
PastG4-IsSettled p h = (IsPlaced-gone p h.0.0.0.0.0).0 (PastG4-gone p h)

-- A row past a gate is not at an earlier one.
IsPast-ne :
    (g h : Gate) (p : QueuedPair)
    → IsPast g p
    → index gate_order h ≤ index gate_order g
    → p.gate ≢ some h
IsPast-ne g h p past le at =
    let lt : index gate_order g < index gate_order h = subst (IsOnward g) at past.1 in
    omega (arith, lt, le)

pub keeps_g2 : (p : QueuedPair) → IsPast g2_corroboration p → PastG1 p
keeps_g2 p h = ((h.0, h.2), IsPast-ne g2_corroboration g1_neutral p h (omega arith))

pub keeps_g3 : (p : QueuedPair) → IsPast g3_contradiction p → PastG2 p
keeps_g3 p h = (
  ((h.0, h.2), IsPast-ne g3_contradiction g1_neutral p h (omega arith)),
  IsPast-ne g3_contradiction g2_corroboration p h (omega arith),
)

pub keeps_g4 : (p : QueuedPair) → IsPast g4_escalation p → PastG3 p
keeps_g4 p h = (
  (
    ((h.0, h.2), IsPast-ne g4_escalation g1_neutral p h (omega arith)),
    IsPast-ne g4_escalation g2_corroboration p h (omega arith),
  ),
  IsPast-ne g4_escalation g3_contradiction p h (omega arith),
)
