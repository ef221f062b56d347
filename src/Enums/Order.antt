-- ===== src/Enums/Order.antt =====
-- The order of the gates (`prior_gate` and `next_gate` of gatekeeper/enums.py), and the rank that
-- the proofs about the cascade's progress use.
use lakshmana_core.Prelude.{
  ℕ, zero, suc, ◌+◌, ◌-◌, Option, none, some, List, [], ◌∷◌, ◌≡◌, refl, length, ltb, ◌==◌,
  if◌then◌else◌, ◌↔◌, arith, true,
}
use lakshmana_core.Enums.{
  Gate, g1_neutral, g2_corroboration, g3_contradiction, g4_escalation, gate_order, is_gate,
}

-- `GATE_ORDER.index(gate)`; every gate stands in the tuple, so the `ValueError` cannot be raised.
abbrev pub index : List Gate → Gate → ℕ
index [] g = 0
index (h ∷ rest) g = if is_gate h g then 0 else suc (index rest g)

abbrev pub get_elem? : List Gate → ℕ → Option Gate
get_elem? [] i = none
get_elem? (h ∷ rest) zero = some h
get_elem? (h ∷ rest) (suc i) = get_elem? rest i

unfoldable pub prior_gate : Gate → Option Gate
prior_gate gate =
    let i = index gate_order gate in if i == 0 then none else get_elem? gate_order (i - 1)

unfoldable pub next_gate : Gate → Option Gate
next_gate gate =
    let i = index gate_order gate in
    if ltb (i + 1) (length gate_order) then get_elem? gate_order (i + 1) else none

-- `prior_gate` and `next_gate` invert one another, and the last gate has no next one.
pub prior_gate-next_gate : (g h : Gate) → (next_gate g ≡ some h) ↔ (prior_gate h ≡ some g)
unfolding prior_gate next_gate
prior_gate-next_gate g h = ground arith

pub is_gate_refl : (g : Gate) → is_gate g g ≡ true
is_gate_refl g1_neutral = refl
is_gate_refl g2_corroboration = refl
is_gate_refl g3_contradiction = refl
is_gate_refl g4_escalation = refl

pub is_gate-eq : (g h : Gate) → is_gate g h ≡ true → g ≡ h
is_gate-eq g h e = ground arith
