-- ===== src/Prelude/Order.antt =====
-- Python's order of strings, by code points, which `compare` of the native strings decides.
use Prim.Native.Nat.{ℕ, Ordering, compare as compare_ℕ}
use Prim.Native.Char.{code}
use Prim.Native.String.{String, [], ◌∷◌, compare, then as and_then}
use Prim.Native.String.compare as string_compare
use mathlib.Core.Path.{◌≡◌, refl, sym, ap, ap₂, ◌∙◌}
use mathlib.Core.Bool.{Bool, true, false}
use native.Mathlib.Omega.{arith}
use text.Mathlib.TextEquality.{path_by_compare}
use lakshmana_core.Prelude.Tests.{if◌then◌else◌}

-- `s < t`
abbrev pub str_lt : String → String → Bool
str_lt s t = elim (compare s t) [ Ordering.lt ↦ true | _ ↦ false ]

abbrev flip : Ordering → Ordering
flip Ordering.lt = Ordering.gt
flip Ordering.eq = Ordering.eq
flip Ordering.gt = Ordering.lt

flip_ℕ : (m n : ℕ) → compare_ℕ n m ≡ flip (compare_ℕ m n)
flip_ℕ m n = ground arith

flip-then : (a b : Ordering) → flip (and_then a b) ≡ and_then (flip a) (flip b)
flip-then Ordering.lt b = refl
flip-then Ordering.eq b = refl
flip-then Ordering.gt b = refl

flip-compare : (s t : String) → compare t s ≡ flip (compare s t)
flip-compare [] [] = ap flip {x = compare "" ""} refl
flip-compare [] (d ∷ t) = string_compare.cons-nil d t ∙ sym (ap flip (string_compare.nil-cons d t))
flip-compare (c ∷ s) [] = string_compare.nil-cons c s ∙ sym (ap flip (string_compare.cons-nil c s))
flip-compare (c ∷ s) (d ∷ t) =
    string_compare.cons-cons d c t s
    ∙ (ap₂ and_then (flip_ℕ (code c) (code d)) (flip-compare s t)
        ∙ (sym (flip-then (compare_ℕ (code c) (code d)) (compare s t))
            ∙ sym (ap flip (string_compare.cons-cons c d s t))))

-- Of two strings at most one is below the other; if neither is, they are equal.
pub str_lt_asym : (s t : String) → str_lt s t ≡ true → str_lt t s ≡ false
str_lt_asym s t h = ground (arith, flip-compare s t)

pub str_lt_connected : (s t : String) → str_lt s t ≡ false → str_lt t s ≡ false → s ≡ t
str_lt_connected s t h k = path_by_compare s t (ground (arith, flip-compare s t))

-- `min(s, t)` and `max(s, t)`, which are `sorted((s, t))`.
abbrev pub str_min : String → String → String
str_min s t = if str_lt t s then t else s

abbrev pub str_max : String → String → String
str_max s t = if str_lt s t then t else s

-- `sorted((s, t))`
abbrev pub sorted_pair : String → String → String × String
sorted_pair s t = if str_lt t s then (t, s) else (s, t)

pub sorted_pair_comm : (s t : String) → sorted_pair s t ≡ sorted_pair t s
sorted_pair_comm s t = ground (arith, flip-compare s t, str_lt_connected s t)
