-- ===== src/Firestore/Memory.antt =====
-- A collection in memory: it shows that the assumptions of `Collection` can be met, and the tests run
-- on it. The newest document of an id stands first, and `none` marks a deleted one.
use mathlib.Core.List.{Memᴰ}
use lakshmana_core.Prelude.{
  false, String, Option, none, some, List, [], ◌∷◌, ◌≡◌, refl, All, str_eq, eq_iff, eq_refl,
  if◌then◌else◌, Bool-cases, inl, inr,
}
use lakshmana_core.Firestore.{Collection}

abbrev pub Log : Type 0 → Type 0
Log V = List (String × Option V)

module _ {V : Type 0} where
  abbrev pub find_in : Log V → String → Option V
  find_in [] k = none
  find_in ((j, v) ∷ s) k = if str_eq j k then v else find_in s k

  -- The documents of `s` whose id is not `k`.
  abbrev pub without : String → List (String × V) → List (String × V)
  without k [] = []
  without k ((j, v) ∷ s) = let rest = without k s in if str_eq k j then rest else (j, v) ∷ rest

  abbrev pub all_docs : Log V → List (String × V)
  all_docs [] = []
  all_docs ((k, none) ∷ s) = without k (all_docs s)
  all_docs ((k, some v) ∷ s) = (k, v) ∷ without k (all_docs s)

  -- Every document of the list is the one that the log holds under its id.
  abbrev pub IsHeld : Log V → List (String × V) → Type 0
  IsHeld s = All (λ (d : String × V). find_in s d.0 ≡ some d.1)

  without-IsHeld :
      (s : Log V) (k : String) (o : Option V) (xs : List (String × V))
      → IsHeld s xs
      → IsHeld ((k, o) ∷ s) (without k xs)
  without-IsHeld s k o [] h = tt
  without-IsHeld s k o ((j, v) ∷ xs) h = elim (Bool-cases (str_eq k j)) [
    | inl e ↦ rw e (without-IsHeld s k o xs h.1)
    | inr e ↦ rw e (rw e h.0, without-IsHeld s k o xs h.1)
  ]

  pub all_docs-IsHeld : (s : Log V) → IsHeld s (all_docs s)
  all_docs-IsHeld [] = tt
  all_docs-IsHeld ((k, none) ∷ s) = without-IsHeld s k none (all_docs s) (all_docs-IsHeld s)
  all_docs-IsHeld ((k, some v) ∷ s) =
      (rw (eq_refl k) refl, without-IsHeld s k (some v) (all_docs s) (all_docs-IsHeld s))

  mem-without :
      (k j : String) (w : V) {xs : List (String × V)}
      → str_eq k j ≡ false
      → Memᴰ (j, w) xs
      → Memᴰ (j, w) (without k xs)
  mem-without k j w ne (Memᴰ.head {x = x} p) =
      let ne' : str_eq k x.0 ≡ false = rw (← p) ne in rw ne' (Memᴰ.head p)
  mem-without k j w ne (Memᴰ.tail {x = x} m) = elim (Bool-cases (str_eq k x.0)) [
    | inl e ↦ rw e (mem-without k j w ne m)
    | inr e ↦ rw e (Memᴰ.tail (mem-without k j w ne m))
  ]

  pub mem-all_docs :
      (s : Log V) (j : String) (w : V) → find_in s j ≡ some w → Memᴰ (j, w) (all_docs s)
  mem-all_docs [] j w h = cc
  mem-all_docs ((k, none) ∷ s) j w h = elim (Bool-cases (str_eq k j)) [
    | inl e ↦ cc (rw e at h)
    | inr e ↦ mem-without k j w e (mem-all_docs s j w (rw e at h))
  ]
  mem-all_docs ((k, some v) ∷ s) j w h = elim (Bool-cases (str_eq k j)) [
    | inl e ↦ Memᴰ.head (cc ((eq_iff k j).0 e, rw e at h))
    | inr e ↦ Memᴰ.tail (mem-without k j w e (mem-all_docs s j w (rw e at h)))
  ]

-- The in-memory collection.
abbrev pub memory : (V : Type 0) → Collection V
memory V = record {
  State = Log V;
  find = find_in;
  set = λ s k v. (k, some v) ∷ s;
  delete = λ s k. (k, none) ∷ s;
  docs = all_docs;
  find-set = λ s k j v. refl;
  find-delete = λ s k j. refl;
  docs_sound = all_docs-IsHeld;
  docs_complete = mem-all_docs;
}
