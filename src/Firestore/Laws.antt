-- ===== src/Firestore/Laws.antt =====
-- Consequences of the laws of a collection, for any type of document.
use mathlib.Core.Path.{subst₂}
use mathlib.Core.Option.{some-injective}
use lakshmana_core.Prelude.{
  false, String, str_eq, eq_iff, eq_refl, some, List, ◌≡◌, sym, ◌∙◌, ap, Bool-cases, inl, inr, All,
  if◌then◌else◌,
}
use lakshmana_core.Firestore.{Collection}

module _ {V : Type 0} (col : Collection V) where
  open col use {State, find, set, docs, find-set}

  pub find-set_self : (s : State) (k : String) (v : V) → find (set s k v) k ≡ some v
  find-set_self s k v = find-set s k k v ∙ ap (λ b. if b then some v else find s k) (eq_refl k)

  pub find-set_ne :
      (s : State) (k j : String) (v : V) → str_eq k j ≡ false → find (set s k v) j ≡ find s j
  find-set_ne s k j v ne = find-set s k j v ∙ ap (λ b. if b then some v else find s j) ne

  -- A property of every document, given with its id.
  abbrev pub AllDocs : (String → V → Type 0) → State → Type 0
  AllDocs P s = (k : String) (v : V) → find s k ≡ some v → P k v

  pub set-AllDocs :
      (P : String → V → Type 0) (s : State) (k : String) (v : V)
      → P k v
      → AllDocs P s
      → AllDocs P (set s k v)
  set-AllDocs P s k v h all j w e = elim (Bool-cases (str_eq k j)) [
    | inl same ↦
        let here : some v ≡ some w =
          sym (find-set s k j v ∙ ap (λ b. if b then some v else find s j) same) ∙ e in
        subst₂ P ((eq_iff k j).0 same) (some-injective v w here) h
    | inr other ↦ all j w (sym (find-set_ne s k j v other) ∙ e)
  ]

  -- Every element of a list of documents is in the collection.
  abbrev pub Holds : State → List (String × V) → Type 0
  Holds s = All (λ (d : String × V). find s d.0 ≡ some d.1)
