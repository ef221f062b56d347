-- ===== src/Edges/Purge.antt =====
-- `EdgeWriter.purge`: the deletion of a run's rows from a collection that another service shares. The
-- batches of 400 deletes are committed one after another; here each delete is a step of its own.
use lakshmana_core.Prelude.{
  ℕ, ◌+◌, Bool, true, false, String, str_eq, Option, none, some, List, [], ◌∷◌, select,
  if◌then◌else◌,
}
use lakshmana_core.Enums.{Method, gk_g1_nli, gk_g2_grounding, gk_g3_xcheck, gk_g4_llm}
use lakshmana_core.Firestore.{Collection}
use lakshmana_core.Edges.{EdgeField, EdgeValue, text, of_method, Fields}

-- A stored row, by the two fields that the purge looks at.
abbrev is_run_field : EdgeField → Bool
is_run_field EdgeField.stage3_run_id = true
is_run_field _ = false

abbrev is_method_field : EdgeField → Bool
is_method_field EdgeField.method = true
is_method_field _ = false

abbrev value_where : (EdgeField → Bool) → Fields → Option EdgeValue
value_where test [] = none
value_where test ((f, v) ∷ rest) =
    let found = value_where test rest in if test f then some v else found

-- `where("stage3RunId", "==", …)`
unfoldable pub in_run : String → Fields → Bool
in_run run row = elim (value_where is_run_field row) [ some (text s) ↦ str_eq s run | _ ↦ false ]

-- Membership in `GATEKEEPER_METHODS`.
abbrev pub is_gatekeeper_method : Method → Bool
is_gatekeeper_method gk_g1_nli = true
is_gatekeeper_method gk_g2_grounding = true
is_gatekeeper_method gk_g3_xcheck = true
is_gatekeeper_method gk_g4_llm = true
is_gatekeeper_method _ = false

unfoldable pub has_our_method : Fields → Bool
has_our_method row = elim (value_where is_method_field row) [
  | some (of_method m) ↦ is_gatekeeper_method m
  | _ ↦ false
]

module _ (col : Collection Fields) where
  open col use {State, find, delete, docs, docs_sound, docs_complete, find-delete}

  unfoldable pub purge_loop : List (String × Fields) → State → ℕ → State × ℕ
  purge_loop [] s deleted = (s, deleted)
  purge_loop ((k, row) ∷ rest) s deleted = elim (has_our_method row) [
    | false ↦ purge_loop rest s deleted
    | true ↦ purge_loop rest (delete s k) (deleted + 1)
  ]

  unfoldable pub purge : String → State → State × ℕ
  purge run s = purge_loop (select (λ d. in_run run d.1) (docs s)) s 0
