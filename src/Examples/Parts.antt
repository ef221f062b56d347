-- ===== src/Examples/Parts.antt =====
-- Edge rows, the configuration and the dispatcher.
use mathlib.Core.List.{Memᴰ}
use lakshmana_core.Prelude.{
  List, inr, ℕ, Bool, true, false, String, str_eq, Option, none, some, [], ◌∷◌, ◌≡◌, ◌⊎◌, All,
  if◌then◌else◌,
}
use lakshmana_core.Enums.{gk_g1_nli, ensemble}
use lakshmana_core.Decisions.{
  get_or, G1Scores, G3Scores, decide_g3, default_thresholds, g3_truncated,
}
use lakshmana_core.Edges.{EdgeField, text, of_method, Fields}
use lakshmana_core.Edges.Scores.{
  SameDecision, g1_stage_scores, g1_scores_from_stage_scores, g1_scores_lem,
}
use lakshmana_core.Firestore.Memory.{Log}
use lakshmana_core.Firestore.Txn.{returned}
use lakshmana_core.Runs.{GatekeeperRunRequest}
use lakshmana_core.Store.{Claimant, ClaimResult, claim_gate}
use lakshmana_core.Wire.{Value}
use lakshmana_core.Wire.RoundTrip.{IsSendable}
use lakshmana_core.Settings.{Setting, settings, Values, value_at, load_config}
use lakshmana_core.Settings.Load.{IsConfigured, IsRefused, load_config_lem}
use lakshmana_core.Values.{Double, null}
use lakshmana_core.Dispatcher.{Reply, push, push-executes}
use lakshmana_core.Examples.{runs, scores, never, claimant}
use lakshmana_core.Examples.Wires.{uuid, fromisoformat, envelope, b64decode, loads, str}

-- Scores with a contexted variant.
abbrev g1_scores : G1Scores
g1_scores = record {
  forward = scores 1 9 2;
  backward = scores 2 7 3;
  context_forward = some (scores 1 5 2);
  context_backward = some (scores 2 8 3);
}

abbrev g3_scores : G3Scores
g3_scores = record { family_b_forward = scores 5 3 2; family_b_backward = scores 5 3 2 }

g1_scores_lem_example :
    (back : G1Scores) × (g1_scores_from_stage_scores
        (g1_stage_scores (scores 1 9 2) (scores 2 7 3) (some (scores 1 5 2)) (some (scores 2 8 3)))
      ≡ some back)
    × SameDecision
        (decide_g3 back g3_scores default_thresholds)
        (decide_g3 g1_scores g3_scores default_thresholds)
    × ((decide_g3 back g3_scores default_thresholds).was_truncated ≡ g3_truncated g3_scores)
g1_scores_lem_example = g1_scores_lem g1_scores g3_scores default_thresholds

abbrev our_row : Fields
our_row = (EdgeField.stage3_run_id, text "stage3") ∷ (EdgeField.method, of_method gk_g1_nli) ∷ []

abbrev other_row : Fields
other_row = (EdgeField.stage3_run_id, text "stage3") ∷ (EdgeField.method, of_method ensemble) ∷ []

abbrev edges : Log Fields
edges = ("e1", some our_row) ∷ ("e2", some other_row) ∷ []

-- The configuration of an empty environment.
abbrev defaults : List Setting → Values
defaults [] = []
defaults (s ∷ rest) = (s.key, s.default) ∷ defaults rest

abbrev shipped : String → Value
shipped key = get_or (value_at (defaults settings) key) null

-- An environment with one override, which is no number.
abbrev int : String → Option (ℕ ⊎ ℕ)
int raw = if str_eq raw "-1" then some (inr 0) else none

abbrev float : String → Option Double
float raw = none

abbrev lowered : String → String
lowered raw = raw

abbrev environ : String → Option String
environ name = if str_eq name "GATEKEEPER_QUEUE_BATCH_SIZE" then some "many" else none

load_config_lem_example :
    ((vs : Values)
      → load_config int float lowered environ ≡ some vs
      → All
          (λ (s : Setting).
            str_eq "gatekeeper.firestore.project-id" s.key ≡ false
            → IsConfigured int float lowered environ s (value_at vs s.key))
          settings)
    × ((s : Setting) (raw : String)
        → Memᴰ s settings
        → environ s.env ≡ some raw
        → IsRefused int float lowered environ s raw
        → load_config int float lowered environ ≡ none)
load_config_lem_example = load_config_lem int float lowered environ

abbrev others : ℕ → runs.State → runs.State
others i s = s

abbrev claims : GatekeeperRunRequest → Claimant
claims r = claimant

abbrev launches : GatekeeperRunRequest → Bool
launches r = true

abbrev verified : Option String → Bool
verified authorization = elim authorization [ none ↦ false | some token ↦ str_eq token "token" ]

abbrev json : Value → Option Value
json body = some body

abbrev handle : Option String → Value → runs.State → runs.State × Reply
handle = push runs never others claims launches verified json b64decode loads str uuid fromisoformat

push-executes_example :
    ((r : GatekeeperRunRequest) (owner : String)
      → (handle (some "token") envelope []).1.executed ≡ some (r, owner)
      → (verified (some "token") ≡ true)
        × IsSendable uuid fromisoformat r
        × (owner ≡ "worker-1")
        × ((won : ClaimResult) × ((claim_gate runs never others r claimant []).1 ≡ returned won)
            × (won.claimed ≡ true)))
    × (((handle (some "token") envelope []).1.status ≡ 400)
          ⊎ ((handle (some "token") envelope []).1.status ≡ 401)
        → handle (some "token") envelope []
          ≡ ([], record { status = (handle (some "token") envelope []).1.status; executed = none }))
push-executes_example =
    push-executes runs never others claims launches verified json b64decode loads str uuid
      fromisoformat (some "token") envelope []
