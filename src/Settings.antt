-- ===== src/Settings.antt =====
-- gatekeeper/config.py: the table of settings, how the environment overrides it, and the part of it that
-- is frozen into a run. `int`, `float` and `strip().lower()` of a text are parameters.
pub mod Load
pub mod Snapshot
use lakshmana_core.Prelude.{
  ◌⊎◌, inl, inr, ℕ, Bool, true, false, ◌||◌, String, str_eq, Option, none, some, List, [], ◌∷◌,
  ◌++◌, any, if◌then◌else◌,
}
use lakshmana_core.Enums.{Gate, g1_neutral, g2_corroboration, g3_contradiction, g4_escalation}
use lakshmana_core.Decisions.{Score, double, get_or, ThresholdSlots}
use lakshmana_core.Values.{Double, finite}
use lakshmana_core.Wire.{
  Value, boolean, integer, negative, real, text, dict, Members, done, member, get,
}
use lakshmana_core.Wire.Documents.{is_true}

pub data Cast : Type 0 where
  as_str as_int as_float as_bool : Cast

-- A setting without a `snapshot_path` has the empty one.
pub record Setting : Type 0 where
  pub key : String
  pub env : String
  pub default : Value
  pub cast : Cast
  pub snapshot_path : List String
  pub secret : Bool

abbrev frozen : String → String → Value → Cast → List String → Setting
frozen key env default cast path = record {
  key = key;
  env = env;
  default = default;
  cast = cast;
  snapshot_path = path;
  secret = false;
}

abbrev setting : String → String → Value → Cast → Setting
setting key env default cast = frozen key env default cast []

abbrev secret_setting : String → String → Value → Cast → Setting
secret_setting key env default cast = record (setting key env default cast) { secret = true }

-- `SETTINGS`: those that are frozen into a run's snapshot, and the others, in the table's order.
abbrev pub frozen_settings : List Setting
frozen_settings =
    frozen "gatekeeper.roster.version" "GATEKEEPER_ROSTER_VERSION" (text "v1") as_str
      ("rosterVersion" ∷ [])
    ∷ frozen "gatekeeper.gates.g1.model" "GATEKEEPER_G1_MODEL" (text "modernbert-base-nli@v1")
        as_str ("g1" ∷ "model" ∷ [])
    ∷ frozen "gatekeeper.gates.g1.sha256" "GATEKEEPER_G1_SHA256" (text "") as_str
        ("g1" ∷ "sha256" ∷ [])
    ∷ frozen "gatekeeper.gates.g1.neutral-min" "GATEKEEPER_G1_NEUTRAL_MIN"
        (real (finite (double 8556839292003942 0))) as_float ("g1" ∷ "neutralMin" ∷ [])
    ∷ frozen "gatekeeper.gates.g1.repeat-min" "GATEKEEPER_G1_REPEAT_MIN"
        (real (finite (double 8106479329266893 0))) as_float ("g1" ∷ "repeatMin" ∷ [])
    ∷ frozen "gatekeeper.gates.g1.contra-escape" "GATEKEEPER_G1_CONTRA_ESCAPE"
        (real (finite (double 5764607523034235 5))) as_float ("g1" ∷ "contraEscape" ∷ [])
    ∷ frozen "gatekeeper.gates.g1.max-seq-tokens" "GATEKEEPER_G1_MAX_SEQ_TOKENS" (integer 512)
        as_int ("g1" ∷ "maxSeqTokens" ∷ [])
    ∷ frozen "gatekeeper.gates.g2.model" "GATEKEEPER_G2_MODEL" (text "minicheck-deberta-l@v1")
        as_str ("g2" ∷ "model" ∷ [])
    ∷ frozen "gatekeeper.gates.g2.sha256" "GATEKEEPER_G2_SHA256" (text "") as_str
        ("g2" ∷ "sha256" ∷ [])
    ∷ frozen "gatekeeper.gates.g2.support-min" "GATEKEEPER_G2_SUPPORT_MIN"
        (real (finite (double 8106479329266893 0))) as_float ("g2" ∷ "supportMin" ∷ [])
    ∷ frozen "gatekeeper.gates.g2.support-floor" "GATEKEEPER_G2_SUPPORT_FLOOR"
        (real (finite (double 4503599627370496 0))) as_float ("g2" ∷ "supportFloor" ∷ [])
    ∷ frozen "gatekeeper.gates.g2.grounding-mode" "GATEKEEPER_G2_GROUNDING_MODE" (text "AUTO")
        as_str ("g2" ∷ "groundingMode" ∷ [])
    ∷ frozen "gatekeeper.gates.g3.model" "GATEKEEPER_G3_MODEL" (text "deberta-mnli-fever-anli@v1")
        as_str ("g3" ∷ "model" ∷ [])
    ∷ frozen "gatekeeper.gates.g3.sha256" "GATEKEEPER_G3_SHA256" (text "") as_str
        ("g3" ∷ "sha256" ∷ [])
    ∷ frozen "gatekeeper.gates.g3.contra-min" "GATEKEEPER_G3_CONTRA_MIN"
        (real (finite (double 7656119366529843 0))) as_float ("g3" ∷ "contraMin" ∷ [])
    ∷ frozen "gatekeeper.gates.g3.neutral-consensus" "GATEKEEPER_G3_NEUTRAL_CONSENSUS"
        (real (finite (double 7205759403792794 3))) as_float ("g3" ∷ "neutralConsensus" ∷ [])
    ∷ frozen "gatekeeper.gates.g3.agreement-rule" "GATEKEEPER_G3_AGREEMENT_RULE" (text "TWO_FAMILY")
        as_str ("g3" ∷ "agreementRule" ∷ [])
    ∷ frozen "gatekeeper.gates.g4.llm-model" "GATEKEEPER_G4_LLM_MODEL"
        (text "gemini-2.5-flash-lite") as_str ("g4" ∷ "llmModel" ∷ [])
    ∷ frozen "gatekeeper.gates.g4.max-llm-pairs" "GATEKEEPER_G4_MAX_LLM_PAIRS" (integer 3000) as_int
        ("g4" ∷ "maxLlmPairs" ∷ [])
    ∷ frozen "gatekeeper.gates.g4.thinking-budget" "GATEKEEPER_G4_THINKING_BUDGET" (integer 512)
        as_int ("g4" ∷ "thinkingBudget" ∷ [])
    ∷ []

abbrev pub live_settings : List Setting
live_settings =
    setting "gatekeeper.gates.g4.live-calls" "GATEKEEPER_G4_LIVE_CALLS" (boolean false) as_bool
    ∷ setting "gatekeeper.gates.g4.region" "GATEKEEPER_G4_REGION" (text "asia-southeast1") as_str
    ∷ setting "gatekeeper.gates.g4.max-output-tokens" "GATEKEEPER_G4_MAX_OUTPUT_TOKENS"
        (integer 512) as_int
    ∷ setting "gatekeeper.gates.g4.usd-per-million-input" "GATEKEEPER_G4_USD_IN"
        (real (finite (double 7205759403792794 3))) as_float
    ∷ setting "gatekeeper.gates.g4.usd-per-million-output" "GATEKEEPER_G4_USD_OUT"
        (real (finite (double 7205759403792794 1))) as_float
    ∷ setting "gatekeeper.integration.prompts-collection" "GATEKEEPER_PROMPTS_COLLECTION"
        (text "extraction_prompts") as_str
    ∷ setting "gatekeeper.lease.gate-minutes" "GATEKEEPER_LEASE_GATE_MINUTES" (integer 90) as_int
    ∷ setting "gatekeeper.sweep.max-attempts" "GATEKEEPER_SWEEP_MAX_ATTEMPTS" (integer 3) as_int
    ∷ setting "gatekeeper.sweep.requested-grace-minutes" "GATEKEEPER_SWEEP_REQUESTED_GRACE_MINUTES"
        (integer 30) as_int
    ∷ setting "gatekeeper.judge-mode-default" "GATEKEEPER_JUDGE_MODE_DEFAULT" (text "GATEKEEPER")
        as_str
    ∷ setting "gatekeeper.integration.stage3-runs-collection" "GATEKEEPER_STAGE3_RUNS_COLLECTION"
        (text "stage3_runs") as_str
    ∷ setting "gatekeeper.integration.stage3-edges-collection" "GATEKEEPER_STAGE3_EDGES_COLLECTION"
        (text "stage3_edges") as_str
    ∷ setting "gatekeeper.integration.claims-collection" "GATEKEEPER_CLAIMS_COLLECTION"
        (text "claims") as_str
    ∷ setting "gatekeeper.queue.collection" "GATEKEEPER_QUEUE_COLLECTION" (text "gatekeeper_pairs")
        as_str
    ∷ setting "gatekeeper.queue.batch-size" "GATEKEEPER_QUEUE_BATCH_SIZE" (integer 32) as_int
    ∷ setting "gatekeeper.queue.lease-minutes" "GATEKEEPER_QUEUE_LEASE_MINUTES" (integer 15) as_int
    ∷ setting "gatekeeper.dispatcher.require-oidc" "GATEKEEPER_DISPATCHER_REQUIRE_OIDC"
        (boolean true) as_bool
    ∷ setting "gatekeeper.dispatcher.oidc-audience" "GATEKEEPER_DISPATCHER_OIDC_AUDIENCE" (text "")
        as_str
    ∷ setting "gatekeeper.dispatcher.allowed-service-accounts"
        "GATEKEEPER_DISPATCHER_ALLOWED_SERVICE_ACCOUNTS" (text "") as_str
    ∷ setting "gatekeeper.firestore.project-id" "GATEKEEPER_FIRESTORE_PROJECT_ID" (text "") as_str
    ∷ setting "gatekeeper.firestore.database" "GATEKEEPER_FIRESTORE_DATABASE" (text "(default)")
        as_str
    ∷ setting "gatekeeper.pubsub.topic" "GATEKEEPER_PUBSUB_TOPIC" (text "gatekeeper-requests")
        as_str
    ∷ setting "gatekeeper.pubsub.dlq-subscription" "GATEKEEPER_PUBSUB_DLQ_SUBSCRIPTION"
        (text "gatekeeper-requests-dlq-pull") as_str
    ∷ setting "gatekeeper.worker.job-name" "GATEKEEPER_WORKER_JOB_NAME" (text "gatekeeper-worker")
        as_str
    ∷ setting "gatekeeper.worker.job-region" "GATEKEEPER_WORKER_JOB_REGION" (text "asia-southeast1")
        as_str
    ∷ setting "gatekeeper.worker.execute-jobs" "GATEKEEPER_WORKER_EXECUTE_JOBS" (boolean false)
        as_bool
    ∷ setting "gatekeeper.models.bucket" "GATEKEEPER_MODELS_BUCKET" (text "") as_str
    ∷ setting "gatekeeper.models.local-dir" "GATEKEEPER_MODELS_LOCAL_DIR" (text "") as_str
    ∷ setting "gatekeeper.models.cache-dir" "GATEKEEPER_MODELS_CACHE_DIR"
        (text "/tmp/gatekeeper-models") as_str
    ∷ setting "gatekeeper.neo4j.uri" "GATEKEEPER_NEO4J_URI" (text "bolt://localhost:7687") as_str
    ∷ setting "gatekeeper.neo4j.user" "GATEKEEPER_NEO4J_USER" (text "neo4j") as_str
    ∷ secret_setting "gatekeeper.neo4j.password" "GATEKEEPER_NEO4J_PASSWORD" (text "") as_str
    ∷ setting "gatekeeper.neo4j.database" "GATEKEEPER_NEO4J_DATABASE" (text "neo4j") as_str
    ∷ []

abbrev pub settings : List Setting
settings = frozen_settings ++ live_settings

-- The mapping of a `Config`.
abbrev pub Values : Type 0
Values = List (String × Value)

abbrev pub value_at : Values → String → Option Value
value_at [] key = none
value_at ((k, v) ∷ rest) key =
    let found = value_at rest key in if str_eq k key then some v else found

-- `values[key] = v`, of a key that the mapping has.
abbrev pub overwrite : Values → String → Value → Values
overwrite [] key v = []
overwrite ((k, w) ∷ rest) key v =
    let later = overwrite rest key v in if str_eq k key then (k, v) ∷ rest else (k, w) ∷ later

module _ (int : String → Option (ℕ ⊎ ℕ)) (float : String → Option Double)
    (lowered : String → String) (environ : String → Option String) where
  -- `setting.cast(raw)`; `none` stands for a `ValueError`. `int` gives n on the left, and −(n + 1) on the
  -- right.
  unfoldable pub coerce : Cast → String → Option Value
  coerce as_str raw = some (text raw)
  coerce as_int raw = elim (int raw) [
    | none ↦ none
    | some (inl n) ↦ some (integer n)
    | some (inr n) ↦ some (negative n)
  ]
  coerce as_float raw = elim (float raw) [ none ↦ none | some x ↦ some (real x) ]
  coerce as_bool raw =
      some (boolean (any (λ word. str_eq (lowered raw) word) ("1" ∷ "true" ∷ "yes" ∷ "on" ∷ [])))

  -- One round of the loop of `load_config`.
  unfoldable pub resolve : Setting → Option Value
  resolve s = elim (environ s.env) [ none ↦ some s.default | some raw ↦ coerce s.cast raw ]

  unfoldable pub resolve_all : List Setting → Option Values
  resolve_all [] = some []
  resolve_all (s ∷ rest) = elim (resolve s) [
    | none ↦ none
    | some v ↦ elim (resolve_all rest) [ none ↦ none | some vs ↦ some ((s.key, v) ∷ vs) ]
  ]

  -- The project of the environment, where the setting has none.
  unfoldable pub with_project : Values → Values
  with_project vs =
      if is_true (get_or (value_at vs "gatekeeper.firestore.project-id") (text ""))
      then vs
      else overwrite vs "gatekeeper.firestore.project-id"
          (text (get_or (environ "GOOGLE_CLOUD_PROJECT") ""))

  unfoldable pub load_config : Option Values
  load_config = elim (resolve_all settings) [ none ↦ none | some vs ↦ some (with_project vs) ]

-- `target[key] = value`
abbrev pub set_member : Members → String → Value → Members
set_member done key v = member key v done
set_member (member k w rest) key v =
    let later = set_member rest key v in if str_eq k key then member k v rest else member k w later

-- `target.setdefault(key, {})`, of a member that is a map or missing.
abbrev pub sub_map : Members → String → Members
sub_map m key = elim (get m key) [ some (dict inner) ↦ inner | _ ↦ done ]

-- The writes of one round of the loop of `snapshot`, for the paths of one and of two keys that the table
-- has.
abbrev pub put : Members → List String → Value → Members
put m (leaf ∷ []) v = set_member m leaf v
put m (parent ∷ leaf ∷ []) v = set_member m parent (dict (set_member (sub_map m parent) leaf v))
put m _ v = m

-- `snapshot`, of the values by their keys.
unfoldable pub snapshot_loop : (String → Value) → List Setting → Members → Members
snapshot_loop values [] m = m
snapshot_loop values (s ∷ rest) m = snapshot_loop values rest (put m s.snapshot_path (values s.key))

unfoldable pub snapshot : (String → Value) → Members
snapshot values = snapshot_loop values settings done

-- `GateBinding`
pub record GateBinding : Type 0 where
  pub gate : Gate
  pub model : String
  pub sha256 : String
  pub max_seq_tokens : ℕ

-- `row.get(key) or default`
abbrev pub text_or : Members → String → String → String
text_or row key default = elim (get row key) [
  | some (text s) ↦ if str_eq s "" then default else s
  | _ ↦ default
]

abbrev pub count_or : Members → String → ℕ → ℕ
count_or row key default = elim (get row key) [
  | some (integer n) ↦ if is_true (integer n) then n else default
  | _ ↦ default
]

abbrev binding_of : Gate → Members → String → GateBinding
binding_of g row model = record {
  gate = g;
  model = text_or row "model" model;
  sha256 = text_or row "sha256" "";
  max_seq_tokens = count_or row "maxSeqTokens" 512;
}

-- `from_snapshot`, of a snapshot whose fields have their types; `none` stands for the `ValueError` of a
-- gate with no artifact. The default budget of tokens is 512 for every gate.
unfoldable pub binding_from_snapshot : Members → Gate → Option GateBinding
binding_from_snapshot m g1_neutral =
    some (binding_of g1_neutral (sub_map m "g1") "modernbert-base-nli@v1")
binding_from_snapshot m g2_corroboration =
    some (binding_of g2_corroboration (sub_map m "g2") "minicheck-deberta-l@v1")
binding_from_snapshot m g3_contradiction =
    some (binding_of g3_contradiction (sub_map m "g3") "deberta-mnli-fever-anli@v1")
binding_from_snapshot m g4_escalation = none

-- `Thresholds.from_snapshot` reads these keys, of a snapshot whose numbers are finite doubles that are not
-- negative.
abbrev pub number_at : Members → String → Option Score
number_at row key = elim (get row key) [ some (real (finite x)) ↦ some x | _ ↦ none ]

unfoldable pub threshold_slots : Members → ThresholdSlots
threshold_slots m = record {
  neutral_min = number_at (sub_map m "g1") "neutralMin";
  repeat_min = number_at (sub_map m "g1") "repeatMin";
  contra_escape = number_at (sub_map m "g1") "contraEscape";
  support_min = number_at (sub_map m "g2") "supportMin";
  support_floor = number_at (sub_map m "g2") "supportFloor";
  contra_min = number_at (sub_map m "g3") "contraMin";
  neutral_consensus = number_at (sub_map m "g3") "neutralConsensus";
}

-- `redacted`
unfoldable pub redacted : (String → Value) → List Setting → Values
redacted values [] = []
redacted values (s ∷ rest) =
    (
      s.key,
      if s.secret
          then (if is_true (values s.key) then text "***" else values s.key)
          else values s.key,
    )
    ∷ redacted values rest
