-- ===== src/Wire/Payload.antt =====
-- gatekeeper/contracts/payload.py, and the parser of timestamps of gatekeeper/timeutil.py. `UUID` and
-- `datetime.fromisoformat` are parameters.
use Prim.Native.String.{len, slice, ◌++◌}
use lakshmana_core.Prelude.{
  ℕ, ◌-◌, Bool, false, not, ◌&&◌, String, str_eq, Option, none, some, List, [], ◌∷◌, any, all, ◌==◌,
  if◌then◌else◌,
}
use lakshmana_core.Enums.{
  Gate, RunMode, TriggeredBy, gate_order, gate_value, run_modes, run_mode_value, triggers,
  triggered_by_value,
}
use lakshmana_core.Runs.{Time, GatekeeperRunRequest}
use lakshmana_core.Wire.{
  Value, integer, negative, text, dict, Members, done, member, get, keys, by_value, not_an_object,
  no_version, version_not_integer, unsupported_version, unknown_field, missing_field, not_text,
  not_uuid, not_uuid4, not_canonical, not_a_member, bad_timestamp, not_json, Parsed, ok, err, ◌>>=◌,
  ◌>>◌, guard, require,
}

-- `SUPPORTED_SCHEMA_VERSIONS`
abbrev pub supported_schema_versions : List ℕ
supported_schema_versions = 1 ∷ []

-- `_UUID_VERSION`
abbrev pub uuid_version : ℕ
uuid_version = 4

-- `_JSON_NAMES`: the names of `WIRE_FIELDS`.
abbrev pub json_names : List String
json_names =
    "schemaVersion" ∷ "runRequestId" ∷ "intakeId" ∷ "stage3RunId" ∷ "gate" ∷ "mode" ∷ "triggeredBy"
    ∷ "requestTimestamp" ∷ []

-- What `datetime.fromisoformat` makes of a text: a time without a zone, or with one, then in UTC.
pub data Moment : Type 0 where
  naive : Moment
  aware : Time → Moment

-- What `UUID` makes of a text: its version, if it has one, and its canonical text.
pub record Uuid : Type 0 where
  pub version : Option ℕ
  pub canonical : String

-- `value.endswith("Z")`
abbrev pub ends_with_z : String → Bool
ends_with_z s = not (str_eq s "") && str_eq (slice s (len s - 1) (len s)) "Z"

-- `none` stands for a `ValueError`.
unfoldable pub parse_rfc3339 : (String → Option Moment) → String → Option Time
parse_rfc3339 fromisoformat value =
    if str_eq value ""
    then none
    else elim (fromisoformat
        (if ends_with_z value then slice value 0 (len value - 1) ++ "+00:00" else value)) [
          | some (aware t) ↦ some t
          | _ ↦ none
        ]

-- `_require_str`
unfoldable pub require_str : Value → Parsed String
require_str (text s) = if str_eq s "" then err not_text else ok s
require_str _ = err not_text

abbrev pub is_uuid_version : Option ℕ → Bool
is_uuid_version none = false
is_uuid_version (some v) = v == uuid_version

-- `_require_uuid4`
unfoldable pub require_uuid4 : (String → Option Uuid) → Value → Parsed String
require_uuid4 uuid value = do
  raw ← require_str value
  parsed ← require (uuid raw) not_uuid
  guard (is_uuid_version parsed.version) not_uuid4
  guard (str_eq parsed.canonical raw) not_canonical
  ok raw

-- `_require_enum`, for a class with these members.
unfoldable pub require_enum : {A : Type 0} → (A → String) → List A → Value → Parsed A
require_enum value_of members value = do
  raw ← require_str value
  require (by_value value_of members raw) not_a_member

-- `to_wire`
unfoldable pub to_wire : GatekeeperRunRequest → Members
to_wire r = member "schemaVersion" (integer r.schema_version) (
    member "runRequestId" (text r.run_request_id) (
      member "intakeId" (text r.intake_id) (
        member "stage3RunId" (text r.stage3_run_id) (
          member "gate" (text (gate_value r.gate_id)) (
            member "mode" (text (run_mode_value r.mode)) (
              member "triggeredBy" (text (triggered_by_value r.triggered_by))
                (member "requestTimestamp" (text r.request_timestamp) done)))))))

-- The version, which is looked at first.
unfoldable pub read_version : Members → Parsed ℕ
read_version m = elim (get m "schemaVersion") [
  | none ↦ err no_version
  | some (integer v) ↦
      if any (λ w. w == v) supported_schema_versions then ok v else err unsupported_version
  | some (negative n) ↦ err unsupported_version
  | some _ ↦ err version_not_integer
]

-- Whether a key is among the names, and whether all names are among the keys.
abbrev pub is_known : String → Bool
is_known k = any (λ name. str_eq name k) json_names

abbrev pub is_complete : Members → Bool
is_complete m = all (λ name. any (λ k. str_eq k name) (keys m)) json_names

-- `payload[name]`
abbrev pub field : Members → String → Parsed Value
field m name = require (get m name) missing_field

-- `from_wire`
unfoldable pub from_wire :
    (String → Option Uuid) → (String → Option Moment) → Value → Parsed GatekeeperRunRequest
from_wire uuid fromisoformat (dict m) = do
  version ← read_version m
  guard (all is_known (keys m)) unknown_field
  guard (is_complete m) missing_field
  request_timestamp ← field m "requestTimestamp" >>= require_str
  _ ← require (parse_rfc3339 fromisoformat request_timestamp) bad_timestamp
  run_request_id ← field m "runRequestId" >>= require_uuid4 uuid
  intake_id ← field m "intakeId" >>= require_str
  stage3_run_id ← field m "stage3RunId" >>= require_str
  gate_id ← field m "gate" >>= require_enum gate_value gate_order
  mode ← field m "mode" >>= require_enum run_mode_value run_modes
  triggered_by ← field m "triggeredBy" >>= require_enum triggered_by_value triggers
  ok (record {
    schema_version = version;
    run_request_id = run_request_id;
    intake_id = intake_id;
    stage3_run_id = stage3_run_id;
    gate_id = gate_id;
    mode = mode;
    triggered_by = triggered_by;
    request_timestamp = request_timestamp;
  })
from_wire uuid fromisoformat _ = err not_an_object

-- `from_bytes`; `loads` is `json.loads` of the UTF-8 text.
unfoldable pub from_bytes :
    {Bytes : Type 0}
    → (Bytes → Option Value)
    → (String → Option Uuid)
    → (String → Option Moment)
    → Bytes
    → Parsed GatekeeperRunRequest
from_bytes loads uuid fromisoformat raw = do
  decoded ← require (loads raw) not_json
  from_wire uuid fromisoformat decoded

-- `for_gate`
unfoldable pub for_gate :
    GatekeeperRunRequest → Gate → Option RunMode → Option TriggeredBy → GatekeeperRunRequest
for_gate r g mode by = record r {
  gate_id = g;
  mode = elim mode [ none ↦ r.mode | some m ↦ m ];
  triggered_by = elim by [ none ↦ r.triggered_by | some b ↦ b ];
}
