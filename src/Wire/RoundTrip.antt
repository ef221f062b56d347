-- ===== src/Wire/RoundTrip.antt =====
-- What the codec of the message accepts, and that it reads back what it writes.
use lakshmana_core.Prelude.{false, String, str_eq, eq_refl, Option, some, ◌≡◌, refl}
use lakshmana_core.Enums.{
  Gate, g1_neutral, g2_corroboration, g3_contradiction, g4_escalation, RunMode, full, from_gate,
  TriggeredBy, operator, system, sweeper, gate_order, gate_value, run_modes, run_mode_value,
  triggers, triggered_by_value,
}
use lakshmana_core.Runs.{Time, GatekeeperRunRequest}
use lakshmana_core.Wire.{text, dict, ok}
use lakshmana_core.Wire.Payload.{
  Moment, Uuid, parse_rfc3339, require_str, require_uuid4, require_enum, to_wire, read_version,
  from_wire,
}

-- A request that can go on the wire: the supported version, ids that are not empty, of which the run's
-- is the canonical text of a UUIDv4, and a timestamp that can be parsed.
pub record IsSendable (uuid : String → Option Uuid) (fromisoformat : String → Option Moment)
    (r : GatekeeperRunRequest) : Type 0 where
  pub version : r.schema_version ≡ 1
  pub run_id : str_eq r.run_request_id "" ≡ false
  pub is_uuid :
      uuid r.run_request_id ≡ some (record { version = some 4; canonical = r.run_request_id })
  pub intake : str_eq r.intake_id "" ≡ false
  pub stage3 : str_eq r.stage3_run_id "" ≡ false
  pub timestamp : str_eq r.request_timestamp "" ≡ false
  pub time : Time
  pub parses : parse_rfc3339 fromisoformat r.request_timestamp ≡ some time

gate_lem : (g : Gate) → require_enum gate_value gate_order (text (gate_value g)) ≡ ok g
unfolding require_enum require_str
gate_lem g1_neutral = refl
gate_lem g2_corroboration = refl
gate_lem g3_contradiction = refl
gate_lem g4_escalation = refl

run_mode_lem :
    (m : RunMode) → require_enum run_mode_value run_modes (text (run_mode_value m)) ≡ ok m
unfolding require_enum require_str
run_mode_lem full = refl
run_mode_lem from_gate = refl

triggered_by_lem :
    (b : TriggeredBy)
    → require_enum triggered_by_value triggers (text (triggered_by_value b)) ≡ ok b
unfolding require_enum require_str
triggered_by_lem operator = refl
triggered_by_lem system = refl
triggered_by_lem sweeper = refl

require_str_lem : (s : String) → str_eq s "" ≡ false → require_str (text s) ≡ ok s
unfolding require_str
require_str_lem s h = rw h refl

module _ (uuid : String → Option Uuid) (fromisoformat : String → Option Moment) where
  require_uuid4_lem :
      (s : String)
      → str_eq s "" ≡ false
      → uuid s ≡ some (record { version = some 4; canonical = s })
      → require_uuid4 uuid (text s) ≡ ok s
  unfolding require_uuid4
  require_uuid4_lem s h u = rw (require_str_lem s h, u, eq_refl s) refl

  -- The codec is a round trip: every request that can go on the wire is read back from its JSON object
  -- as it was.
  pub from_wire-to_wire :
      (r : GatekeeperRunRequest)
      → IsSendable uuid fromisoformat r
      → from_wire uuid fromisoformat (dict (to_wire r)) ≡ ok r
  unfolding from_wire to_wire read_version
  from_wire-to_wire r h =
      rw
        (
          h.version,
          require_str_lem r.request_timestamp h.timestamp,
          h.parses,
          require_uuid4_lem r.run_request_id h.run_id h.is_uuid,
          require_str_lem r.intake_id h.intake,
          require_str_lem r.stage3_run_id h.stage3,
          gate_lem r.gate_id,
          run_mode_lem r.mode,
          triggered_by_lem r.triggered_by,
        )
        refl
