-- ===== src/Wire/Strict.antt =====
-- What the codec of the message accepts is what it would have written.
use lakshmana_core.Prelude.{
  ℕ, true, false, String, str_eq, eq_iff, Option, none, some, List, ◌≡◌, ◌≢◌, refl, sym, ◌∙◌, ap,
  arith, All, all, Bool-cases, inl, inr,
}
use lakshmana_core.Enums.{
  gate_order, gate_value, run_modes, run_mode_value, triggers, triggered_by_value,
}
use lakshmana_core.Runs.{Time, GatekeeperRunRequest}
use lakshmana_core.Wire.{
  Value, text, integer, dict, Members, get, keys, by_value-eq-some, ok, ◌>>=◌, >>=-eq-ok,
  require-eq-ok, guard-eq-ok,
}
use lakshmana_core.Wire.Payload.{
  Moment, Uuid, parse_rfc3339, require_str, require_uuid4, require_enum, to_wire, read_version,
  from_wire, json_names, is_known, field, is_uuid_version,
}
use lakshmana_core.Wire.RoundTrip.{IsSendable}

require_str-ok :
    (v : Value) (s : String) → require_str v ≡ ok s → (v ≡ text s) × (str_eq s "" ≡ false)
unfolding require_str
require_str-ok (text x) s h = elim (Bool-cases (str_eq x "")) [
  | inl e ↦ absurd (ground (arith, e, h))
  | inr e ↦
      let same : x ≡ s = ground (arith, e, h) in
      (ap text same, ap (λ y. str_eq y "") (sym same) ∙ e)
]
require_str-ok _ s h = absurd (cc h)

read_version-ok :
    (m : Members) (v : ℕ)
    → read_version m ≡ ok v
    → (get m "schemaVersion" ≡ some (integer v)) × (v ≡ 1)
unfolding read_version
read_version-ok m v h = ground arith

require_enum-ok :
    {A : Type 0} (value_of : A → String) (members : List A) (v : Value) (a : A)
    → require_enum value_of members v ≡ ok a
    → v ≡ text (value_of a)
unfolding require_enum
require_enum-ok value_of members v a h =
    let (raw, e, f) = >>=-eq-ok h in
    let g = by_value-eq-some value_of members raw (require-eq-ok _ f) in
    (require_str-ok v raw e).0 ∙ ap text (sym g)

field-ok : (m : Members) (name : String) (v : Value) → field m name ≡ ok v → get m name ≡ some v
field-ok m name v h = require-eq-ok _ h

module _ (uuid : String → Option Uuid) (fromisoformat : String → Option Moment) where
  uuid_version-eq : (v : Option ℕ) → is_uuid_version v ≡ true → v ≡ some 4
  uuid_version-eq v h = ground arith

  require_uuid4-ok :
      (v : Value) (s : String)
      → require_uuid4 uuid v ≡ ok s
      → (v ≡ text s)
        × (str_eq s "" ≡ false)
        × (uuid s ≡ some (record { version = some 4; canonical = s }))
  unfolding require_uuid4
  require_uuid4-ok v s h =
      let (raw, e1, h1) = >>=-eq-ok h in
      let (u, e2, h2) = >>=-eq-ok h1 in
      let (t1, e3, h3) = >>=-eq-ok h2 in
      let (t2, e4, h4) = >>=-eq-ok h3 in
      let same : raw ≡ s = ground (arith, h4) in
      let here = require_str-ok v raw e1 in
      let version = uuid_version-eq u.version (guard-eq-ok _ e3) in
      let canonical : u.canonical ≡ raw = (eq_iff u.canonical raw).0 (guard-eq-ok _ e4) in
      let found : uuid raw ≡ some u = require-eq-ok _ e2 in
      (
        here.0 ∙ ap text same,
        ap (λ y. str_eq y "") (sym same) ∙ here.1,
        ground (arith, found, same, version, canonical),
      )

  from_wire-fields :
      (m : Members) (r : GatekeeperRunRequest)
      → from_wire uuid fromisoformat (dict m) ≡ ok r
      → (read_version m ≡ ok r.schema_version)
        × (all is_known (keys m) ≡ true)
        × ((field m "requestTimestamp" >>= require_str) ≡ ok r.request_timestamp)
        × ((field m "runRequestId" >>= require_uuid4 uuid) ≡ ok r.run_request_id)
        × ((field m "intakeId" >>= require_str) ≡ ok r.intake_id)
        × ((field m "stage3RunId" >>= require_str) ≡ ok r.stage3_run_id)
        × ((field m "gate" >>= require_enum gate_value gate_order) ≡ ok r.gate_id)
        × ((field m "mode" >>= require_enum run_mode_value run_modes) ≡ ok r.mode)
        × ((field m "triggeredBy" >>= require_enum triggered_by_value triggers) ≡ ok r.triggered_by)
        × (parse_rfc3339 fromisoformat r.request_timestamp ≢ none)
  unfolding from_wire
  from_wire-fields m r h = ground arith

  field_str :
      (m : Members) (name s : String)
      → (field m name >>= require_str) ≡ ok s
      → (get m name ≡ some (text s)) × (str_eq s "" ≡ false)
  field_str m name s h =
      let (v, e, f) = >>=-eq-ok h in
      let here = require_str-ok v s f in (field-ok m name v e ∙ ap some here.0, here.1)

  field_enum :
      {A : Type 0} (m : Members) (name : String) (value_of : A → String) (members : List A) (a : A)
      → (field m name >>= require_enum value_of members) ≡ ok a
      → get m name ≡ some (text (value_of a))
  field_enum m name value_of members a h =
      let (v, e, f) = >>=-eq-ok h in
      field-ok m name v e ∙ ap some (require_enum-ok value_of members v a f)

  field-uuid :
      (m : Members) (s : String)
      → (field m "runRequestId" >>= require_uuid4 uuid) ≡ ok s
      → (get m "runRequestId" ≡ some (text s))
        × (str_eq s "" ≡ false)
        × (uuid s ≡ some (record { version = some 4; canonical = s }))
  field-uuid m s h =
      let (v, e, f) = >>=-eq-ok h in
      let here = require_uuid4-ok v s f in
      (field-ok m "runRequestId" v e ∙ ap some here.0, here.1, here.2)

  parsed : {o : Option Time} → o ≢ none → (t : Time) × (o ≡ some t)
  parsed {o = some t} h = (t, refl)
  parsed {o = none} h = absurd (h refl)

  -- Parsing is strict: what the codec accepts is an object whose keys are the eight names and no other,
  -- and the request that it reads can go on the wire, where each name has the value that the object has.
  pub from_wire_ok :
      (v : Value) (r : GatekeeperRunRequest)
      → from_wire uuid fromisoformat v ≡ ok r
      → IsSendable uuid fromisoformat r
        × ((m : Members) × (v ≡ dict m)
            × (all is_known (keys m) ≡ true)
            × All (λ name. get m name ≡ get (to_wire r) name) json_names)
  unfolding to_wire
  from_wire_ok (dict m) r h =
      let fields = from_wire-fields m r h in
      let version = read_version-ok m r.schema_version fields.0 in
      let stamp = field_str m "requestTimestamp" r.request_timestamp fields.2 in
      let id = field-uuid m r.run_request_id fields.3 in
      let intake = field_str m "intakeId" r.intake_id fields.4 in
      let stage3 = field_str m "stage3RunId" r.stage3_run_id fields.5 in
      let some_time = parsed fields.9 in
      (
        record {
          version = version.1;
          run_id = id.1;
          is_uuid = id.2;
          intake = intake.1;
          stage3 = stage3.1;
          timestamp = stamp.1;
          time = some_time.0;
          parses = some_time.1;
        },
        (
          m,
          refl,
          fields.1,
          (
            version.0,
            (
              id.0,
              (
                intake.0,
                (
                  stage3.0,
                  (
                    field_enum m "gate" gate_value gate_order r.gate_id fields.6,
                    (
                      field_enum m "mode" run_mode_value run_modes r.mode fields.7,
                      (
                        field_enum m "triggeredBy" triggered_by_value triggers r.triggered_by
                            fields.8,
                        (stamp.0, tt),
                      ),
                    ),
                  ),
                ),
              ),
            ),
          ),
        ),
      )
  from_wire_ok _ r h = unfold from_wire in absurd (cc h)
