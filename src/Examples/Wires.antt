-- ===== src/Examples/Wires.antt =====
-- Messages and documents.
use lakshmana_core.Prelude.{true, String, Option, none, some, ◌≡◌, refl, All, all}
use lakshmana_core.Enums.{g2_corroboration, full}
use lakshmana_core.Runs.{GatekeeperRunRequest, no_totals}
use lakshmana_core.Wire.{Value, text, integer, dict, Members, done, member, get, keys, ok}
use lakshmana_core.Wire.Payload.{
  Moment, aware, Uuid, parse_rfc3339, to_wire, from_wire, from_bytes, json_names, is_known,
  read_version, require_str, require_uuid4, require_enum,
}
use lakshmana_core.Wire.RoundTrip.{IsSendable, from_wire-to_wire}
use lakshmana_core.Wire.Strict.{from_wire_ok}
use lakshmana_core.Wire.Push.{PushMessage, parse_push_envelope}
use lakshmana_core.Wire.Documents.{
  entry_to_firestore, entry_from_firestore, totals_to_firestore, totals_from_firestore,
  row_to_firestore, row_from_firestore,
}
use lakshmana_core.Wire.Stored.{documents_kept}
use lakshmana_core.Examples.{message, row, failed_entry}

-- Every text is a canonical UUIDv4, and every text with a zone a time.
abbrev pub uuid : String → Option Uuid
uuid s = some (record { version = some 4; canonical = s })

abbrev pub fromisoformat : String → Option Moment
fromisoformat s = some (aware 5)

abbrev pub request : GatekeeperRunRequest
request = message "r1" g2_corroboration full

pub request-IsSendable : IsSendable uuid fromisoformat request
unfolding parse_rfc3339
request-IsSendable = record {
  version = refl;
  run_id = refl;
  is_uuid = refl;
  intake = refl;
  stage3 = refl;
  timestamp = refl;
  time = 5;
  parses = refl;
}

from_wire-to_wire_example : from_wire uuid fromisoformat (dict (to_wire request)) ≡ ok request
from_wire-to_wire_example = from_wire-to_wire uuid fromisoformat request request-IsSendable

-- The same fields in another order.
abbrev shuffled : Members
shuffled = member "gate" (text "G2_CORROBORATION") (
    member "mode" (text "FULL") (
      member "schemaVersion" (integer 1) (
        member "requestTimestamp" (text "2026-01-01T00:00:00Z") (
          member "triggeredBy" (text "OPERATOR") (
            member "stage3RunId" (text "stage3")
              (member "intakeId" (text "intake") (member "runRequestId" (text "r1") done)))))))

shuffled-read : from_wire uuid fromisoformat (dict shuffled) ≡ ok request
unfolding from_wire read_version require_str require_uuid4 require_enum parse_rfc3339
shuffled-read = refl

from_wire_ok_example :
    IsSendable uuid fromisoformat request
    × ((m : Members) × (dict shuffled ≡ dict m)
        × (all is_known (keys m) ≡ true)
        × All (λ name. get m name ≡ get (to_wire request) name) json_names)
from_wire_ok_example = from_wire_ok uuid fromisoformat (dict shuffled) request shuffled-read

-- The envelope of a delivery; its data stands for the bytes themselves.
abbrev pub envelope : Value
envelope = dict (
    member "message" (dict (member "data" (text "ZGF0YQ==") (member "messageId" (integer 7) done)))
      (member "deliveryAttempt" (integer 2) done))

abbrev pub b64decode : String → Option String
b64decode s = some s

abbrev pub loads : String → Option Value
loads s = some (dict (to_wire request))

abbrev pub str : Value → String
str v = "7"

abbrev delivered : PushMessage
delivered = record {
  request = request;
  message_id = "7";
  publish_time = "";
  delivery_attempt = some (integer 2);
  subscription = "";
}

pub envelope-read :
    parse_push_envelope b64decode loads str uuid fromisoformat envelope ≡ ok delivered
unfolding parse_push_envelope from_bytes from_wire to_wire read_version require_str require_uuid4
    require_enum parse_rfc3339
envelope-read = refl

documents_kept_example :
    (entry_from_firestore (λ v. none) (λ v. none) (λ s. none) (entry_to_firestore failed_entry)
      ≡ some failed_entry)
    × (totals_from_firestore (λ v. none) (λ v. none) (λ s. none) (totals_to_firestore no_totals)
        ≡ some no_totals)
    × (row_from_firestore (λ v. none) (λ v. none) (λ s. none) "p1" (row_to_firestore (row "p1"))
        ≡ some (row "p1"))
documents_kept_example =
    documents_kept (λ v. none) (λ v. none) (λ s. none) failed_entry no_totals (row "p1")
