-- ===== src/Wire/Push.antt =====
-- gatekeeper/contracts/pubsub.py: the envelope in which Pub/Sub pushes a message. The base64 decoder and
-- `json.loads` are parameters, and so is `str` of a value that is no text.
use lakshmana_core.Prelude.{
  String, str_eq, Option, none, some, ◌≡◌, refl, arith, false, inl, inr, Option-cases,
  if◌then◌else◌,
}
use lakshmana_core.Runs.{GatekeeperRunRequest}
use lakshmana_core.Wire.{
  Value, boolean, integer, negative, text, dict, Members, get, not_an_object, bad_envelope, no_data,
  bad_base64, Parsed, ok, err, ◌>>=◌, require,
}
use lakshmana_core.Wire.Payload.{Moment, Uuid, to_wire, from_bytes}
use lakshmana_core.Wire.RoundTrip.{IsSendable, from_wire-to_wire}
use lakshmana_core.Wire.Strict.{from_wire_ok}

-- The delivery attempt is an `int`, which a `bool` also is.
pub record PushMessage : Type 0 where
  pub request : GatekeeperRunRequest
  pub message_id : String
  pub publish_time : String
  pub delivery_attempt : Option Value
  pub subscription : String

module _ {Bytes : Type 0} (b64decode : String → Option Bytes) (loads : Bytes → Option Value)
    (str : Value → String) (uuid : String → Option Uuid)
    (fromisoformat : String → Option Moment) where
  -- `str(m.get(key, ""))`
  abbrev text_at : Members → String → String
  text_at m key = elim (get m key) [ none ↦ "" | some (text s) ↦ s | some v ↦ str v ]

  abbrev int_at : Members → String → Option Value
  int_at m key = elim (get m key) [
    | some (integer n) ↦ some (integer n)
    | some (negative n) ↦ some (negative n)
    | some (boolean b) ↦ some (boolean b)
    | _ ↦ none
  ]

  -- The value under the key, if it is an object; a non-empty text.
  abbrev dict_at : Members → String → Option Members
  dict_at m key = elim (get m key) [ some (dict inner) ↦ some inner | _ ↦ none ]

  abbrev filled_at : Members → String → Option String
  filled_at m key = elim (get m key) [
    | some (text s) ↦ if str_eq s "" then none else some s
    | _ ↦ none
  ]

  unfoldable pub parse_push_envelope : Value → Parsed PushMessage
  parse_push_envelope (dict envelope) = do
    message ← require (dict_at envelope "message") bad_envelope
    data_text ← require (filled_at message "data") no_data
    raw ← require (b64decode data_text) bad_base64
    request ← from_bytes loads uuid fromisoformat raw
    ok (record {
      request = request;
      message_id = text_at message "messageId";
      publish_time = text_at message "publishTime";
      delivery_attempt = int_at envelope "deliveryAttempt";
      subscription = text_at envelope "subscription";
    })
  parse_push_envelope _ = err not_an_object

  -- A delivery of a request that can go on the wire is read back: whatever else the envelope and the
  -- message hold, the request is the one that was published.
  pub parse_push_envelope-to_wire :
      (envelope message : Members) (data_text : String) (raw : Bytes) (r : GatekeeperRunRequest)
      → get envelope "message" ≡ some (dict message)
      → get message "data" ≡ some (text data_text)
      → str_eq data_text "" ≡ false
      → b64decode data_text ≡ some raw
      → loads raw ≡ some (dict (to_wire r))
      → IsSendable uuid fromisoformat r
      → (p : PushMessage) × (parse_push_envelope (dict envelope) ≡ ok p) × (p.request ≡ r)
  unfolding parse_push_envelope from_bytes
  parse_push_envelope-to_wire envelope message data_text raw r m d filled b l sendable =
      let back = from_wire-to_wire uuid fromisoformat r sendable in
      (
        record {
          request = r;
          message_id = text_at message "messageId";
          publish_time = text_at message "publishTime";
          delivery_attempt = int_at envelope "deliveryAttempt";
          subscription = text_at envelope "subscription";
        },
        ground (arith, m, d, filled, b, l, back),
        refl,
      )

  -- No delivery smuggles a request past the codec: what the envelope's parser returns can go on the wire.
  pub parse_push_envelope-IsSendable :
      (v : Value) (p : PushMessage)
      → parse_push_envelope v ≡ ok p
      → IsSendable uuid fromisoformat p.request
  unfolding parse_push_envelope from_bytes
  parse_push_envelope-IsSendable (dict envelope) p h =
      elim (Option-cases (dict_at envelope "message")) [
        | inl e ↦ absurd (ground (arith, e, h))
        | inr (message, e) ↦ elim (Option-cases (filled_at message "data")) [
          | inl f ↦ absurd (ground (arith, e, f, h))
          | inr (data_text, f) ↦ elim (Option-cases (b64decode data_text)) [
            | inl b ↦ absurd (ground (arith, e, f, b, h))
            | inr (raw, b) ↦ elim (Option-cases (loads raw)) [
              | inl l ↦ absurd (ground (arith, e, f, b, l, h))
              | inr (v, l) ↦
                  (from_wire_ok uuid fromisoformat v p.request (ground (arith, e, f, b, l, h))).0
            ]
          ]
        ]
      ]
  parse_push_envelope-IsSendable _ p h = absurd (cc h)
