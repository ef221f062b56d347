-- ===== src/Wire/Documents.antt =====
-- The Firestore forms of the entries and totals of gatekeeper/runs/model.py and of the rows of
-- gatekeeper/worker/queue.py. A reader returns `none` where the code raises, and where a document holds a
-- value that the field does not have here: of another type, or a `decidedBy` that is no member of `Method`,
-- both of which the code would store unseen. `int` and `float` of
-- a value that is no number, and the parser of timestamps, are parameters.
use lakshmana_core.Prelude.{
  ℕ, Bool, true, false, not, String, str_eq, Option, none, some, List, [], ◌∷◌, ◌==◌, if◌then◌else◌,
}
use lakshmana_core.Prelude.Order.{str_min, str_max}
use lakshmana_core.Enums.{
  GateState, gate_order, gate_value, gate_states, gate_state_value, error_codes, error_code_value,
  queue_tiers, queue_tier_value, cascade, Method, ensemble, rule, embedding, gk_g1_nli,
  gk_g2_grounding, gk_g3_xcheck, gk_g4_llm, method_value,
}
use lakshmana_core.Decisions.{Score, get_or}
use lakshmana_core.Runs.{Time, Counters, GateEntry, RunTotals}
use lakshmana_core.Queue.{QueuedPair}
use lakshmana_core.Values.{finite}
use lakshmana_core.Wire.{
  Value, null, boolean, integer, negative, real, text, instant, dict, other, Members, done, member,
  get, by_value,
}

infixl 5 ◌>>=◌
abbrev ◌>>=◌ : {A B : Type 0} → Option A → (A → Option B) → Option B
none >>= f = none
some a >>= f = f a

-- The members of `Method`.
abbrev pub methods : List Method
methods = ensemble ∷ rule ∷ embedding ∷ gk_g1_nli ∷ gk_g2_grounding ∷ gk_g3_xcheck ∷ gk_g4_llm ∷ []

-- A value that may be missing, as the field of a document.
abbrev pub text_or_null : Option String → Value
text_or_null none = null
text_or_null (some s) = text s

abbrev pub instant_or_null : Option Time → Value
instant_or_null none = null
instant_or_null (some t) = instant t

-- `to_firestore` of an entry, of the totals and of a row.
unfoldable pub entry_to_firestore : GateEntry → Members
entry_to_firestore e = member "state" (text (gate_state_value e.state)) (
    member "attempt" (integer e.attempt) (
      member "sweepAttempt" (integer e.sweep_attempt) (
        member "leaseOwner" (text_or_null e.lease_owner) (
          member "leaseExpiresAt" (instant_or_null e.lease_expires_at) (
            member "startedAt" (instant_or_null e.started_at) (
              member "endedAt" (instant_or_null e.ended_at) (
                member "counters" (dict e.counters) (
                  member "errorCode"
                    (elim e.error_code [ none ↦ null | some c ↦ text (error_code_value c) ])
                    (member "errorDetail" (text_or_null e.error_detail) done)))))))))

unfoldable pub totals_to_firestore : RunTotals → Members
totals_to_firestore t = member "pairsSeen" (integer t.pairs_seen) (
    member "decidedByGates" (integer t.decided_by_gates) (
      member "escalatedLlm" (integer t.escalated_llm) (
        member "escalatedHuman" (integer t.escalated_human) (
          member "shadowDisagreed" (integer t.shadow_disagreed)
            (member "llmSpendUsd" (real (finite t.llm_spend_usd)) done)))))

unfoldable pub row_to_firestore : QueuedPair → Members
row_to_firestore p = member "stage3RunId" (text p.stage3_run_id) (
    member "intakeId" (text p.intake_id) (
      member "claimAId" (text p.claim_a_id) (
        member "claimBId" (text p.claim_b_id) (
          member "claimIdLow" (text (str_min p.claim_a_id p.claim_b_id)) (
            member "claimIdHigh" (text (str_max p.claim_a_id p.claim_b_id)) (
              member "rank" (integer p.rank) (
                member "withContext" (boolean p.with_context) (
                  member "humanAsserted" (boolean p.human_asserted) (
                    member "tier" (text (queue_tier_value p.tier)) (
                      member "gate" (elim p.gate [ none ↦ null | some g ↦ text (gate_value g) ])
                        (member "contradictionFlag" (boolean p.contradiction_flag) (
                          member "decidedBy"
                            (elim p.decided_by [ none ↦ null | some m ↦ text (method_value m) ])
                            (member "gkRunRequestId" (text_or_null p.gk_run_request_id) (
                              member "leaseOwner" (text_or_null p.lease_owner) (
                                member "leaseExpiresAt" (instant_or_null p.lease_expires_at)
                                  done)))))))))))))))

-- `bool(v)`, the truth of a value.
abbrev pub is_true : Value → Bool
is_true null = false
is_true (boolean b) = b
is_true (integer n) = not (n == 0)
is_true (negative n) = true
is_true (real (finite x)) = not (x == 0)
is_true (real _) = true
is_true (text s) = not (str_eq s "")
is_true (instant t) = true
is_true (dict done) = false
is_true (dict (member k v rest)) = true
is_true (other b) = b

-- `data.get(key)`, `None` where the key is missing.
abbrev pub at : Members → String → Value
at m key = get_or (get m key) null

abbrev pub as_text : Value → Option (Option String)
as_text null = some none
as_text (text s) = some (some s)
as_text _ = none

-- `dict(data.get("counters") or {})`
abbrev pub as_counters : Value → Option Counters
as_counters (dict inner) = some inner
as_counters v = if is_true v then none else some done

-- `Enum(data.get(key, default))`
abbrev pub enum_at : {A : Type 0} → (A → String) → List A → Members → String → A → Option A
enum_at value_of members m key default = elim (get m key) [
  | none ↦ some default
  | some (text s) ↦ by_value value_of members s
  | some _ ↦ none
]

-- `Enum(raw) if raw else None`
abbrev pub maybe_enum : {A : Type 0} → (A → String) → List A → Value → Option (Option A)
maybe_enum value_of members v =
    if not (is_true v)
    then some none
    else elim v [ text s ↦ by_value value_of members s >>= λ a. some (some a) | _ ↦ none ]

module _ (int : Value → Option ℕ) (float : Value → Option Score)
    (parse : String → Option Time) where
  -- `int(v)`, `float(v)` and `_decode_timestamp(v)`
  abbrev pub as_int : Value → Option ℕ
  as_int (integer n) = some n
  as_int v = int v

  abbrev pub as_float : Value → Option Score
  as_float (real (finite x)) = some x
  as_float v = float v

  unfoldable pub decode_timestamp : Value → Option (Option Time)
  decode_timestamp null = some none
  decode_timestamp (instant t) = some (some t)
  decode_timestamp (text s) = parse s >>= λ t. some (some t)
  decode_timestamp _ = none

  -- `int(data.get(key, 0))`
  abbrev pub int_at : Members → String → Option ℕ
  int_at m key = as_int (get_or (get m key) (integer 0))

  -- `from_firestore` of an entry, where `data or {}` is the document's map.
  unfoldable pub entry_from_firestore : Members → Option GateEntry
  entry_from_firestore m = do
    state ← enum_at gate_state_value gate_states m "state" GateState.pending
    attempt ← int_at m "attempt"
    sweep_attempt ← int_at m "sweepAttempt"
    lease_owner ← as_text (at m "leaseOwner")
    lease_expires_at ← decode_timestamp (at m "leaseExpiresAt")
    started_at ← decode_timestamp (at m "startedAt")
    ended_at ← decode_timestamp (at m "endedAt")
    counters ← as_counters (at m "counters")
    error_code ← maybe_enum error_code_value error_codes (at m "errorCode")
    error_detail ← as_text (at m "errorDetail")
    some (record {
      state = state;
      attempt = attempt;
      sweep_attempt = sweep_attempt;
      lease_owner = lease_owner;
      lease_expires_at = lease_expires_at;
      started_at = started_at;
      ended_at = ended_at;
      counters = counters;
      error_code = error_code;
      error_detail = error_detail;
    })

  unfoldable pub totals_from_firestore : Members → Option RunTotals
  totals_from_firestore m = do
    pairs_seen ← int_at m "pairsSeen"
    decided_by_gates ← int_at m "decidedByGates"
    escalated_llm ← int_at m "escalatedLlm"
    escalated_human ← int_at m "escalatedHuman"
    shadow_disagreed ← int_at m "shadowDisagreed"
    llm_spend_usd ← as_float (get_or (get m "llmSpendUsd") (real (finite 0)))
    some (record {
      pairs_seen = pairs_seen;
      decided_by_gates = decided_by_gates;
      escalated_llm = escalated_llm;
      escalated_human = escalated_human;
      shadow_disagreed = shadow_disagreed;
      llm_spend_usd = llm_spend_usd;
    })

  -- `str(data.get(key, ""))`, of a text.
  abbrev pub str_at : Members → String → Option String
  str_at m key = elim (get m key) [ none ↦ some "" | some (text s) ↦ some s | some _ ↦ none ]

  abbrev pub instant_at : Members → String → Option (Option Time)
  instant_at m key = elim (at m key) [ null ↦ some none | instant t ↦ some (some t) | _ ↦ none ]

  -- `from_firestore` of a row, with the document's id.
  unfoldable pub row_from_firestore : String → Members → Option QueuedPair
  row_from_firestore pair_id m = do
    stage3_run_id ← str_at m "stage3RunId"
    intake_id ← str_at m "intakeId"
    claim_a_id ← str_at m "claimAId"
    claim_b_id ← str_at m "claimBId"
    rank ← as_int (let v = at m "rank" in if is_true v then v else integer 0)
    tier ← enum_at queue_tier_value queue_tiers m "tier" cascade
    gate ← maybe_enum gate_value gate_order (at m "gate")
    decided_by ← maybe_enum method_value methods (at m "decidedBy")
    gk_run_request_id ← as_text (at m "gkRunRequestId")
    lease_owner ← as_text (at m "leaseOwner")
    lease_expires_at ← instant_at m "leaseExpiresAt"
    some (record {
      pair_id = pair_id;
      stage3_run_id = stage3_run_id;
      intake_id = intake_id;
      claim_a_id = claim_a_id;
      claim_b_id = claim_b_id;
      rank = rank;
      with_context = is_true (at m "withContext");
      human_asserted = is_true (at m "humanAsserted");
      tier = tier;
      gate = gate;
      contradiction_flag = is_true (at m "contradictionFlag");
      decided_by = decided_by;
      gk_run_request_id = gk_run_request_id;
      lease_owner = lease_owner;
      lease_expires_at = lease_expires_at;
    })
