-- ===== src/Wire/Stored.antt =====
-- What the Firestore forms keep: a document that the program has written is read back as it was.
use lakshmana_core.Prelude.{ℕ, String, Option, none, some, ◌≡◌, refl, arith, if◌then◌else◌}
use lakshmana_core.Enums.{
  Gate, g1_neutral, g2_corroboration, g3_contradiction, g4_escalation, GateState, gate_order,
  gate_value, gate_states, gate_state_value, ErrorCode, error_codes, error_code_value, QueueTier,
  queue_tiers, queue_tier_value, cascade, llm_tail, human, Method, ensemble, rule, embedding,
  gk_g1_nli, gk_g2_grounding, gk_g3_xcheck, gk_g4_llm, method_value, gk_e_schema, gk_e_model_fetch,
  gk_e_neo4j_unavailable, gk_e_firestore_txn, gk_e_vertex, gk_e_cap_exceeded, gk_e_stuck,
  gk_e_g4_dryrun,
}
use lakshmana_core.Decisions.{Score}
use lakshmana_core.Runs.{Time, GateEntry, RunTotals}
use lakshmana_core.Queue.{QueuedPair}
use lakshmana_core.Wire.{Value, null, text, integer, instant, by_value}
use lakshmana_core.Wire.Documents.{
  methods, text_or_null, instant_or_null, is_true, as_text, maybe_enum, as_int, decode_timestamp,
  entry_to_firestore, entry_from_firestore, totals_to_firestore, totals_from_firestore,
  row_to_firestore, row_from_firestore,
}

gate_state_lem :
    (s : GateState) → by_value gate_state_value gate_states (gate_state_value s) ≡ some s
gate_state_lem GateState.pending = refl
gate_state_lem GateState.running = refl
gate_state_lem GateState.succeeded = refl
gate_state_lem GateState.failed = refl
gate_state_lem GateState.skipped = refl

tier_lem : (t : QueueTier) → by_value queue_tier_value queue_tiers (queue_tier_value t) ≡ some t
tier_lem cascade = refl
tier_lem llm_tail = refl
tier_lem human = refl

-- An optional enumeration is `null` or the member's token.
maybe_error_code :
    (c : Option ErrorCode)
    → maybe_enum error_code_value error_codes
        (elim c [ none ↦ null | some e ↦ text (error_code_value e) ])
      ≡ some c
maybe_error_code none = refl
maybe_error_code (some gk_e_schema) = refl
maybe_error_code (some gk_e_model_fetch) = refl
maybe_error_code (some gk_e_neo4j_unavailable) = refl
maybe_error_code (some gk_e_firestore_txn) = refl
maybe_error_code (some gk_e_vertex) = refl
maybe_error_code (some gk_e_cap_exceeded) = refl
maybe_error_code (some gk_e_stuck) = refl
maybe_error_code (some gk_e_g4_dryrun) = refl

maybe_gate :
    (g : Option Gate)
    → maybe_enum gate_value gate_order (elim g [ none ↦ null | some h ↦ text (gate_value h) ])
      ≡ some g
maybe_gate none = refl
maybe_gate (some g1_neutral) = refl
maybe_gate (some g2_corroboration) = refl
maybe_gate (some g3_contradiction) = refl
maybe_gate (some g4_escalation) = refl

maybe_method :
    (m : Option Method)
    → maybe_enum method_value methods (elim m [ none ↦ null | some k ↦ text (method_value k) ])
      ≡ some m
maybe_method none = refl
maybe_method (some ensemble) = refl
maybe_method (some rule) = refl
maybe_method (some embedding) = refl
maybe_method (some gk_g1_nli) = refl
maybe_method (some gk_g2_grounding) = refl
maybe_method (some gk_g3_xcheck) = refl
maybe_method (some gk_g4_llm) = refl

text_lem : (s : Option String) → as_text (text_or_null s) ≡ some s
text_lem none = refl
text_lem (some s) = refl

module _ (int : Value → Option ℕ) (float : Value → Option Score)
    (parse : String → Option Time) where
  instant_lem : (t : Option Time) → decode_timestamp int float parse (instant_or_null t) ≡ some t
  unfolding decode_timestamp
  instant_lem none = refl
  instant_lem (some t) = refl

  rank_lem :
      (n : ℕ)
      → as_int int float parse (if is_true (integer n) then integer n else integer 0) ≡ some n
  rank_lem n = ground arith

  lease_lem :
      (t : Option Time)
      → ◌≡◌ {A = Option (Option Time)}
          (elim (instant_or_null t) [ null ↦ some none | instant u ↦ some (some u) | _ ↦ none ])
          (some t)
  lease_lem none = refl
  lease_lem (some t) = refl

  entry_lem : (e : GateEntry) → entry_from_firestore int float parse (entry_to_firestore e) ≡ some e
  unfolding entry_from_firestore entry_to_firestore
  entry_lem e =
      rw
        (
          gate_state_lem e.state,
          text_lem e.lease_owner,
          instant_lem e.lease_expires_at,
          instant_lem e.started_at,
          instant_lem e.ended_at,
          maybe_error_code e.error_code,
          text_lem e.error_detail,
        )
        refl

  row_lem :
      (p : QueuedPair) → row_from_firestore int float parse p.pair_id (row_to_firestore p) ≡ some p
  unfolding row_from_firestore row_to_firestore
  row_lem p =
      rw
        (
          rank_lem p.rank,
          tier_lem p.tier,
          maybe_gate p.gate,
          maybe_method p.decided_by,
          text_lem p.gk_run_request_id,
          text_lem p.lease_owner,
          lease_lem p.lease_expires_at,
        )
        refl

  -- Firestore keeps what the program writes: a gate's entry with counters of any kind, the totals of a run
  -- with a spend that is finite and not negative, and a row of the queue that no method or one of the
  -- enumeration has decided, are read back from their documents as they were.
  pub documents_kept :
      (e : GateEntry) (t : RunTotals) (p : QueuedPair)
      → (entry_from_firestore int float parse (entry_to_firestore e) ≡ some e)
        × (totals_from_firestore int float parse (totals_to_firestore t) ≡ some t)
        × (row_from_firestore int float parse p.pair_id (row_to_firestore p) ≡ some p)
  unfolding totals_from_firestore totals_to_firestore
  documents_kept e t p = (entry_lem e, refl, row_lem p)
