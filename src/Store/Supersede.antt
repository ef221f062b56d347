-- ===== src/Store/Supersede.antt =====
-- FROM_START: what opening a run does to the other runs of its Stage 3 run.
use mathlib.Core.List.{Memᴰ}
use mathlib.Core.Option.{some-injective}
use lakshmana_core.Prelude.{
  Bool, true, false, String, str_eq, eq_iff, eq_refl, none, some, List, [], ◌∷◌, ◌≡◌, refl, sym,
  ◌∙◌, ap, All, arith, Bool-cases, inl, inr, ◌⊎◌, select, All-select, mem-select,
}
use lakshmana_core.Firestore.{Collection}
use lakshmana_core.Firestore.Laws.{find-set_self, find-set_ne, Holds}
use lakshmana_core.Runs.{Time, GatekeeperRun, GatekeeperRunRequest}
use lakshmana_core.Runs.Claim.{may_open, is_live, superseded_run, created_run}
use lakshmana_core.Store.{Claimant, predecessors, supersede_all, claim_txn}
use lakshmana_core.Store.Cases.{claim_txn-opened}

module _ (col : Collection GatekeeperRun) where
  open col use {State, find, set, docs, docs_sound, docs_complete}

  -- No document of the list has the id `j`.
  abbrev Spares : String → List (String × GatekeeperRun) → Type 0
  Spares j = All (λ (d : String × GatekeeperRun). str_eq d.0 j ≡ false)

  find-supersede_all :
      (ds : List (String × GatekeeperRun)) (by : String) (server : Time) (s : State) (j : String)
      → Spares j ds
      → find (supersede_all col ds by server s) j ≡ find s j
  unfolding supersede_all
  find-supersede_all [] by server s j h = refl
  find-supersede_all ((k, run) ∷ ds) by server s j h =
      find-supersede_all ds by server (set s k (superseded_run run by server)) j h.1
      ∙ find-set_ne col s k j (superseded_run run by server) h.0

  -- A document that is live after the superseding was not on the list, and is as it was.
  live-supersede_all :
      (ds : List (String × GatekeeperRun)) (by : String) (server : Time) (s : State) (j : String)
      (run : GatekeeperRun)
      → find (supersede_all col ds by server s) j ≡ some run
      → is_live run.state ≡ true
      → (find s j ≡ some run) × Spares j ds
  unfolding supersede_all
  live-supersede_all [] by server s j run e l = (e, tt)
  live-supersede_all ((k, old) ∷ ds) by server s j run e l =
      let after = set s k (superseded_run old by server) in
      let (e', spared) = live-supersede_all ds by server after j run e l in
      elim (Bool-cases (str_eq k j)) [
        | inl same ↦
            let found = find-set_self col s k (superseded_run old by server) in
            let here : superseded_run old by server ≡ run =
              some-injective _ _ (cc (found, e', (eq_iff k j).0 same)) in
            cc (ap (λ (r : GatekeeperRun). is_live r.state) here, l)
        | inr other ↦
            (sym (find-set_ne col s k j (superseded_run old by server) other) ∙ e', (other, spared))
      ]

  spared_not_mem :
      {j : String} {run : GatekeeperRun} {ds : List (String × GatekeeperRun)}
      → Spares j ds
      → Memᴰ (j, run) ds
      → ⊥
  spared_not_mem {j} h (Memᴰ.head e) =
      cc (h.0, eq_refl j, ap (λ (d : String × GatekeeperRun). d.0) e)
  spared_not_mem h (Memᴰ.tail m) = spared_not_mem h.1 m

  predecessor :
      (s : State) (request : GatekeeperRunRequest) (j : String) (run : GatekeeperRun)
      → find s j ≡ some run
      → run.stage3_run_id ≡ request.stage3_run_id
      → is_live run.state ≡ true
      → str_eq j request.run_request_id ≡ false
      → Memᴰ (j, run) (predecessors col s request)
  unfolding predecessors
  predecessor s request j run e same live other =
      mem-select _ (rw (other, live) refl)
        (mem-select _ ((eq_iff _ _).1 same) (docs_complete s j run e))

  -- When a FULL message for G1 opens a run under an id that no document has, the new run is the
  -- only live run of its Stage 3 run: every document that is live afterwards and has the same
  -- `stage3RunId` stands under the new id.
  pub claim-sole :
      (request : GatekeeperRunRequest) (c : Claimant) (s : State) (j : String) (run : GatekeeperRun)
      → may_open request ≡ true
      → find s request.run_request_id ≡ none
      → find (claim_txn col request c s).0 j ≡ some run
      → run.stage3_run_id ≡ request.stage3_run_id
      → is_live run.state ≡ true
      → j ≡ request.run_request_id
  claim-sole request c s j run opens new e same live =
      let made =
        created_run request c.lease_owner c.judge_mode c.config_snapshot c.now c.lease c.server in
      let (e', spared) =
        live-supersede_all (predecessors col s request) request.run_request_id c.server
          (set s request.run_request_id made) j run
          (rw (claim_txn-opened col request c s opens new) at e) live in
      elim (Bool-cases (str_eq request.run_request_id j)) [
        | inl here ↦ sym ((eq_iff _ _).0 here)
        | inr there ↦ absurd (
            spared_not_mem spared (
              predecessor s request j run
                (sym (find-set_ne col s request.run_request_id j made there) ∙ e') same live
                (other j request.run_request_id there)))
      ]
    where
      other : (j k : String) → str_eq k j ≡ false → str_eq j k ≡ false
      other j k h = elim (Bool-cases (str_eq j k)) [
        | inl e ↦ cc (h, eq_refl k, (eq_iff j k).0 e)
        | inr e ↦ e
      ]

  unspared :
      (p : String × GatekeeperRun → Bool) (ds : List (String × GatekeeperRun)) (j : String)
      (run : GatekeeperRun) (s : State)
      → Holds col s ds
      → find s j ≡ some run
      → p (j, run) ≡ false
      → Spares j (select p ds)
  unspared p [] j run s h e stays = tt
  unspared p ((k, old) ∷ ds) j run s h e stays = elim (Bool-cases (p (k, old))) [
    | inr out ↦ rw out (unspared p ds j run s h.1 e stays)
    | inl chosen ↦ rw chosen (differs chosen, unspared p ds j run s h.1 e stays)
  ]
    where
      differs : p (k, old) ≡ true → str_eq k j ≡ false
      differs chosen = elim (Bool-cases (str_eq k j)) [
        | inr other ↦ other
        | inl same ↦
            let k-j : k ≡ j = (eq_iff k j).0 same in
            let old-run : old ≡ run = some-injective old run (cc (h.0, e, k-j)) in
            cc (chosen, stays, k-j, old-run)
      ]

  Spares-select :
      (p : String × GatekeeperRun → Bool) (ds : List (String × GatekeeperRun)) (j : String)
      → Spares j ds
      → Spares j (select p ds)
  Spares-select p ds j h = All-select _ _ p ds (λ d e k. k) h

  -- When a FULL message for G1 opens a run under an id that no document has, every other document
  -- stays as it was that belongs to another Stage 3 run or is no longer live, FAILED ones
  -- included.
  pub claim-spares :
      (request : GatekeeperRunRequest) (c : Claimant) (s : State) (j : String) (run : GatekeeperRun)
      → may_open request ≡ true
      → find s request.run_request_id ≡ none
      → find s j ≡ some run
      → (str_eq run.stage3_run_id request.stage3_run_id ≡ false) ⊎ (is_live run.state ≡ false)
      → find (claim_txn col request c s).0 j ≡ some run
  unfolding predecessors
  claim-spares request c s j run opens new e out = rw (claim_txn-opened col request c s opens new) (
      find-supersede_all (predecessors col s request) request.run_request_id c.server _ j spared
      ∙ (find-set_ne col s request.run_request_id j _ apart ∙ e))
    where
      apart : str_eq request.run_request_id j ≡ false
      apart = elim (Bool-cases (str_eq request.run_request_id j)) [
        | inr other ↦ other
        | inl same ↦ cc (new, e, (eq_iff _ _).0 same)
      ]

      same_stage : List (String × GatekeeperRun)
      same_stage = select (λ d. str_eq d.1.stage3_run_id request.stage3_run_id) (docs s)

      spared : Spares j (predecessors col s request)
      spared = elim out [
        | inl far ↦ Spares-select _ same_stage j (unspared _ (docs s) j run s (docs_sound s) e far)
        | inr dead ↦
            unspared _ same_stage j run s (All-select _ _ _ (docs s) (λ d x h. h) (docs_sound s)) e
              (ground arith)
      ]
