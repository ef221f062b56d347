-- ===== src/Worker.antt =====
-- `run_gate` of gatekeeper/worker/main.py. The gate's own work, `runner`, is a parameter: it may do
-- anything to the two collections, through its lease guard also to the run, and ends with its counters
-- or with a GatekeeperError; another exception, which ends the process with nothing more written, is
-- left out. `publishes` says whether a publisher is configured.
pub mod Chain
use lakshmana_core.Prelude.{
  ℕ, Bool, true, false, not, String, Option, none, some, List, [], ◌∷◌, if◌then◌else◌,
}
use lakshmana_core.Enums.{Gate, ErrorCode, system}
use lakshmana_core.Enums.Order.{next_gate}
use lakshmana_core.Firestore.{Collection}
use lakshmana_core.Firestore.Txn.{returned, txn_error}
use lakshmana_core.Runs.{Time, Counters, GatekeeperRun, GatekeeperRunRequest, gate, to_request}
use lakshmana_core.Runs.Settle.{owned_by}
use lakshmana_core.Store.{commit_gate, fail_gate}
use lakshmana_core.Queue.{QueuedPair}
use lakshmana_core.Finalize.{
  Tally, Finish, exits, raises, exit_ok, exit_gate_failed, exit_bad_invocation, finish,
}

-- How a gate's work ends.
pub data GateResult : Type 0 where
  counted : Counters → GateResult
  gatekeeper_error : ErrorCode → String → GateResult

-- What a worker leaves: the two collections, the published messages, and its end.
pub record Worked (R Q : Type 0) : Type 0 where
  pub runs_state : R
  pub queue_state : Q
  pub published : List GatekeeperRunRequest
  pub ending : Finish

-- A worker has two transactions at most: the gate's end, and FINALIZE.
module _ (runs : Collection GatekeeperRun) (pairs : Collection QueuedPair)
    (aborted finalize_aborted : ℕ → Bool) (others finalize_others : ℕ → runs.State → runs.State)
    (detail : Tally → String)
    (runner : GatekeeperRun
      → Gate
      → pairs.State
      → runs.State
      → pairs.State × runs.State × GateResult)
    (publishes : Bool) (now server : Time) where
  -- After the commit: the message of the next gate, or FINALIZE.
  unfoldable pub follow :
      String → GatekeeperRun → Gate → pairs.State → runs.State → Worked runs.State pairs.State
  follow k run g queue s = elim (next_gate g) [
    | none ↦
        let (s', end) =
          finish runs pairs finalize_aborted finalize_others detail k now server queue s in
        record { runs_state = s'; queue_state = queue; published = []; ending = end }
    | some h ↦ record {
      runs_state = s;
      queue_state = queue;
      published = if publishes then to_request run h system ∷ [] else [];
      ending = exits exit_ok;
    }
  ]

  unfoldable pub run_gate :
      String → Gate → String → pairs.State → runs.State → Worked runs.State pairs.State
  run_gate k g owner queue s =
      let idle : Worked runs.State pairs.State = record {
        runs_state = s;
        queue_state = queue;
        published = [];
        ending = exits exit_bad_invocation;
      } in
      elim (runs.find s k) [
        | none ↦ idle
        | some run ↦
            if not (owned_by (gate run g) owner)
            then idle
            else let (queue', s', result) = runner run g queue s in
              elim result [
                | gatekeeper_error code text ↦
                    let (s'', failed) =
                      fail_gate runs aborted others k g owner code text none now server s' in
                    record {
                      runs_state = s'';
                      queue_state = queue';
                      published = [];
                      ending = elim failed [
                        | returned b ↦ exits exit_gate_failed
                        | txn_error ↦ raises
                      ];
                    }
                | counted counters ↦
                    let (s'', stored) =
                      commit_gate runs aborted others k g owner (some counters) now server s' in
                    elim stored [
                      | returned true ↦ follow k run g queue' s''
                      | returned false ↦ record {
                        runs_state = s'';
                        queue_state = queue';
                        published = [];
                        ending = exits exit_bad_invocation;
                      }
                      | txn_error ↦ record {
                        runs_state = s'';
                        queue_state = queue';
                        published = [];
                        ending = raises;
                      }
                    ]
              ]
      ]
