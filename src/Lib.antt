-- ===== src/Lib.antt =====
-- Lakshmana core, the gatekeeper: a cascade of four gates that judges pairs of claims. A run has one
-- document in Firestore, with an entry for each gate, and one row for each pair in a queue. A message
-- for a gate makes the dispatcher claim it, in a transaction, and start a worker; the worker leases
-- rows, scores and routes them, commits the gate and publishes the message of the next one; after the
-- last gate it reconciles the totals. A sweeper rescues gates whose lease has run out and publishes
-- lost messages again.
--
-- Files, with the code that each is about (paths from the repository's root):
--   Enums            gatekeeper/enums.py and errors.py: the enumerations; Enums/Order: the gates' order.
--   Decisions        gatekeeper/gates/decisions.py: decide_g1, decide_g2, decide_g3 and their scores.
--   Firestore        the interface of the external document store: a collection with find, set, delete
--                    and docs, and its laws. Firestore/Memory meets it, Firestore/Txn has the rounds of
--                    `_commit` of gatekeeper/runs/store.py.
--   Runs             gatekeeper/runs/model.py. Runs/Claim and Runs/Settle are the transaction bodies of
--                    gatekeeper/runs/store.py on one document, Runs/Step their union as a relation;
--                    Runs/Invariant, Final, Lease and Liveness are about them. Runs/Spec is the
--                    abstract run, without the document's layout; Runs/Refine relates the two.
--   Store            GatekeeperRunStore of gatekeeper/runs/store.py on the whole collection.
--   Queue            PairQueue of gatekeeper/worker/queue.py, GraphPair of gatekeeper/worker/hydrate.py.
--   Finalize         gatekeeper/worker/finalize.py, and _finalize of gatekeeper/worker/main.py.
--   Sweep            gatekeeper/dispatcher/sweep.py.
--   Routing          _routing of gatekeeper/gates/g1.py, g2.py and g3.py.
--   Tail             _judge_batch, _reject and _record_shadow of gatekeeper/gates/g4.py.
--   Loop             the batch loop of run_g1, run_g2, run_g3 and run_g4 and what each does to a batch.
--                    Loop/Rows, Round and Keep follow the row of an id through a round; Loop/Drain,
--                    Empty and Complete follow the loop; Loop/Steps is about the four gates.
--   Cascade          run_g1, run_g2, run_g3 and run_g4 over the queue, one after another.
--   Edges            edge_key and EdgeVerdict of gatekeeper/worker/edges.py. Edges/Scores: the stage
--                    scores; Edges/Purge: the deletion of a run's rows.
--   Values           the values that documents, messages, settings and counters are made of.
--   Wire             Wire/Payload: gatekeeper/contracts/payload.py and parse_rfc3339 of
--                    gatekeeper/timeutil.py. Wire/Push: gatekeeper/contracts/pubsub.py.
--                    Wire/Documents: the Firestore forms of gatekeeper/runs/model.py and
--                    gatekeeper/worker/queue.py.
--   Dispatcher       the push handler of gatekeeper/dispatcher/app.py.
--   Settings         gatekeeper/config.py.
--   Prompts          parse_g4_response of gatekeeper/gates/prompts.py.
--   Worker           run_gate of gatekeeper/worker/main.py, with the gate's work as a parameter.
--   Examples         inputs that meet the hypotheses of the theorems, and the theorems at them.
--   Prelude          shared names, Boolean tests, lists, text and the order of strings.
--
-- How the code is rendered:
--   - A transaction reads one state of a collection and writes it at the end, so it is a function on
--     states; what other clients do between two rounds and whether a round is aborted are parameters.
--     A document body is a record, and an update writes its fields. An exception is a value; one of the
--     model's client or of the answer's parser that `_judge_batch` does not catch ends its loop.
--   - The query of claim_batch runs outside its transaction, so the claim takes two states: the one that
--     the query saw and the one that the transaction reads. In the batch loops they are the same.
--   - A time is a natural number of microseconds, and `now` and the commit's server time are arguments.
--   - A score is a finite non-negative double, that is a multiple of 2 ^ -1074, and is modelled by that
--     multiple, so comparisons are exact.
--   - The loop of route_all over chunks of 200 runs on fuel, one unit for each update, which is enough
--     since a chunk takes at least one. The batch loop of a gate runs on fuel, one unit more than the
--     queue has documents, which is enough since each round takes a row away from the gate. All other
--     loops are structural; _commit has four rounds.
--   - A JSON value and a Firestore value is decoded data, read by key. `json`, `base64`, `UUID`,
--     `datetime.fromisoformat`, `int`, `float`, `strip`, `upper` and the OIDC verifier are parameters.
--
-- Not modelled: the clients of Pub/Sub, Neo4j and Vertex, the job launcher and the other HTTP routes, which
-- are input and output; the models and scorers, whose scores are arguments; the prompt's text;
-- the spend in dollars, which is a sum of doubles; the counters of the gates; logging
-- and the replay harness. Messages are elements of a list of published requests.
pub mod Prelude
pub mod Enums
pub mod Decisions
pub mod Firestore
pub mod Runs
pub mod Settings
pub mod Store
pub mod Queue
pub mod Finalize
pub mod Sweep
pub mod Dispatcher
pub mod Edges
pub mod Routing
pub mod Tail
pub mod Cascade
pub mod Loop
pub mod Wire
pub mod Worker
pub mod Examples
pub mod Prompts
pub mod Values
