-- ===== src/Lib.antt =====
-- The durable state of the kernel laboratory (src/ascend_kernel_lab): a controller asks a language
-- model for kernels, round by round; workers on NPU machines lease evaluation jobs from an SQLite
-- database, and changes of state are logged as events. This library models the parts that decide
-- what the database may hold; the paths below are relative to that directory.
--   Prelude              Boolean tests, lists, SQL tables as lists, integers, functions that raise
--   Domain.Enums         domain/enums.py
--   Domain.StateMachine  domain/state_machine.py: the machines of rounds and tasks
--   Domain.Float         Python's float, as far as the code compares it
--   Domain.Scoring       domain/scoring.py, and CandidateScore and BenchmarkSample of
--                        domain/models.py
--   Storage.Events       storage/event_log.py: append, read
--   Storage.Queue        storage/job_queue.py with EvaluationJob and StoredEvaluationJob of
--                        domain/models.py: enqueue, sweep_expired_leases, claim, heartbeat,
--                        complete, fail, cancel, get, list
--   Storage.Store        storage/state_store.py: creation and transition of experiments, tasks and
--                        rounds, register_candidate, register_artifact,
--                        save_candidate_score, set_best_candidate and
--                        select_and_set_best_candidate (the tables stand in storage/database.py)
--   Evaluation           evaluation/orchestrator.py: evaluate_candidate and what it calls
--   Worker               worker/service.py: run_once
--   Controller           orchestration/controller.py: what it reads out of an evaluation, the
--                        online comparison, the final gate and the transitions that
--                        follow an evaluation
-- The queue and the store write one database. Both append to the events table, and neither reads
-- the other's rows, so each has a state of its own with the events in it.
-- A table is the list of its rows in the order of insertion; SELECT, UPDATE and ORDER BY are the
-- functions of Prelude.Table. An operation is one transaction: a function from the state to a
-- result, and one that raises carries no state, as the database is rolled back. SQLite lets one
-- writer in at a time, so a run of the system is a sequence of calls (`serve` of
-- Storage.Queue.Calls, `serve_store` of Storage.Store.Calls), of any callers at any times. Both
-- append their events in the same transaction, by `append` of the event log.
-- Identifiers are numbers: the code compares them for equality alone, and SQLite orders them; 0 is
-- every text that `_require_identifier` refuses, the empty one and those of blanks alone (as the
-- explicit id of an event it is absent, which the code says of the empty one only). A digest is a
-- well-formed one or another text. The canonical JSON text of a value that the caller supplies
-- is a number, for the values that `canonical_json_dumps` encodes, and payloads that the storage
-- layer builds are constructors. Times are microseconds, and a duration is a number of them,
-- negative, or not finite; both are unbounded, so the OverflowError of datetime and timedelta for
-- very long durations is not modelled. What uuid4, utc_now and token_urlsafe return is
-- an argument (`Draw`, `token`), about which nothing is assumed but where a theorem says so. Every
-- function is total by structural recursion, so no fuel is used.
-- A float that is not NaN is the integer of its sign and bit pattern, so the order of floats is
-- computed; the constructors of domain/models.py refuse NaN. The rounded operations and those of
-- the module math are a parameter (`Libm`), and a theorem that needs their laws has them as the
-- hypothesis `IsRounded`. The SELECT of select_and_set_best_candidate has no ORDER BY: the model
-- takes the rows in the order of insertion, which decides between scores with equal keys.
-- An evaluation returns the calls that it makes of the back end, which is a parameter, with its
-- outcome. JSON values are data; str, float, int and letter case of Python are a parameter
-- (`Conversions`), whose floats are no NaN.
-- A worker's call run_once is a function of its surroundings: the clock, what the execution of the
-- job and the health check do, and what other callers and the heartbeat thread make of the queue
-- in the meantime. What it reports is encoded by `canonical_json_dumps` (Worker.Canonical, from
-- storage/database.py), which raises for a number that is not finite; the json.dumps inside it is a
-- parameter (`dumps`), and keys are texts. A heartbeat thread that does not stop, and a report that raises, end the call
-- without a state.
-- Where the code and the tests or the README disagree, the model is the code: `anti_bypass_passed`
-- decides neither the eligibility of a candidate nor its reward, coverage earns no bonus, and the
-- final gate passes an unverified profile that is not required.
-- Not modelled: negative round numbers, cursors and limits, which the constructors, the constraints
-- and the functions themselves refuse; the checks of EventRecord on the identifiers of an appended
-- event; an aggregate filter of `read` with one half missing; the
-- text of messages; connections, migrations and file modes; the validation of a job and the
-- processes of its stages; and the rounds of the controller and the adapters, which call what is
-- modelled here.
pub mod Controller
pub mod Domain
pub mod Evaluation
pub mod Prelude
pub mod Storage
pub mod Worker
