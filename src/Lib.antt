-- ===== src/Lib.antt =====
-- VaultWatch's Python service, agents-python/app: a synthetic payment goes through a rules engine,
-- an anomaly prefilter, a triage agent, an investigator with research tools, a compliance agent and
-- the fusion with recent login warnings; its trail is written to an audit service, and a policy
-- allows, holds or blocks the simulated payment. This library models that pipeline, with all that it
-- calls in the repository's Python, and proves what its callers rely on.
--
-- The parts, and the files that model them:
--   Base        shared helpers over the native numbers. Base/Int has Python's integers as ℤ,
--               Base/Exec the state-passing programs that return or raise, with `try … except
--               Exception` (which a cancellation passes through), Base/Exec/Ends the predicate
--               on both ends of a run with its rules, and Base/Exec/Results expressions that raise.
--   Models      agents-python/app/models.py, the records of the pipeline; Models/Values has the JSON
--               values and dicts that tools and services exchange.
--   Runtime     what Python and its libraries provide: floats, their printing, a hash, the JSON codec
--               and pydantic's conversions. All of it is a parameter of the models.
--   CaseRecord  `PipelineResult` of agents-python/app/orchestrator.py, with the dicts that it holds;
--               CaseRecord/Dump is its `as_dict`, with the JSON of every model of a run.
--   Audit       `AuditClient` of agents-python/app/audit.py as an interface, whose requests may fail
--               and whose answers are any JSON; Audit/Waits has the rules for calls of the outside.
--   Payments    agents-python/app/payments.py: `payment_policy`, `simulate_execution` and
--               `apply_payment_control`. Payments/Policy is about the policy, Payments/Control about
--               its application, and Payments/Evidence has the policy on the dict of a run.
--   Reports     agents-python/app/reports.py: how values are written (Reports), what `render_report`
--               reads of a record (Reports/Reads), its page (Reports/Page) and the escaping
--               (Reports/Escape). Reports/Markup, Blocks, Layout and Counts count the markup of its
--               parts for Reports/Safety; Reports/Returns, Total and Written show which parts return
--               for Reports/Complete.
--   Clients     `AuditClient` of agents-python/app/audit.py and `HttpRiskEngineClient` of
--               agents-python/app/risk_engine.py over httpx; Clients/Answers is about the verdict
--               that is read.
--   SecurityFeed  `record_security_event` and `_recent_security_event` of the orchestrator, and in
--               SecurityFeed/Window their promise over a whole history of warnings.
--   Llm         agents-python/app/llm: the provider's interface (Llm), the validation of verdicts
--               (Llm/Verdicts), the research tools (Llm/Tools), the replay transcripts
--               (Llm/Transcripts) and provider (Llm/Replay), the live provider over Anthropic's SDK
--               (Llm/Live), the triage and compliance agents (Llm/Agents), the texts that the agents
--               send (Llm/Prompts), the schemas of their tools (Llm/Schemas, whose Members and Inputs
--               are about the inputs that fit them) and the investigator's loop (Llm/Investigator).
--               Llm/Verdicts/Fields, Llm/Transcripts/Scores and Llm/Investigator/Bounds are about the verdicts that come out;
--               Llm/Transcripts/Evidence, Llm/Investigator/Turns and Llm/Replay/Investigation follow
--               an investigation in replay mode through its requests.
--   Prefilter   agents-python/app/prefilter.py over numpy and scikit-learn, which are a parameter;
--               Prefilter/Scores is about its verdict.
--   Config      agents-python/app/config.py, and `get_provider` of agents-python/app/llm/provider.py
--               over the client that Anthropic's SDK makes of a key;
--               Config/Modes is about the choice of the models.
--   Connections  `ConnectionManager` of agents-python/app/main.py; Connections/Broadcast is about the
--               sockets that a broadcast drops, and what interrupts it, and Connections/Stream has the
--               route of one socket.
--   Orchestrator  `process_transaction` of agents-python/app/orchestrator.py, composed of its stages
--               as the source composes them; Orchestrator/Wiring has what it is built from, and
--               Orchestrator/Recording its `record`, `emit` and `finish`. The proofs are in
--               Orchestrator/Recording/Rules and Finish, Orchestrator/Balance (events against audit
--               receipts), Orchestrator/Routes (the early exits), Orchestrator/Outcome with its Complete
--               (both ends of a run) and Orchestrator/Promises (what a caller relies on).
--   Synthetic   agents-python/app/synthetic.py over the random number generator: profiles, histories,
--               links and baseline features, with the contexts and demo transactions in
--               Synthetic/Feed. Synthetic/Draws has the rules for what a draw gives;
--               Synthetic/Accounts, Baseline, Transactions and Contexts are about what is made.
--   Demo        `demo_run` and `demo_batch` of agents-python/app/main.py and `balanced_batch` of demo.py;
--               Demo/Batch is about how they end. Demo/Create and Demo/Plan are `create_scenario` of
--               demo.py, Demo/Scenarios what each scenario makes, and Demo/Waits its wait for the
--               login warning and its errors.
--   CaseStore   `InMemoryCaseStore` of agents-python/app/db.py, with CaseStore/History about it.
--               CaseStore/Postgres has the `CaseStore` protocol and `PostgresCaseStore`, with its SQL
--               statements over the table `cases`. CaseStore/Ordering is about `ORDER BY`, whose order
--               among equal keys is left open, CaseStore/Saves about histories of saves, and
--               CaseStore/Refinement compares the two stores.
--   Api         the reading routes, the status, the listener to login warnings and the loop that makes
--               up transactions, of agents-python/app/main.py; Api/Reads and Api/Listens are about how
--               they end.
--   Start       `lifespan` of agents-python/app/main.py up to its `yield`: the parts above put together
--               into the service that runs.
--   LocalStatus  scripts/local_status.py: the health checks of the local stack and the wait for them.
--               LocalStatus/Health and Ready are about a report that is ready, Expired about one
--               made after the deadline, Waiting about what the wait gives, and Timely about when it
--               ends.
--   Tests       a concrete environment, runs of the pipeline, and the results at concrete inputs.
--
-- A run passes on its `PipelineResult` and the world, the state of all that stands outside of it.
-- Every await may change the world in any way, the recorded login warnings in it, so the theorems
-- hold whatever other tasks do meanwhile; a run's own result is not shared. An operation that may
-- raise says which kind of exception it raises.
--
-- Bounds: time is in microseconds, and the window of the login warnings is 600000000. The
-- investigator makes at most six requests (`max_turns`), as the source does, by recursion on that
-- number. The listener, the loop that makes up transactions and the route of a socket never end by
-- themselves; they are modelled by rounds, any number of them. The wait for a ready stack takes its
-- rounds from fuel, and three more than the nanoseconds of its time are enough on a clock that
-- advances. Two requests that wait at the same time are answered in either order. All other loops are over lists or a fixed number of steps. Floats are
-- abstract, so nothing depends on rounding; integers are unbounded, as in Python. The database keeps
-- times as numbers; rows saved at one time may come back in any order, and the theorem about the
-- stores asks for saves at rising times.
--
-- Not modelled: the end of the service (what follows the `yield` of `lifespan` in
-- agents-python/app/main.py), the smoke test and the printing of local_status.py. httpx and the
-- indented form of `json.dumps` are parameters. The pipeline takes the prefilter, the rules engine,
-- the model provider and the histories and links of an account as parameters; Start gives it the
-- first three. The Rust engine, the Go gateway and the dashboard are programs of their own.
pub mod Base
pub mod Models
pub mod Runtime
pub mod CaseRecord
pub mod Audit
pub mod Payments
pub mod Reports
pub mod Clients
pub mod SecurityFeed
pub mod Llm
pub mod Prefilter
pub mod Config
pub mod Connections
pub mod Demo
pub mod CaseStore
pub mod Synthetic
pub mod Api
pub mod Start
pub mod LocalStatus
mod Tests
pub mod Orchestrator
