-- ===== src/Lib.antt =====
-- A model of pi-ops and its correctness.
--
-- pi-ops watches hosts. On each host a node agent (apps/node-agent) samples detectors, debounces
-- them and sends events in batches to a central agent (apps/agent). The agent stores the events,
-- groups them into incidents, collects evidence through jobs in its database, and decides whether a
-- notification is due.
--
-- Base and its children hold what the others share: Boolean tests and lists measured by the native
-- numbers (Tests, Lists), white space and the stack-frame pattern on code points (Text), what `find`
-- and `any` look at (Search), and the order of texts with the sort behind ORDER BY (Order).
--
-- Protocol has the events and batches of packages/protocol/src/index.ts; Protocol.JsonValue has JSON
-- values and their comparison, in which the order of keys does not count, and Protocol.Investigation
-- the diagnosis of packages/protocol/src/investigation-runtime.ts.
--
-- NodeAgent.Hysteresis models apps/node-agent/src/detectors/hysteresis.ts. The closure's two
-- variables are the record HysteresisState; `sample` and `reset` are the functions of the same names.
-- What it reports is proved in Hysteresis.Laws.
--
-- NodeAgent.Sender models apps/node-agent/src/events/sender.ts as a state machine. Sender holds the
-- closure's variables, and Phase where the awaited promise stands; `step` is one call, answer or
-- timer. The queue limit and the number of retries are arguments (Config); the batch size is the
-- protocol's constant. Sender.Invariant, Sender.Books and Sender.Flush hold the proofs. The flush
-- loop of `stop` runs on fuel in Sender.Flush, where `effort` is proved to be enough.
--
-- NodeAgent.Detectors models disk.ts, memory.ts and health.ts of apps/node-agent/src/detectors: one
-- poll, or the answer of one probe, feeds the debouncer and offers an event to the sender. Doubles
-- are the interface Arithmetic, and random ids and the clock the argument Stamp. Runs relates the
-- detectors to the debouncer, and Targets the health targets to each other.
--
-- Agent.Events models the event part of apps/agent/src/store.ts: the tables events and
-- event_processing as lists of rows, `insert_or_validate_event_row` and, in Events.Batch,
-- `process_batch`, whose callback works on the rest of the database. A transaction returns an
-- Outcome; an error carries no state, since it is rolled back. Rows, Marks and Laws have the proofs.
--
-- Agent.Policy models apps/agent/src/notification-policy.ts: Facts has its data types, Policy its
-- functions under their names; `verdict` is the chain of early returns in decideFirstNotification.
-- Major says independently which facts call for an alert.
--
-- Agent.Jobs models the statements on the table evidence_jobs of apps/agent/src/store.ts, and
-- Agent.Jobs.Worker the drain of apps/agent/src/evidence-worker.ts. The table is a list of rows; an
-- UPDATE is `update_where`. The orchestrator and the lookup of incidents are arguments, as they are
-- arguments of the source's worker; requests that the incident engine serves while the worker awaits
-- the orchestrator are part of the answer, so the drains interleave with them. Time is text, as in
-- the source, and passes while something is awaited. The loop is over the listed jobs.
--
-- Agent.Incidents models the incident part of apps/agent/src/store.ts; Incidents.Engine and
-- Arrivals are apps/agent/src/incident.ts. The rest of the database is an interface, the record Env. The loop of
-- reconcileFingerprint runs on fuel, one round more than recoveries wait. Ledger has the two kinds of
-- steps that the engine is made of, Balance and History what a step keeps, Moves and Process the steps
-- of each operation.
--
-- Agent.Fingerprint models apps/agent/src/fingerprint.ts, Agent.NotificationConfig the lookups of
-- apps/agent/src/notification-config.ts, and Agent.Reasoning the table reasoning_jobs of store.ts.
--
-- Agent.NotificationPayload models apps/agent/src/notification.ts and ruleSummarySeverity of
-- notification-config.ts; Agent.Notifications the notification tables of store.ts with their unique
-- indexes. Notifications.Impact, Decision and Updates are notification-decision.ts, Statements the
-- statements of store.ts that evaluate an incident, Worker notification-worker.ts. What an evaluation
-- reads in other tables is a record World, which may differ at each evaluation; the facts are a part of
-- it. Notifications.Connects puts these notifications behind the incident engine, in place of Env; the
-- law that Env then has is Incidents.Interface.Keeps. Ledger has the steps that an evaluation is made
-- of, Moves, Evaluates and Reaches take each operation apart into them, and Sound and Idle go over the
-- steps.
--
-- Agent.Polling models apps/agent/src/polling-worker.ts, which schedules the drains of every worker:
-- its variables, and as inputs its calls, the interval timer, the microtask and the end of a drain.
--
-- Agent.Memory models apps/agent/src/memory-governance.ts with the statements of store.ts that it
-- calls. The calls are not in a transaction, so each step returns the tables, also with an error.
--
-- Runtime models apps/pi-runtime/src: Tasks the table runtime_tasks of store.ts, App the functions
-- executeTask and deliverTask of app.ts, Service the submission of a request, the recovery and runs
-- of the service. An asynchronous function is cut at its awaits; a run is a list of Actions, in which
-- timers fire, investigations end and callbacks answer in any order, and a restart keeps the table
-- alone. The two statuses 'failed' are named failed and given_up, and the statuses of a result
-- succeeded and unsuccessful, as constructors of one module have different names. Rows, Sound,
-- Invariant, Once, Result and Resumable have the proofs.
--
-- Not modelled: HTTP, files, Docker, the environment and the external model (I/O), the JSON text of
-- a stored row, and the parts that PROJECT.json lists as planned.
mod Base
pub mod Protocol
pub mod NodeAgent
pub mod Agent
pub mod Runtime
