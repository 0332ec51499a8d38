-- ===== src/Agent/Events.antt =====
-- apps/agent/src/store.ts: the table of events, and how a batch is stored and processed.
--
-- A transaction either returns the new state or leaves everything as it was: an error carries none.
pub mod Batch
pub mod Rows
pub mod Marks
pub mod Laws
mod Tests
use pi_ops.Base.{
  ℕ, zero, suc, ◌+◌, String, str_eq, Bool, true, false, not, ◌&&◌, ◌||◌, ◌==◌, Option, none, some,
  List, [], ◌∷◌, any, find, if◌then◌else◌,
}
use pi_ops.Protocol.JsonValue.{Json, deep_equal}
pub use pi_ops.Protocol.{
  OpsEventSource, jfr, application, docker, host, health, middleware, deployment, OpsEventSeverity,
  info, warning, error, critical, OpsEvent, Producer, EventBatch,
}

-- The text that a column holds for an enumeration.
abbrev pub source_text : OpsEventSource → String
source_text jfr = "jfr"
source_text application = "application"
source_text docker = "docker"
source_text host = "host"
source_text health = "health"
source_text middleware = "middleware"
source_text deployment = "deployment"

abbrev severity_text : OpsEventSeverity → String
severity_text info = "info"
severity_text warning = "warning"
severity_text error = "error"
severity_text critical = "critical"

pub record StoredEvent : Type 0 where
  pub id : String
  pub schema_version : ℕ
  pub event_time : String
  pub receive_time : String
  pub producer_id : String
  pub producer_type : String
  pub producer_version : String
  pub source : String
  pub node_id : String
  pub service : String
  pub type : String
  pub severity : String
  pub fingerprint : Option String
  pub trace_id : Option String
  pub message : String
  pub attributes : Json

-- The result of a transaction.
pub data Outcome {ℓ} (A : Type ℓ) : Type ℓ where
  ok : A → Outcome A
  conflict : (event_id : String) → Outcome A
  unmarked : (event_id : String) → Outcome A
  threw : (message : String) → Outcome A

abbrev then_do {ℓ κ} : {A : Type ℓ} {B : Type κ} → Outcome A → (A → Outcome B) → Outcome B
then_do (ok a) f = f a
then_do (conflict id) f = conflict id
then_do (unmarked id) f = unmarked id
then_do (threw m) f = threw m

abbrev optional_equal : Option String → Option String → Bool
optional_equal none none = true
optional_equal (some a) (some b) = str_eq a b
optional_equal _ _ = false

unfoldable pub row_of : Producer → (receive_time : String) → OpsEvent → StoredEvent
row_of producer receive_time event = record {
  id = event.id;
  schema_version = event.schema_version;
  event_time = event.time;
  receive_time = receive_time;
  producer_id = producer.id;
  producer_type = producer.type;
  producer_version = producer.version;
  source = source_text event.source;
  node_id = event.node_id;
  service = event.service;
  type = event.type;
  severity = severity_text event.severity;
  fingerprint = event.fingerprint;
  trace_id = event.trace_id;
  message = event.message;
  attributes = event.attributes;
}

unfoldable pub stored_event_matches : Producer → OpsEvent → StoredEvent → Bool
stored_event_matches producer event stored =
    stored.schema_version == event.schema_version
    && str_eq stored.event_time event.time
    && str_eq stored.producer_id producer.id
    && str_eq stored.producer_type producer.type
    && str_eq stored.source (source_text event.source)
    && str_eq stored.node_id event.node_id
    && str_eq stored.service event.service
    && str_eq stored.type event.type
    && str_eq stored.severity (severity_text event.severity)
    && optional_equal stored.fingerprint event.fingerprint
    && optional_equal stored.trace_id event.trace_id
    && str_eq stored.message event.message
    && deep_equal stored.attributes event.attributes

unfoldable pub get_event : String → List StoredEvent → Option StoredEvent
get_event id = find (λ r. str_eq r.id id)

-- The row that stands under the event's id decides, if there is one.
unfoldable pub validate_stored :
    Producer
    → (receive_time : String) → OpsEvent
    → List StoredEvent
    → Option StoredEvent
    → Outcome (List StoredEvent × Bool)
validate_stored producer receive_time event rows none =
    ok (row_of producer receive_time event ∷ rows, true)
validate_stored producer receive_time event rows (some stored) =
    if stored_event_matches producer event stored then ok (rows, false) else conflict event.id

unfoldable pub insert_or_validate_event_row :
    Producer
    → (receive_time : String) → OpsEvent
    → List StoredEvent
    → Outcome (List StoredEvent × Bool)
unfolding validate_stored
insert_or_validate_event_row producer receive_time event rows =
    validate_stored producer receive_time event rows (get_event event.id rows)

abbrev pub one_if : Bool → ℕ
one_if true = 1
one_if false = 0

-- `insertEventRows`, and the first loop of `processBatchTransaction`: the rows, and how many are new.
unfoldable pub insert_event_rows :
    Producer
    → (receive_time : String) → List OpsEvent
    → List StoredEvent
    → Outcome (List StoredEvent × ℕ)
insert_event_rows producer receive_time [] rows = ok (rows, 0)
insert_event_rows producer receive_time (event ∷ events) rows =
    then_do (insert_or_validate_event_row producer receive_time event rows) (λ (rows', inserted).
      then_do (insert_event_rows producer receive_time events rows')
        (λ (rows'', n). ok (rows'', one_if inserted + n)))

-- The `Map` of pending events: for each id the first event, in order.
unfoldable pub pending_from : (seen : List String) → List OpsEvent → List OpsEvent
pending_from seen [] = []
pending_from seen (event ∷ events) =
    let known = any (λ id. str_eq id event.id) seen in
    let rest = pending_from (if known then seen else event.id ∷ seen) events in
    if known then rest else event ∷ rest

-- The table event_processing.
pub record Mark : Type 0 where
  pub event_id : String
  pub incident_processed_at : String

unfoldable pub is_processed : String → List Mark → Bool
is_processed id = any (λ m. str_eq m.event_id id)

-- INSERT OR IGNORE, with whether a row was added.
unfoldable pub mark_event_processed : (id processed_at : String) → List Mark → List Mark × Bool
mark_event_processed id processed_at marks =
    if is_processed id marks
    then (marks, false)
    else (record { event_id = id; incident_processed_at = processed_at } ∷ marks, true)

pub record Counts : Type 0 where
  pub processed : ℕ
  pub created_incidents : ℕ

-- What follows the callback for one event.
unfoldable pub finish_event {ℓ} :
    {S : Type ℓ}
    → (processed_at : String) → OpsEvent
    → List Mark
    → S × Bool
    → Outcome ((S × List Mark) × Counts)
finish_event processed_at event marks (s, is_new) =
    let (marks', changed) = mark_event_processed event.id processed_at marks in
    if not changed && not (is_processed event.id marks')
    then unmarked event.id
    else ok ((s, marks'), record { processed = 1; created_incidents = one_if is_new })

-- `process_event` is the caller's callback: it changes the rest of the database, and may throw.
module _ {ℓ} {S : Type ℓ} (process_event : OpsEvent → S → Outcome (S × Bool)) where
  -- One event: nothing if it was processed before.
  unfoldable pub process_one :
      (processed_at : String) → OpsEvent → S × List Mark → Outcome ((S × List Mark) × Counts)
  process_one processed_at event (s, marks) =
      if is_processed event.id marks
      then ok ((s, marks), record { processed = 0; created_incidents = 0 })
      else then_do (process_event event s) (finish_event processed_at event marks)

  unfoldable pub process_all :
      (processed_at : String) → List OpsEvent → S × List Mark → Outcome ((S × List Mark) × Counts)
  process_all processed_at [] state = ok (state, record { processed = 0; created_incidents = 0 })
  process_all processed_at (event ∷ events) state =
      then_do (process_one processed_at event state) (λ (state', c).
        then_do (process_all processed_at events state') (λ (state'', d). ok (
          state'',
          record {
            processed = c.processed + d.processed;
            created_incidents = c.created_incidents + d.created_incidents;
          },
        )))
