-- ===== src/Agent/Events/Tests.antt =====
-- Batches on concrete tables.
use pi_ops.Base.{ℕ, ◌+◌, String, Bool, true, none, [], ◌∷◌, ◌≡◌, refl, All}
use pi_ops.Protocol.JsonValue.{text, number, object, field, no_fields, plain, deep_equal}
use pi_ops.Agent.Events.{
  OpsEvent, EventBatch, Outcome, ok, host, warning, get_event, stored_event_matches,
  insert_event_rows, insert_or_validate_event_row, validate_stored, row_of, pending_from,
  process_all, process_one, finish_event, is_processed, mark_event_processed,
}
use pi_ops.Agent.Events.Batch.{Database, ProcessBatchResult, process_batch}
use pi_ops.Agent.Events.Laws.{process_batch-again}

abbrev pressure : String → OpsEvent
pressure message = record {
  schema_version = 1;
  id = "e1";
  time = "2026-01-01T00:00:00Z";
  source = host;
  node_id = "n1";
  service = "n1";
  type = "host.disk_pressure";
  severity = warning;
  fingerprint = none;
  trace_id = none;
  message = message;
  attributes = object (field "path" (text "/") (field "usagePercent" (number "91") no_fields));
}

abbrev batch_of : String → EventBatch
batch_of message = record {
  producer = record { id = "n1"; type = "node-agent"; version = "0.1.0" };
  events = pressure message ∷ pressure message ∷ [];
}

abbrev empty_database : Database ℕ
empty_database = record { events = []; marks = []; rest = 0 }

-- The callback counts its calls; each creates an incident.
abbrev counting : OpsEvent → ℕ → Outcome (ℕ × Bool)
counting event calls = ok (calls + 1, true)

abbrev now : String
now = "2026-01-01T00:00:05Z"

abbrev stored_once : Database ℕ × ProcessBatchResult
stored_once = (
  record {
    events = row_of (batch_of "full").producer now (pressure "full") ∷ [];
    marks = record { event_id = "e1"; incident_processed_at = now } ∷ [];
    rest = 1;
  },
  record { inserted = 1; processed = 1; created_incidents = 1 },
)

goes_in : process_batch counting (batch_of "full") now empty_database ≡ ok stored_once
unfolding process_batch insert_event_rows insert_or_validate_event_row validate_stored get_event
    stored_event_matches row_of pending_from process_all process_one finish_event is_processed
    mark_event_processed deep_equal
goes_in = refl

plain_batch : All (λ e. plain e.attributes ≡ true) (batch_of "full").events
unfolding plain
plain_batch = (refl, (refl, tt))

process_batch-again_example :
    process_batch counting (batch_of "full") "2026-01-02" stored_once.0
    ≡ ok (stored_once.0, record { inserted = 0; processed = 0; created_incidents = 0 })
process_batch-again_example =
    process_batch-again counting (batch_of "full") now empty_database stored_once counting
      "2026-01-02" plain_batch goes_in
