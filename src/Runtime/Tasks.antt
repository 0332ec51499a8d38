-- ===== src/Runtime/Tasks.antt =====
-- apps/pi-runtime/src/store.ts: the table runtime_tasks, with the result types of
-- packages/protocol/src/investigation-runtime.ts.
--
-- A row keeps the metadata and the result as data where the source keeps their JSON text.
use pi_ops.Base.Order.{text_leb, sort_by}
use pi_ops.Base.{
  ℕ, not, String, str_eq, Bool, true, false, ◌&&◌, ◌||◌, ltb, Option, none, some, List, ◌∷◌, map,
  find, filter, if◌then◌else◌,
}
use pi_ops.Protocol.JsonValue.{Json}
use Prim.Native.String.{◌++◌ as text_append}

pub data ExecutionStatus : Type 0 where
  queued running completed failed : ExecutionStatus

pub data DeliveryStatus : Type 0 where
  pending delivering delivered given_up : DeliveryStatus

pub data ReportStatus : Type 0 where
  succeeded unsuccessful : ReportStatus

pub record Metadata : Type 0 where
  pub runtime_request_id : String
  pub runtime_task_id : String
  pub selected_specialists : List String
  pub specialist_status : Json
  pub latency_ms : ℕ
  pub provider : String
  pub model : String
  pub input_tokens : ℕ
  pub output_tokens : ℕ
  pub report_status : ReportStatus
  pub historical_knowledge_status : Option String

pub record RuntimeResult : Type 0 where
  pub runtime_request_id : String
  pub runtime_task_id : String
  pub session_id : String
  pub status : ReportStatus
  pub report : Option Json
  pub error : Option String
  pub metadata : Metadata

pub record RuntimeTaskRecord : Type 0 where
  pub runtime_request_id : String
  pub runtime_task_id : String
  pub session_id : String
  pub incident_id : String
  pub execution_status : ExecutionStatus
  pub delivery_status : DeliveryStatus
  pub created_at : String
  pub started_at : Option String
  pub completed_at : Option String
  pub last_error : Option String
  pub metadata : Option Metadata
  pub result : Option RuntimeResult
  pub context_json : String
  pub delivery_attempts : ℕ

-- `text ? { field: text } : {}`
abbrev pub truthy : Option String → Option String
truthy none = none
truthy (some s) = if str_eq s "" then none else some s

abbrev pub map_row : RuntimeTaskRecord → RuntimeTaskRecord
map_row row = record row {
  started_at = truthy row.started_at;
  completed_at = truthy row.completed_at;
  last_error = truthy row.last_error;
}

abbrev pub has_request_id : String → RuntimeTaskRecord → Bool
has_request_id runtime_request_id row = str_eq row.runtime_request_id runtime_request_id

abbrev pub row_task : Option RuntimeTaskRecord → Option RuntimeTaskRecord
row_task none = none
row_task (some row) = some (map_row row)

abbrev pub get_by_request_id : String → List RuntimeTaskRecord → Option RuntimeTaskRecord
get_by_request_id runtime_request_id rows = row_task (find (has_request_id runtime_request_id) rows)

pub record CreateInput : Type 0 where
  pub runtime_request_id : String
  pub session_id : String
  pub incident_id : String
  pub context_json : String
  pub now : String

pub record Created : Type 0 where
  pub task : RuntimeTaskRecord
  pub duplicate : Bool

abbrev pub inserted_row : CreateInput → RuntimeTaskRecord
inserted_row input = record {
  runtime_request_id = input.runtime_request_id;
  runtime_task_id = text_append "rtask-" input.runtime_request_id;
  session_id = input.session_id;
  incident_id = input.incident_id;
  execution_status = queued;
  delivery_status = pending;
  created_at = input.now;
  started_at = none;
  completed_at = none;
  last_error = none;
  metadata = none;
  result = none;
  context_json = input.context_json;
  delivery_attempts = 0;
}

abbrev pub create_unless :
    CreateInput
    → Option RuntimeTaskRecord
    → List RuntimeTaskRecord
    → List RuntimeTaskRecord × Created
create_unless input (some existing) rows = (rows, record { task = existing; duplicate = true })
create_unless input none rows =
    (inserted_row input ∷ rows, record { task = map_row (inserted_row input); duplicate = false })

unfoldable pub create : CreateInput → List RuntimeTaskRecord → List RuntimeTaskRecord × Created
create input rows = create_unless input (get_by_request_id input.runtime_request_id rows) rows

-- The columns that the statement of `update` sets.
abbrev pub write : RuntimeTaskRecord → RuntimeTaskRecord → RuntimeTaskRecord
write next row = record row {
  execution_status = next.execution_status;
  delivery_status = next.delivery_status;
  started_at = next.started_at;
  completed_at = next.completed_at;
  last_error = next.last_error;
  metadata = next.metadata;
  result = next.result;
  delivery_attempts = next.delivery_attempts;
}

abbrev pub update_found :
    String
    → (patch : RuntimeTaskRecord → RuntimeTaskRecord) → Option RuntimeTaskRecord
    → List RuntimeTaskRecord
    → Option (List RuntimeTaskRecord)
update_found runtime_request_id patch none rows = none
update_found runtime_request_id patch (some current) rows = some (
    map (λ row. if has_request_id runtime_request_id row then write (patch current) row else row)
      rows)

-- The patch sets fields of the current task. On an unknown id the source throws.
unfoldable pub update :
    String
    → (patch : RuntimeTaskRecord → RuntimeTaskRecord) → List RuntimeTaskRecord
    → Option (List RuntimeTaskRecord)
update runtime_request_id patch rows =
    update_found runtime_request_id patch (get_by_request_id runtime_request_id rows) rows

abbrev pub is_finished : ExecutionStatus → Bool
is_finished completed = true
is_finished failed = true
is_finished _ = false

abbrev pub is_delivered : DeliveryStatus → Bool
is_delivered delivered = true
is_delivered _ = false

-- execution_status IN ('queued', 'running'), and delivery_status IN ('pending', 'delivering', 'failed').
abbrev pub is_unfinished : ExecutionStatus → Bool
is_unfinished queued = true
is_unfinished running = true
is_unfinished completed = false
is_unfinished failed = false

abbrev pub is_open : DeliveryStatus → Bool
is_open pending = true
is_open delivering = true
is_open given_up = true
is_open delivered = false

unfoldable pub is_resumable : (max_attempts : ℕ) → RuntimeTaskRecord → Bool
is_resumable max_attempts row =
    is_unfinished row.execution_status
    || (is_finished row.execution_status
        && is_open row.delivery_status
        && ltb row.delivery_attempts max_attempts)

unfoldable pub created_before : RuntimeTaskRecord → RuntimeTaskRecord → Bool
created_before a b =
    text_leb a.created_at b.created_at
    && (not (str_eq a.created_at b.created_at)
        || text_leb a.runtime_request_id b.runtime_request_id)

unfoldable pub list_resumable : (max_attempts : ℕ) → List RuntimeTaskRecord → List RuntimeTaskRecord
list_resumable max_attempts rows =
    map map_row (sort_by created_before (filter (is_resumable max_attempts) rows))
