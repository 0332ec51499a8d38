-- ===== src/Runtime/App.antt =====
-- apps/pi-runtime/src/app.ts: the tasks of the service, from their submission to the delivery of
-- their results.
--
-- An asynchronous function runs up to its next `await`: the works whose timers wait are `queue`, the
-- functions that wait for an investigation or for the callback, with the task that they read before,
-- are `flights`. The timers and the answers come in any order.
use pi_ops.Base.{
  ℕ, ◌+◌, ◌*◌, not, String, Bool, true, false, ◌&&◌, leb, Option, none, some, List, [], ◌∷◌,
  if◌then◌else◌,
}
use pi_ops.Protocol.JsonValue.{Json, Fields}
use pi_ops.Runtime.Tasks.{
  ExecutionStatus, running, completed, failed, DeliveryStatus, pending, delivering, delivered,
  given_up, ReportStatus, succeeded, unsuccessful, Metadata, RuntimeResult, RuntimeTaskRecord,
  truthy, get_by_request_id, update, is_finished, is_delivered,
}

pub record Config : Type 0 where
  pub max_delivery_attempts : ℕ
  pub delivery_backoff_ms : ℕ
  pub provider : String
  pub model : String

-- What an investigation returns.
pub record Outcome : Type 0 where
  pub status : ReportStatus
  pub report : Option Json
  pub error : Option String
  pub selected_specialists : List String
  pub specialist_status : Json
  pub latency_ms : ℕ
  pub provider : String
  pub model : String
  pub input_tokens : ℕ
  pub output_tokens : ℕ
  pub historical_knowledge_status : Option String

-- How an investigation ends: it returns, or it throws an error with a message.
pub data Ending : Type 0 where
  returned : Outcome → Ending
  timed_out : Ending
  thrown : (message : String) → Ending

pub data Work : Type 0 where
  execute deliver : (runtime_request_id : String) → Work

pub data Flight : Type 0 where
  investigating : (task : RuntimeTaskRecord) → Flight
  posting : (task : RuntimeTaskRecord) (result : RuntimeResult) → Flight

pub record App : Type 0 where
  pub tasks : List RuntimeTaskRecord
  pub queue : List (Work × ℕ)
  pub flights : List Flight

abbrev pub enqueue : Work → (delay_ms : ℕ) → App → App
enqueue work delay_ms s = record s { queue = (work, delay_ms) ∷ s.queue }

-- What follows an update; if it throws, the function ends.
abbrev pub after_update : Option (List RuntimeTaskRecord) → (App → App) → App → App
after_update none k s = s
after_update (some rows) k s = k (record s { tasks = rows })

abbrev pub update_then : String → (RuntimeTaskRecord → RuntimeTaskRecord) → (App → App) → App → App
update_then runtime_request_id patch k s =
    after_update (update runtime_request_id patch s.tasks) k s

abbrev pub set_delivery : DeliveryStatus → RuntimeTaskRecord → RuntimeTaskRecord
set_delivery status task = record task { delivery_status = status }

-- `deliverTask`, up to the callback.
abbrev pub deliver_result : Config → String → RuntimeTaskRecord → Option RuntimeResult → App → App
deliver_result c runtime_request_id task none s = s
deliver_result c runtime_request_id task (some result) s =
    if is_delivered task.delivery_status
    then s
    else if leb c.max_delivery_attempts task.delivery_attempts
    then update_then runtime_request_id (set_delivery given_up) (λ u. u) s
    else update_then runtime_request_id (set_delivery delivering)
        (λ u. record u { flights = posting task result ∷ u.flights }) s

abbrev pub deliver_found : Config → String → Option RuntimeTaskRecord → App → App
deliver_found c runtime_request_id none s = s
deliver_found c runtime_request_id (some task) s =
    deliver_result c runtime_request_id task task.result s

unfoldable pub deliver_task : Config → String → App → App
deliver_task c runtime_request_id s =
    deliver_found c runtime_request_id (get_by_request_id runtime_request_id s.tasks) s

abbrev pub started : (now : String) → RuntimeTaskRecord → RuntimeTaskRecord
started now t = record t { execution_status = running; started_at = some now }

-- `executeTask`, up to the investigation.
abbrev pub execute_found : Config → String → Option RuntimeTaskRecord → (now : String) → App → App
execute_found c runtime_request_id none now s = s
execute_found c runtime_request_id (some task) now s =
    if is_finished task.execution_status
    then deliver_task c runtime_request_id s
    else update_then runtime_request_id (started now)
        (λ u. record u { flights = investigating task ∷ u.flights }) s

unfoldable pub execute_task : Config → String → (now : String) → App → App
execute_task c runtime_request_id now s =
    execute_found c runtime_request_id (get_by_request_id runtime_request_id s.tasks) now s

abbrev failure : Config → String → Outcome
failure c error = record {
  status = unsuccessful;
  report = none;
  error = some error;
  selected_specialists = [];
  specialist_status = Json.object Fields.no_fields;
  latency_ms = 0;
  provider = c.provider;
  model = c.model;
  input_tokens = 0;
  output_tokens = 0;
  historical_knowledge_status = none;
}

-- The outcome, with the `catch` of an error.
abbrev pub outcome_of : Config → Ending → Outcome
outcome_of c (returned outcome) = outcome
outcome_of c timed_out = failure c "execution timeout"
outcome_of c (thrown message) = failure c message

abbrev pub metadata_of : RuntimeTaskRecord → Outcome → Metadata
metadata_of task outcome = record {
  runtime_request_id = task.runtime_request_id;
  runtime_task_id = task.runtime_task_id;
  selected_specialists = outcome.selected_specialists;
  specialist_status = outcome.specialist_status;
  latency_ms = outcome.latency_ms;
  provider = outcome.provider;
  model = outcome.model;
  input_tokens = outcome.input_tokens;
  output_tokens = outcome.output_tokens;
  report_status = outcome.status;
  historical_knowledge_status = truthy outcome.historical_knowledge_status;
}

abbrev pub result_of : RuntimeTaskRecord → Outcome → RuntimeResult
result_of task outcome = record {
  runtime_request_id = task.runtime_request_id;
  runtime_task_id = task.runtime_task_id;
  session_id = task.session_id;
  status = outcome.status;
  report = outcome.report;
  error = truthy outcome.error;
  metadata = metadata_of task outcome;
}

abbrev pub execution_of : ReportStatus → ExecutionStatus
execution_of succeeded = completed
execution_of unsuccessful = failed

abbrev pub has_result : Option RuntimeResult → Bool
has_result none = false
has_result (some _) = true

abbrev pub is_settled : Option RuntimeTaskRecord → Bool
is_settled none = false
is_settled (some current) = is_finished current.execution_status && has_result current.result

abbrev pub concluded :
    RuntimeTaskRecord → Outcome → (now : String) → RuntimeTaskRecord → RuntimeTaskRecord
concluded task outcome now t = record t {
  execution_status = execution_of outcome.status;
  delivery_status = pending;
  completed_at = some now;
  metadata = some (metadata_of task outcome);
  result = some (result_of task outcome);
  last_error = outcome.error;
}

-- `executeTask`, from the end of the investigation.
unfoldable pub on_investigated : Config → RuntimeTaskRecord → Outcome → (now : String) → App → App
on_investigated c task outcome now s =
    if is_settled (get_by_request_id task.runtime_request_id s.tasks)
    then s
    else update_then task.runtime_request_id (concluded task outcome now)
        (deliver_task c task.runtime_request_id) s

abbrev is_failed : ExecutionStatus → Bool
is_failed failed = true
is_failed _ = false

abbrev is_success : ReportStatus → Bool
is_success succeeded = true
is_success unsuccessful = false

abbrev has_failed_result : Option RuntimeResult → Bool
has_failed_result none = false
has_failed_result (some result) = not (is_success result.status)

abbrev pub is_superseded : RuntimeResult → Option RuntimeTaskRecord → Bool
is_superseded result none = false
is_superseded result (some latest) =
    is_failed latest.execution_status && has_failed_result latest.result && is_success result.status

abbrev pub delivery_failed : ℕ → ℕ → String → RuntimeTaskRecord → RuntimeTaskRecord
delivery_failed attempts max_attempts error t = record t {
  delivery_status = (if leb max_attempts attempts then given_up else pending);
  last_error = some error;
  delivery_attempts = attempts;
}

-- `deliverTask`, from the answer of the callback: none if it is accepted, or the error.
abbrev pub on_posted :
    Config → RuntimeTaskRecord → RuntimeResult → (error : Option String) → App → App
on_posted c task result none s =
    if is_superseded result (get_by_request_id task.runtime_request_id s.tasks)
    then s
    else update_then task.runtime_request_id
        (λ t. record t { delivery_status = delivered; last_error = none }) (λ u. u) s
on_posted c task result (some error) s =
    let attempts = task.delivery_attempts + 1 in
    update_then task.runtime_request_id (delivery_failed attempts c.max_delivery_attempts error)
      (λ u.
        if leb c.max_delivery_attempts attempts
        then u
        else enqueue (deliver task.runtime_request_id) (c.delivery_backoff_ms * attempts) u)
      s
