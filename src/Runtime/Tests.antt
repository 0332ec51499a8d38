-- ===== src/Runtime/Tests.antt =====
-- Runs of the service on concrete tasks.
use pi_ops.Base.{ℕ, Bool, true, false, String, Option, none, some, List, [], ◌∷◌, All, ◌≡◌, refl}
use mathlib.Core.List.{Memᴰ}
use pi_ops.Protocol.JsonValue.{Json, Fields}
use pi_ops.Runtime.Tasks.{
  RuntimeTaskRecord, RuntimeResult, CreateInput, succeeded, get_by_request_id, create, update,
  is_resumable, list_resumable, created_before, map_row, inserted_row, completed, DeliveryStatus,
  pending,
}
use pi_ops.Runtime.App.{
  Config, Outcome, returned, metadata_of, result_of, deliver_task, execute_task, on_investigated,
}
use pi_ops.Runtime.Service.{
  needs_delivery, submit, recover, Action, requests, fires, ends, answers, restarts, run,
}
use pi_ops.Runtime.Sound.{IsSound}
use pi_ops.Runtime.Invariant.{run-IsSound}
use pi_ops.Runtime.Result.{run-result}
use pi_ops.Runtime.Resumable.{list_resumable-Memᴰ}

abbrev config : Config
config = record {
  max_delivery_attempts = 2;
  delivery_backoff_ms = 100;
  provider = "p";
  model = "m";
}

abbrev input : CreateInput
input = record {
  runtime_request_id = "a";
  session_id = "s";
  incident_id = "i";
  context_json = "{}";
  now = "1";
}

abbrev outcome : Outcome
outcome = record {
  status = succeeded;
  report = none;
  error = none;
  selected_specialists = [];
  specialist_status = Json.object Fields.no_fields;
  latency_ms = 5;
  provider = "p";
  model = "m";
  input_tokens = 1;
  output_tokens = 2;
  historical_knowledge_status = none;
}

-- A request, its execution, its investigation, and a callback that fails.
abbrev investigated : List Action
investigated =
    requests input ∷ fires 0 "2" ∷ ends 0 (returned outcome) "3" ∷ answers 0 (some "refused") ∷ []

-- The repeated delivery fails too, and the request is repeated after a restart.
abbrev afterwards : List Action
afterwards = fires 0 "4" ∷ answers 0 (some "refused") ∷ restarts ∷ requests input ∷ []

unfoldable attempts_of : Option RuntimeTaskRecord → ℕ
attempts_of none = 0
attempts_of (some t) = t.delivery_attempts

two_attempts :
    attempts_of (
      get_by_request_id "a"
        (run config (run config (recover config []) investigated) afterwards).tasks)
    ≡ 2
unfolding attempts_of submit create update deliver_task execute_task on_investigated recover
    list_resumable is_resumable created_before needs_delivery pi_ops.Base.Order.sort_by
two_attempts = refl

run-IsSound_example : All (IsSound config) (run config (recover config []) investigated).tasks
run-IsSound_example = run-IsSound config investigated

abbrev result : RuntimeResult
result = result_of (inserted_row input) outcome

abbrev task : RuntimeTaskRecord
task = record (inserted_row input) {
  execution_status = completed;
  started_at = some "2";
  completed_at = some "3";
  last_error = some "refused";
  metadata = some (metadata_of (inserted_row input) outcome);
  result = some result;
  delivery_attempts = 1;
}

task_investigated :
    get_by_request_id "a" (run config (recover config []) investigated).tasks ≡ some task
unfolding submit create update deliver_task execute_task on_investigated recover list_resumable
    is_resumable created_before needs_delivery pi_ops.Base.Order.sort_by
task_investigated = refl

run-result_example :
    (u : RuntimeTaskRecord) × (get_by_request_id "a"
        (run config (run config (recover config []) investigated) afterwards).tasks
      ≡ some u)
    × (u.result ≡ some result)
run-result_example =
    run-result config investigated afterwards "a" task result task_investigated refl

list_resumable-Memᴰ_example :
    Memᴰ
      (map_row task)
      (list_resumable 2 (inserted_row (record input { runtime_request_id = "b" }) ∷ task ∷ []))
unfolding needs_delivery
list_resumable-Memᴰ_example =
    list_resumable-Memᴰ 2 (inserted_row (record input { runtime_request_id = "b" }) ∷ task ∷ [])
      task (Memᴰ.tail (Memᴰ.head refl)) refl

-- Two callbacks of one task are under way: the request is repeated before the first is answered. The
-- first is accepted, then the second fails.
abbrev overtaken : List Action
overtaken =
    requests input
    ∷ fires 0 "2"
    ∷ ends 0 (returned outcome) "3"
    ∷ requests input
    ∷ fires 0 "4"
    ∷ answers 1 none
    ∷ answers 0 (some "refused")
    ∷ []

unfoldable delivery_of : Option RuntimeTaskRecord → Option DeliveryStatus
delivery_of none = none
delivery_of (some t) = some t.delivery_status

delivered_undone :
    delivery_of (get_by_request_id "a" (run config (recover config []) overtaken).tasks)
    ≡ some pending
unfolding delivery_of submit create update deliver_task execute_task on_investigated recover
    list_resumable is_resumable created_before needs_delivery pi_ops.Base.Order.sort_by
delivered_undone = refl
