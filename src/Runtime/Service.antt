-- ===== src/Runtime/Service.antt =====
-- apps/pi-runtime/src/app.ts: requests, the recovery at the start, and runs of the service.
use pi_ops.Base.{
  ℕ, zero, suc, String, Bool, true, false, not, ◌&&◌, ltb, Option, none, some, List, [], ◌∷◌,
  if◌then◌else◌,
}
use pi_ops.Runtime.Tasks.{
  DeliveryStatus, pending, delivering, RuntimeTaskRecord, CreateInput, Created, create, is_finished,
  is_delivered, list_resumable,
}
use pi_ops.Runtime.App.{
  Config, Ending, Work, execute, deliver, Flight, investigating, posting, App, enqueue, update_then,
  set_delivery, deliver_task, execute_task, outcome_of, on_investigated, on_posted,
}

unfoldable pub needs_delivery : RuntimeTaskRecord → (max_attempts : ℕ) → Bool
needs_delivery task max_attempts =
    is_finished task.execution_status
    && not (is_delivered task.delivery_status)
    && ltb task.delivery_attempts max_attempts

-- `POST /v1/investigations`, after the validation of the request. A task is known by its id.
abbrev pub submitted : Config → Created → App → App
submitted c created s =
    if created.duplicate
    then if needs_delivery created.task c.max_delivery_attempts
      then enqueue (deliver created.task.runtime_request_id) 0 s
      else s
    else enqueue (execute created.task.runtime_request_id) 0 s

unfoldable pub submit : Config → CreateInput → App → App × Created
submit c input s =
    let (rows, created) = create input s.tasks in
    (submitted c created (record s { tasks = rows }), created)

abbrev pub is_delivering : DeliveryStatus → Bool
is_delivering delivering = true
is_delivering _ = false

-- One round of the loop in `recover`.
abbrev pub resume : RuntimeTaskRecord → App → App
resume task s =
    if is_finished task.execution_status
    then if is_delivering task.delivery_status
      then update_then task.runtime_request_id (set_delivery pending)
          (enqueue (deliver task.runtime_request_id) 0) s
      else enqueue (deliver task.runtime_request_id) 0 s
    else enqueue (execute task.runtime_request_id) 0 s

abbrev pub resume_each : List RuntimeTaskRecord → App → App
resume_each [] s = s
resume_each (task ∷ tasks) s = resume_each tasks (resume task s)

-- The service begins with the table that an earlier one left.
unfoldable pub recover : Config → List RuntimeTaskRecord → App
recover c rows =
    resume_each (list_resumable c.max_delivery_attempts rows)
      (record { tasks = rows; queue = []; flights = [] })

abbrev pub also {ℓ} : {A : Type ℓ} → A → Option (A × List A) → Option (A × List A)
also x none = none
also x (some (y, ys)) = some (y, x ∷ ys)

-- The element at a place, and the others.
abbrev pub take_at {ℓ} : {A : Type ℓ} → ℕ → List A → Option (A × List A)
take_at n [] = none
take_at zero (x ∷ xs) = some (x, xs)
take_at (suc n) (x ∷ xs) = also x (take_at n xs)

abbrev pub do_work : Config → Work → (now : String) → App → App
do_work c (execute id) now s = execute_task c id now s
do_work c (deliver id) now s = deliver_task c id s

-- What happens to a service: a request, the timer of a queued work, the end of an investigation,
-- the answer of the callback, or a restart.
pub data Action : Type 0 where
  requests : CreateInput → Action
  fires : (n : ℕ) (now : String) → Action
  ends : (n : ℕ) → Ending → (now : String) → Action
  answers : (n : ℕ) → (error : Option String) → Action
  restarts : Action

abbrev pub fire : Config → Option ((Work × ℕ) × List (Work × ℕ)) → (now : String) → App → App
fire c none now s = s
fire c (some ((work, _), rest)) now s = do_work c work now (record s { queue = rest })

abbrev pub end : Config → Option (Flight × List Flight) → Ending → (now : String) → App → App
end c (some (investigating task, rest)) ending now s =
    on_investigated c task (outcome_of c ending) now (record s { flights = rest })
end c _ ending now s = s

abbrev pub answer : Config → Option (Flight × List Flight) → (error : Option String) → App → App
answer c (some (posting task result, rest)) error s =
    on_posted c task result error (record s { flights = rest })
answer c _ error s = s

abbrev pub step : Config → App → Action → App
step c s (requests input) = (submit c input s).0
step c s (fires n now) = fire c (take_at n s.queue) now s
step c s (ends n ending now) = end c (take_at n s.flights) ending now s
step c s (answers n error) = answer c (take_at n s.flights) error s
step c s restarts = recover c s.tasks

abbrev pub run : Config → App → List Action → App
run c s [] = s
run c s (a ∷ rest) = run c (step c s a) rest
