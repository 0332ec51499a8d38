-- ===== src/Runtime/Invariant.antt =====
-- The tasks of the service stay sound in every run.
use pi_ops.Base.{
  ℕ, zero, suc, String, Option, none, some, List, [], ◌∷◌, All, refl, if_cases, arith,
}
use pi_ops.Runtime.Tasks.{
  RuntimeTaskRecord, CreateInput, get_by_request_id, create, create_unless, is_finished,
  list_resumable, pending,
}
use pi_ops.Runtime.App.{
  Config, Ending, Work, execute, deliver, Flight, investigating, posting, App, set_delivery,
  outcome_of, enqueue,
}
use pi_ops.Runtime.Service.{
  needs_delivery, submit, is_delivering, resume, resume_each, recover, also, take_at, Action,
  requests, fires, ends, answers, restarts, fire, end, answer, step, run,
}
use pi_ops.Runtime.Sound.{
  IsSound, IsAllowed, Inv, update_then-Inv, deliver_task-Inv, execute_task-Inv, on_investigated-Inv,
  on_posted-Inv,
}

abbrev TakenAll {ℓ κ} : {A : Type ℓ} → (A → Type κ) → Option (A × List A) → Type κ
TakenAll P none = Unit
TakenAll P (some (x, xs)) = P x × All P xs

module _ {ℓ κ} {A : Type ℓ} (P : A → Type κ) where
  also-TakenAll : (x : A) (o : Option (A × List A)) → P x → TakenAll P o → TakenAll P (also x o)
  also-TakenAll x none p h = tt
  also-TakenAll x (some (y, ys)) p (q, qs) = (q, (p, qs))

  take_at-TakenAll : (n : ℕ) (xs : List A) → All P xs → TakenAll P (take_at n xs)
  take_at-TakenAll n [] ps = tt
  take_at-TakenAll zero (x ∷ xs) ps = ps
  take_at-TakenAll (suc n) (x ∷ xs) (p, ps) =
      also-TakenAll x (take_at n xs) p (take_at-TakenAll n xs ps)

module _ (c : Config) where
  create_unless-IsSound :
      (input : CreateInput) (o : Option RuntimeTaskRecord) (rows : List RuntimeTaskRecord)
      → All (IsSound c) rows
      → All (IsSound c) (create_unless input o rows).0
  create_unless-IsSound input none rows h = ((omega arith, refl), h)
  create_unless-IsSound input (some t) rows h = h

  submit-Inv : (input : CreateInput) (s : App) → Inv c s → Inv c (submit c input s).0
  unfolding submit create
  submit-Inv input s inv =
      let made = create_unless input (get_by_request_id input.runtime_request_id s.tasks) s.tasks in
      let kept : Inv c (record s { tasks = made.0 }) = (
        create_unless-IsSound input (get_by_request_id input.runtime_request_id s.tasks) s.tasks
            inv.0,
        inv.1,
      ) in
      if_cases (Inv c) made.1.duplicate
        (λ _.
          if_cases (Inv c) (needs_delivery made.1.task c.max_delivery_attempts) (λ _. kept)
            (λ _. kept))
        (λ _. kept)

  resume-Inv : (task : RuntimeTaskRecord) (s : App) → Inv c s → Inv c (resume task s)
  resume-Inv task s inv =
      if_cases (Inv c) (is_finished task.execution_status)
        (λ _.
          if_cases (Inv c) (is_delivering task.delivery_status)
            (λ _.
              update_then-Inv c task.runtime_request_id (set_delivery pending)
                (enqueue (deliver task.runtime_request_id) 0) s (λ _ _ h. h) (λ _ h. h) inv)
            (λ _. inv))
        (λ _. inv)

  resume_each-Inv :
      (tasks : List RuntimeTaskRecord) (s : App) → Inv c s → Inv c (resume_each tasks s)
  resume_each-Inv [] s inv = inv
  resume_each-Inv (task ∷ tasks) s inv =
      resume_each-Inv tasks (resume task s) (resume-Inv task s inv)

  pub recover-Inv : (rows : List RuntimeTaskRecord) → All (IsSound c) rows → Inv c (recover c rows)
  unfolding recover
  recover-Inv rows h =
      resume_each-Inv (list_resumable c.max_delivery_attempts rows)
        (record { tasks = rows; queue = []; flights = [] }) (h, tt)

  fire-Inv :
      (o : Option ((Work × ℕ) × List (Work × ℕ))) (now : String) (s : App)
      → Inv c s
      → Inv c (fire c o now s)
  fire-Inv none now s inv = inv
  fire-Inv (some ((execute id, _), rest)) now s inv =
      execute_task-Inv c id now (record s { queue = rest }) inv
  fire-Inv (some ((deliver id, _), rest)) now s inv =
      deliver_task-Inv c id (record s { queue = rest }) inv

  end-Inv :
      (o : Option (Flight × List Flight)) (ending : Ending) (now : String) (s : App)
      → TakenAll (IsAllowed c) o
      → Inv c s
      → Inv c (end c o ending now s)
  end-Inv none ending now s h inv = inv
  end-Inv (some (investigating task, rest)) ending now s (_, h) inv =
      on_investigated-Inv c task (outcome_of c ending) now (record s { flights = rest }) (inv.0, h)
  end-Inv (some (posting task result, rest)) ending now s h inv = inv

  answer-Inv :
      (o : Option (Flight × List Flight)) (error : Option String) (s : App)
      → TakenAll (IsAllowed c) o
      → Inv c s
      → Inv c (answer c o error s)
  answer-Inv none error s h inv = inv
  answer-Inv (some (investigating task, rest)) error s h inv = inv
  answer-Inv (some (posting task result, rest)) error s (few, h) inv =
      on_posted-Inv c task result error (record s { flights = rest }) few (inv.0, h)

  pub step-Inv : (s : App) (a : Action) → Inv c s → Inv c (step c s a)
  step-Inv s (requests input) inv = submit-Inv input s inv
  step-Inv s (fires n now) inv = fire-Inv (take_at n s.queue) now s inv
  step-Inv s (ends n ending now) inv =
      end-Inv (take_at n s.flights) ending now s (take_at-TakenAll (IsAllowed c) n s.flights inv.1)
        inv
  step-Inv s (answers n error) inv =
      answer-Inv (take_at n s.flights) error s (take_at-TakenAll (IsAllowed c) n s.flights inv.1)
        inv
  step-Inv s restarts inv = recover-Inv s.tasks inv.0

  pub run-IsKept : (s : App) (actions : List Action) → Inv c s → Inv c (run c s actions)
  run-IsKept s [] inv = inv
  run-IsKept s (a ∷ rest) inv = run-IsKept (step c s a) rest (step-Inv s a inv)

  -- In every run of a service that starts with an empty table, whatever the order of requests,
  -- timers, investigations, callbacks and restarts: a task in the table has a result exactly if it is
  -- finished, its execution status is the status of that result, and no more attempts to deliver it
  -- are counted than the configuration allows.
  pub run-IsSound : (actions : List Action) → All (IsSound c) (run c (recover c []) actions).tasks
  run-IsSound actions = (run-IsKept (recover c []) actions (recover-Inv [] tt)).0
