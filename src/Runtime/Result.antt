-- ===== src/Runtime/Result.antt =====
-- The result of a task in the runs of the service.
use pi_ops.Base.{
  ℕ, String, eq_iff, Option, none, some, List, [], ◌∷◌, find, ◌≡◌, refl, sym, ◌∙◌, subst, if_cases,
  if◌then◌else◌, ap, Bool-cases, inl, inr, All,
}
use pi_ops.Runtime.Tasks.{
  RuntimeTaskRecord, RuntimeResult, CreateInput, row_task, map_row, has_request_id,
  get_by_request_id, create, create_unless, inserted_row, is_finished, list_resumable, pending,
}
use pi_ops.Runtime.App.{
  Config, Ending, Work, execute, deliver, Flight, investigating, posting, App, set_delivery,
  outcome_of, enqueue,
}
use pi_ops.Runtime.Service.{
  needs_delivery, submit, is_delivering, resume, resume_each, recover, take_at, Action, requests,
  fires, ends, answers, restarts, fire, end, answer, step, run,
}
use pi_ops.Runtime.Sound.{Inv, IsSound}
use pi_ops.Runtime.Invariant.{step-Inv, recover-Inv, run-IsKept}
use pi_ops.Runtime.Once.{
  Has, Holds, update_then-Has, deliver_task-Has, execute_task-Has, on_investigated-Has,
  on_posted-Has,
}

row_of :
    (o : Option RuntimeTaskRecord) (t : RuntimeTaskRecord)
    → row_task o ≡ some t
    → (row : RuntimeTaskRecord) × (o ≡ some row) × (row.result ≡ t.result)
row_of none t e = cc
row_of (some row) t e = let eq : map_row row ≡ t = cc in (row, refl, ap (λ x. x.result) eq)

module _ (id : String) (r : RuntimeResult) where
  create_unless-Has :
      (input : CreateInput) (rows : List RuntimeTaskRecord) (o : Option RuntimeTaskRecord)
      → row_task (find (has_request_id input.runtime_request_id) rows) ≡ o
      → Has id r rows
      → Has id r (create_unless input o rows).0
  create_unless-Has input rows (some t) g has = has
  create_unless-Has input rows none g (t, e, kept) =
      elim (Bool-cases (has_request_id id (inserted_row input))) [
        | inl hit ↦
            let one : input.runtime_request_id ≡ id = (eq_iff input.runtime_request_id id).0 hit in
            let clash : row_task (some t) ≡ none =
              ap row_task (sym e)
              ∙ subst (λ i. row_task (find (has_request_id i) rows) ≡ none) one g in
            cc
        | inr miss ↦ (
          t,
          subst
              (λ b.
                (if b then some (inserted_row input) else find (has_request_id id) rows) ≡ some t)
              (sym miss) e,
          kept,
        )
      ]

  module _ (c : Config) where
    submit-Has : (input : CreateInput) (s : App) → Holds id r s → Holds id r (submit c input s).0
    unfolding submit create
    submit-Has input s has =
        let o = get_by_request_id input.runtime_request_id s.tasks in
        let made = create_unless input o s.tasks in
        let kept : Holds id r (record s { tasks = made.0 }) =
          create_unless-Has input s.tasks o refl has in
        if_cases (Holds id r) made.1.duplicate
          (λ _.
            if_cases (Holds id r) (needs_delivery made.1.task c.max_delivery_attempts) (λ _. kept)
              (λ _. kept))
          (λ _. kept)

    resume-Has : (task : RuntimeTaskRecord) (s : App) → Holds id r s → Holds id r (resume task s)
    resume-Has task s has =
        if_cases (Holds id r) (is_finished task.execution_status)
          (λ _.
            if_cases (Holds id r) (is_delivering task.delivery_status)
              (λ _.
                update_then-Has id r c task.runtime_request_id (set_delivery pending)
                  (enqueue (deliver task.runtime_request_id) 0) s (λ _ _ h. h) (λ _ h. h) has)
              (λ _. has))
          (λ _. has)

    resume_each-Has :
        (tasks : List RuntimeTaskRecord) (s : App) → Holds id r s → Holds id r (resume_each tasks s)
    resume_each-Has [] s has = has
    resume_each-Has (task ∷ tasks) s has =
        resume_each-Has tasks (resume task s) (resume-Has task s has)

    recover-Has : (rows : List RuntimeTaskRecord) → Has id r rows → Holds id r (recover c rows)
    unfolding recover
    recover-Has rows has =
        resume_each-Has (list_resumable c.max_delivery_attempts rows)
          (record { tasks = rows; queue = []; flights = [] }) has

    fire-Has :
        (o : Option ((Work × ℕ) × List (Work × ℕ))) (now : String) (s : App)
        → Holds id r s
        → Holds id r (fire c o now s)
    fire-Has none now s has = has
    fire-Has (some ((execute other, _), rest)) now s has =
        execute_task-Has id r c other now (record s { queue = rest }) has
    fire-Has (some ((deliver other, _), rest)) now s has =
        deliver_task-Has id r c other (record s { queue = rest }) has

    end-Has :
        (o : Option (Flight × List Flight)) (ending : Ending) (now : String) (s : App)
        → All (IsSound c) s.tasks
        → Holds id r s
        → Holds id r (end c o ending now s)
    end-Has none ending now s sound has = has
    end-Has (some (investigating task, rest)) ending now s sound has =
        on_investigated-Has id r c task (outcome_of c ending) now (record s { flights = rest })
          sound has
    end-Has (some (posting task result, rest)) ending now s sound has = has

    answer-Has :
        (o : Option (Flight × List Flight)) (error : Option String) (s : App)
        → Holds id r s
        → Holds id r (answer c o error s)
    answer-Has none error s has = has
    answer-Has (some (investigating task, rest)) error s has = has
    answer-Has (some (posting task result, rest)) error s has =
        on_posted-Has id r c task result error (record s { flights = rest }) has

    step-Has : (s : App) (a : Action) → Inv c s → Holds id r s → Holds id r (step c s a)
    step-Has s (requests input) inv has = submit-Has input s has
    step-Has s (fires n now) inv has = fire-Has (take_at n s.queue) now s has
    step-Has s (ends n ending now) inv has = end-Has (take_at n s.flights) ending now s inv.0 has
    step-Has s (answers n error) inv has = answer-Has (take_at n s.flights) error s has
    step-Has s restarts inv has = recover-Has s.tasks has

    run-Has :
        (s : App) (actions : List Action) → Inv c s → Holds id r s → Holds id r (run c s actions)
    run-Has s [] inv has = has
    run-Has s (a ∷ rest) inv has =
        run-Has (step c s a) rest (step-Inv c s a inv) (step-Has s a inv has)

-- Once a task has a result in a run of a service that starts with an empty table, the same result is
-- read for its id at the end of whatever follows: the request is not investigated to another result,
-- neither by a repeated request nor by a second investigation that ends later nor after a restart.
pub run-result :
    (c : Config) (before after : List Action) (id : String) (t : RuntimeTaskRecord)
    (r : RuntimeResult)
    → get_by_request_id id (run c (recover c []) before).tasks ≡ some t
    → t.result ≡ some r
    → (u : RuntimeTaskRecord) × (get_by_request_id id
          (run c (run c (recover c []) before) after).tasks
        ≡ some u)
      × (u.result ≡ some r)
run-result c before after id t r e h =
    let s = run c (recover c []) before in
    let inv : Inv c s = run-IsKept c (recover c []) before (recover-Inv c [] tt) in
    let (row, found, same) = row_of (find (has_request_id id) s.tasks) t e in
    let (u, there, kept) = run-Has id r c s after inv (row, found, same ∙ h) in
    (map_row u, ap row_task there, kept)
