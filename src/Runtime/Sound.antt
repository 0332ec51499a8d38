-- ===== src/Runtime/Sound.antt =====
-- What holds of every task at any time: its result and its status agree, and the attempts to deliver
-- it are bounded.
use pi_ops.Base.{
  ◌+◌, ◌≤◌, ◌<◌, leb, true, false, String, Option, none, some, List, ◌∷◌, All, ◌≡◌, refl, sym,
  subst, if_cases, ap, arith, if◌then◌else◌, ◌*◌, ◌∙◌,
}
use pi_ops.Runtime.Tasks.{
  ReportStatus, succeeded, unsuccessful, RuntimeTaskRecord, RuntimeResult, get_by_request_id,
  update, is_finished, ExecutionStatus, is_delivered, delivered, delivering, given_up, running,
}
use pi_ops.Runtime.App.{
  Config, Outcome, deliver, Flight, investigating, posting, App, after_update, update_then,
  set_delivery, deliver_result, deliver_found, deliver_task, execute_found, execute_task,
  execution_of, is_settled, concluded, on_investigated, is_superseded, delivery_failed, on_posted,
  enqueue, started,
}
use pi_ops.Runtime.Rows.{OptionAll, ReadsWritten, get_by_request_id-All, update-All}

-- A task is finished exactly if it has a result, whose status is its own.
abbrev pub Matches : ExecutionStatus → Option RuntimeResult → Type 0
Matches e none = is_finished e ≡ false
Matches e (some result) = e ≡ execution_of result.status

some_eq : {t u : RuntimeTaskRecord} → some t ≡ some u → t ≡ u
some_eq e = cc

pub execution_of_finished : (s : ReportStatus) → is_finished (execution_of s) ≡ true
execution_of_finished succeeded = refl
execution_of_finished unsuccessful = refl

Matches-unfinished :
    (e : ExecutionStatus) (o : Option RuntimeResult)
    → Matches e o
    → is_finished e ≡ false
    → Matches running o
Matches-unfinished e none h u = refl
Matches-unfinished e (some r) h u =
    let f : is_finished e ≡ true = ap is_finished h ∙ execution_of_finished r.status in cc

module _ (c : Config) where
  abbrev pub IsSound : RuntimeTaskRecord → Type 0
  IsSound t = (t.delivery_attempts ≤ c.max_delivery_attempts) × Matches t.execution_status t.result

  abbrev pub IsAllowed : Flight → Type 0
  IsAllowed (investigating task) = Unit
  IsAllowed (posting task result) = task.delivery_attempts < c.max_delivery_attempts

  abbrev pub Inv : App → Type 0
  Inv s = All IsSound s.tasks × All IsAllowed s.flights

  IsSound-ReadsWritten : ReadsWritten IsSound
  IsSound-ReadsWritten = (λ _ h. h, λ _ _ h. h)

  pub get-IsSound :
      (id : String) (rows : List RuntimeTaskRecord)
      → All IsSound rows
      → (t : RuntimeTaskRecord) → get_by_request_id id rows ≡ some t
      → IsSound t
  get-IsSound = get_by_request_id-All IsSound IsSound-ReadsWritten

  after_update-Inv :
      (o : Option (List RuntimeTaskRecord)) (k : App → App) (s : App)
      → ((u : App) → Inv u → Inv (k u))
      → OptionAll (All IsSound) o
      → Inv s
      → Inv (after_update o k s)
  after_update-Inv none k s keeps h inv = inv
  after_update-Inv (some rows) k s keeps h inv = keeps _ (h, inv.1)

  pub update_then-Inv :
      (id : String) (patch : RuntimeTaskRecord → RuntimeTaskRecord) (k : App → App) (s : App)
      → ((t : RuntimeTaskRecord)
          → get_by_request_id id s.tasks ≡ some t
          → IsSound t
          → IsSound (patch t))
      → ((u : App) → Inv u → Inv (k u))
      → Inv s
      → Inv (update_then id patch k s)
  update_then-Inv id patch k s sound keeps inv =
      after_update-Inv (update id patch s.tasks) k s keeps
        (update-All IsSound IsSound-ReadsWritten id patch s.tasks sound inv.0) inv

  is_below_limit :
      (t : RuntimeTaskRecord)
      → leb c.max_delivery_attempts t.delivery_attempts ≡ false
      → t.delivery_attempts < c.max_delivery_attempts
  is_below_limit t few = ground arith

  deliver_result-Inv :
      (id : String) (t : RuntimeTaskRecord) (o : Option RuntimeResult) (s : App)
      → Inv s
      → Inv (deliver_result c id t o s)
  deliver_result-Inv id t none s inv = inv
  deliver_result-Inv id t (some result) s inv =
      if_cases Inv (is_delivered t.delivery_status) (λ _. inv)
        (λ _.
          if_cases Inv (leb c.max_delivery_attempts t.delivery_attempts)
            (λ _. update_then-Inv id (set_delivery given_up) (λ u. u) s (λ _ _ h. h) (λ _ h. h) inv)
            (λ few.
              update_then-Inv id (set_delivery delivering)
                (λ u. record u { flights = posting t result ∷ u.flights }) s (λ _ _ h. h)
                (λ u h. (h.0, (is_below_limit t few, h.1))) inv))

  deliver_found-Inv :
      (id : String) (o : Option RuntimeTaskRecord) (s : App) → Inv s → Inv (deliver_found c id o s)
  deliver_found-Inv id none s inv = inv
  deliver_found-Inv id (some t) s inv = deliver_result-Inv id t t.result s inv

  pub deliver_task-Inv : (id : String) (s : App) → Inv s → Inv (deliver_task c id s)
  unfolding deliver_task
  deliver_task-Inv id s inv = deliver_found-Inv id (get_by_request_id id s.tasks) s inv

  started-IsSound :
      (now : String) (t : RuntimeTaskRecord)
      → is_finished t.execution_status ≡ false
      → IsSound t
      → IsSound (started now t)
  started-IsSound now t u (few, h) = (few, Matches-unfinished t.execution_status t.result h u)

  execute_found-Inv :
      (id : String) (o : Option RuntimeTaskRecord) (now : String) (s : App)
      → get_by_request_id id s.tasks ≡ o
      → Inv s
      → Inv (execute_found c id o now s)
  execute_found-Inv id none now s e inv = inv
  execute_found-Inv id (some task) now s e inv =
      if_cases Inv (is_finished task.execution_status) (λ _. deliver_task-Inv id s inv)
        (λ u.
          update_then-Inv id (started now)
            (λ v. record v { flights = investigating task ∷ v.flights }) s
            (λ t same h.
              started-IsSound now t
                (subst (λ x. is_finished x.execution_status ≡ false) (some_eq (sym e ∙ same)) u) h)
            (λ v h. (h.0, (tt, h.1))) inv)

  pub execute_task-Inv : (id now : String) (s : App) → Inv s → Inv (execute_task c id now s)
  unfolding execute_task
  execute_task-Inv id now s inv = execute_found-Inv id (get_by_request_id id s.tasks) now s refl inv

  -- The end of an investigation and the answer of a callback.
  pub on_investigated-Inv :
      (task : RuntimeTaskRecord) (outcome : Outcome) (now : String) (s : App)
      → Inv s
      → Inv (on_investigated c task outcome now s)
  unfolding on_investigated
  on_investigated-Inv task outcome now s inv =
      if_cases Inv (is_settled (get_by_request_id task.runtime_request_id s.tasks)) (λ _. inv)
        (λ _.
          update_then-Inv task.runtime_request_id (concluded task outcome now)
            (deliver_task c task.runtime_request_id) s (λ t _ h. (h.0, refl))
            (deliver_task-Inv task.runtime_request_id) inv)

  pub on_posted-Inv :
      (task : RuntimeTaskRecord) (result : RuntimeResult) (error : Option String) (s : App)
      → task.delivery_attempts < c.max_delivery_attempts
      → Inv s
      → Inv (on_posted c task result error s)
  on_posted-Inv task result none s few inv =
      if_cases Inv (is_superseded result (get_by_request_id task.runtime_request_id s.tasks))
        (λ _. inv)
        (λ _.
          update_then-Inv task.runtime_request_id
            (λ t. record t { delivery_status = delivered; last_error = none }) (λ u. u) s
            (λ _ _ h. h) (λ _ h. h) inv)
  on_posted-Inv task result (some error) s few inv =
      let attempts = task.delivery_attempts + 1 in
      update_then-Inv task.runtime_request_id
        (delivery_failed attempts c.max_delivery_attempts error)
        (λ u.
          if leb c.max_delivery_attempts attempts
          then u
          else enqueue (deliver task.runtime_request_id) (c.delivery_backoff_ms * attempts) u)
        s (λ t _ h. (omega arith, h.1))
        (λ u h. if_cases Inv (leb c.max_delivery_attempts attempts) (λ _. h) (λ _. h)) inv
