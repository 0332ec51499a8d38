-- ===== src/Runtime/Once.antt =====
-- A task keeps the first result that it gets.
use pi_ops.Base.{
  ◌+◌, ◌*◌, leb, true, false, ◌&&◌, String, eq_iff, Option, none, some, List, ◌∷◌, find, All, ◌≡◌,
  refl, sym, ◌∙◌, subst, if_cases, if◌then◌else◌, ap,
}
use pi_ops.Base.Search.{find-Memᴰ, find-map}
use pi_ops.Runtime.Tasks.{
  RuntimeTaskRecord, RuntimeResult, row_task, map_row, has_request_id, get_by_request_id, update,
  update_found, write, is_finished, is_delivered, delivered, delivering, given_up, ExecutionStatus,
}
use pi_ops.Runtime.App.{
  Config, Outcome, deliver, investigating, posting, App, after_update, update_then, has_result,
  set_delivery, deliver_result, deliver_found, deliver_task, started, execute_found, execute_task,
  is_settled, concluded, on_investigated, is_superseded, delivery_failed, on_posted, enqueue,
}
use pi_ops.Runtime.Rows.{OptionAll}
use pi_ops.Runtime.Sound.{IsSound, Matches, get-IsSound, execution_of_finished}

settled_of :
    (e : ExecutionStatus) (o : Option RuntimeResult) (r : RuntimeResult)
    → Matches e o
    → o ≡ some r
    → (is_finished e && has_result o) ≡ true
settled_of e none r h eq = cc
settled_of e (some q) r h eq =
    ap (λ b. b && true) (ap is_finished h ∙ execution_of_finished q.status)

module _ (id : String) (r : RuntimeResult) where
  -- The task of the id has the result.
  abbrev pub Has : List RuntimeTaskRecord → Type 0
  Has rows =
      (t : RuntimeTaskRecord) × (find (has_request_id id) rows ≡ some t) × (t.result ≡ some r)

  abbrev pub Keeps : Option RuntimeTaskRecord → (RuntimeTaskRecord → RuntimeTaskRecord) → Type 0
  Keeps o patch =
      (t : RuntimeTaskRecord) → o ≡ some t → t.result ≡ some r → (patch t).result ≡ some r

  read_result :
      (rows : List RuntimeTaskRecord) (t current : RuntimeTaskRecord)
      → find (has_request_id id) rows ≡ some t
      → row_task (find (has_request_id id) rows) ≡ some current
      → current.result ≡ t.result
  read_result rows t current e g =
      let same : some (map_row t) ≡ some current = ap row_task (sym e) ∙ g in
      let eq : map_row t ≡ current = cc in sym (ap (λ x. x.result) eq)

  update_found-Has :
      (other : String) (patch : RuntimeTaskRecord → RuntimeTaskRecord)
      (o : Option RuntimeTaskRecord)
      → (rows : List RuntimeTaskRecord) → row_task (find (has_request_id other) rows) ≡ o
      → Keeps o patch
      → Has rows
      → OptionAll Has (update_found other patch o rows)
  update_found-Has other patch none rows g keeps h = tt
  update_found-Has other patch (some current) rows g keeps (t, e, kept) =
      let f : RuntimeTaskRecord → RuntimeTaskRecord =
        λ row. if has_request_id other row then write (patch current) row else row in
      let named = (find-Memᴰ (has_request_id id) rows e).1 in
      (
        f t,
        find-map (has_request_id id) f rows
            (λ x.
              if_cases (λ y. has_request_id id y ≡ has_request_id id x) (has_request_id other x)
                (λ _. refl) (λ _. refl))
            t e,
        if_cases {A = RuntimeTaskRecord} (λ y. y.result ≡ some r) (has_request_id other t)
            (λ hit.
              let one : other ≡ id =
                sym ((eq_iff t.runtime_request_id other).0 hit)
                ∙ (eq_iff t.runtime_request_id id).0 named in
              let g' : row_task (find (has_request_id id) rows) ≡ some current =
                subst (λ i. row_task (find (has_request_id i) rows) ≡ some current) one g in
              keeps current refl (read_result rows t current e g' ∙ kept))
            (λ _. kept),
      )

  pub update-Has :
      (other : String) (patch : RuntimeTaskRecord → RuntimeTaskRecord)
      (rows : List RuntimeTaskRecord)
      → Keeps (get_by_request_id other rows) patch
      → Has rows
      → OptionAll Has (update other patch rows)
  unfolding update
  update-Has other patch rows keeps h =
      update_found-Has other patch (get_by_request_id other rows) rows refl keeps h

  abbrev pub Holds : App → Type 0
  Holds s = Has s.tasks

  module _ (c : Config) where
    after_update-Has :
        (o : Option (List RuntimeTaskRecord)) (k : App → App) (s : App)
        → ((u : App) → Has u.tasks → Has (k u).tasks)
        → OptionAll Has o
        → Has s.tasks
        → Has (after_update o k s).tasks
    after_update-Has none k s keeps h has = has
    after_update-Has (some rows) k s keeps h has = keeps _ h

    pub update_then-Has :
        (other : String) (patch : RuntimeTaskRecord → RuntimeTaskRecord) (k : App → App) (s : App)
        → Keeps (get_by_request_id other s.tasks) patch
        → ((u : App) → Has u.tasks → Has (k u).tasks)
        → Has s.tasks
        → Has (update_then other patch k s).tasks
    update_then-Has other patch k s keeps after has =
        after_update-Has (update other patch s.tasks) k s after
          (update-Has other patch s.tasks keeps has) has

    deliver_result-Has :
        (other : String) (t : RuntimeTaskRecord) (o : Option RuntimeResult) (s : App)
        → Has s.tasks
        → Has (deliver_result c other t o s).tasks
    deliver_result-Has other t none s has = has
    deliver_result-Has other t (some result) s has =
        if_cases Holds (is_delivered t.delivery_status) (λ _. has)
          (λ _.
            if_cases Holds (leb c.max_delivery_attempts t.delivery_attempts)
              (λ _.
                update_then-Has other (set_delivery given_up) (λ u. u) s (λ _ _ h. h) (λ _ h. h)
                  has)
              (λ _.
                update_then-Has other (set_delivery delivering)
                  (λ u. record u { flights = posting t result ∷ u.flights }) s (λ _ _ h. h)
                  (λ _ h. h) has))

    deliver_found-Has :
        (other : String) (o : Option RuntimeTaskRecord) (s : App)
        → Has s.tasks
        → Has (deliver_found c other o s).tasks
    deliver_found-Has other none s has = has
    deliver_found-Has other (some t) s has = deliver_result-Has other t t.result s has

    pub deliver_task-Has :
        (other : String) (s : App) → Has s.tasks → Has (deliver_task c other s).tasks
    unfolding deliver_task
    deliver_task-Has other s has = deliver_found-Has other (get_by_request_id other s.tasks) s has

    execute_found-Has :
        (other : String) (o : Option RuntimeTaskRecord) (now : String) (s : App)
        → Has s.tasks
        → Has (execute_found c other o now s).tasks
    execute_found-Has other none now s has = has
    execute_found-Has other (some t) now s has =
        if_cases Holds (is_finished t.execution_status) (λ _. deliver_task-Has other s has)
          (λ _.
            update_then-Has other (started now)
              (λ u. record u { flights = investigating t ∷ u.flights }) s (λ _ _ h. h) (λ _ h. h)
              has)

    pub execute_task-Has :
        (other now : String) (s : App) → Has s.tasks → Has (execute_task c other now s).tasks
    unfolding execute_task
    execute_task-Has other now s has =
        execute_found-Has other (get_by_request_id other s.tasks) now s has

    -- An investigation that ends for a task with a result is not recorded.
    pub on_investigated-Has :
        (task : RuntimeTaskRecord) (outcome : Outcome) (now : String) (s : App)
        → All (IsSound c) s.tasks
        → Has s.tasks
        → Has (on_investigated c task outcome now s).tasks
    unfolding on_investigated
    on_investigated-Has task outcome now s inv has =
        if_cases Holds (is_settled (get_by_request_id task.runtime_request_id s.tasks)) (λ _. has)
          (λ unsettled.
            update_then-Has task.runtime_request_id (concluded task outcome now)
              (deliver_task c task.runtime_request_id) s
              (λ t e h.
                let settled : is_settled (some t) ≡ true =
                  settled_of t.execution_status t.result r
                    (get-IsSound c task.runtime_request_id s.tasks inv t e).1 h in
                let clash : is_settled (some t) ≡ false = ap is_settled (sym e) ∙ unsettled in cc)
              (deliver_task-Has task.runtime_request_id) has)

    pub on_posted-Has :
        (task : RuntimeTaskRecord) (result : RuntimeResult) (error : Option String) (s : App)
        → Has s.tasks
        → Has (on_posted c task result error s).tasks
    on_posted-Has task result none s has =
        if_cases Holds (is_superseded result (get_by_request_id task.runtime_request_id s.tasks))
          (λ _. has)
          (λ _.
            update_then-Has task.runtime_request_id
              (λ t. record t { delivery_status = delivered; last_error = none }) (λ u. u) s
              (λ _ _ h. h) (λ _ h. h) has)
    on_posted-Has task result (some error) s has =
        let attempts = task.delivery_attempts + 1 in
        update_then-Has task.runtime_request_id
          (delivery_failed attempts c.max_delivery_attempts error)
          (λ u.
            if leb c.max_delivery_attempts attempts
            then u
            else enqueue (deliver task.runtime_request_id) (c.delivery_backoff_ms * attempts) u)
          s (λ _ _ h. h)
          (λ u h. if_cases Holds (leb c.max_delivery_attempts attempts) (λ _. h) (λ _. h)) has
