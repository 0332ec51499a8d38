-- ===== src/Agent/Notifications/Recovers.antt =====
-- Lemmas on the evaluation of an incident that has recovered.
use pi_ops.Base.{
  String, eq_refl, true, false, not, ◌&&◌, Option, none, some, List, [], ◌∷◌, map, any, find, ◌≡◌,
  refl, sym, ap, ◌∙◌, subst, arith, if_cases, if◌then◌else◌,
}
use pi_ops.Base.Search.{map-any_same}
use pi_ops.Agent.Policy.{FirstNotificationFacts, decide_first_notification}
use pi_ops.Agent.Incidents.{IncidentRow, get_incident, is_recovered}
use pi_ops.Agent.NotificationPayload.{
  NotificationJob, NotificationJobStatus, pending, running, delivered, failed, is_open,
  is_completed, SummarySeverityRules, build_notification_job,
}
use pi_ops.Agent.Notifications.{
  JobRow, Notifications, Attempt, throws, returns, StoredNotificationDecision, conflicts,
  stamp_conflicts, stamped, stamp, new_row, has_id, insert_job, schedule_notification_job,
  with_severity, save_notification_decision, get_notification_decision, is_delivered, is_pending,
  suppress_pending_diagnosis_updates, list_notification_jobs,
}
use pi_ops.Agent.Notifications.Impact.{InvestigationReport}
use pi_ops.Agent.Notifications.Decision.{
  World, Settings, Round, InvestigationSession, and_then, open_first, tell_of_recovery,
  recovery_job, told_recovery, tell_recovery,
}
use pi_ops.Agent.Notifications.Updates.{
  update_with, update_on, update_each, is_skipped, evaluate_facts, evaluate_known,
  evaluate_incident, try_evaluate, finish, completed_sessions, first_value,
}
use pi_ops.Agent.Notifications.Moves.{jobs-save}
use pi_ops.Agent.Notifications.Statements.{evaluate_notification, caught}

-- The attempt returns, and this holds of the result.
abbrev Yields {ℓ κ} : {A : Type ℓ} → (A → Type κ) → Attempt A → Type (ℓ ⊔ κ)
Yields {A = A} P a = (x : A) × (a ≡ returns x) × P x

and_then-Yields {ℓ κ μ ν} :
    {A : Type ℓ} {B : Type κ} (P : A → Type μ) (Q : B → Type ν) (a : Attempt A) (f : A → Attempt B)
    → Yields P a
    → ((x : A) → P x → Yields Q (f x))
    → Yields Q (and_then a f)
and_then-Yields P Q a f (x, e, p) h =
    let (y, e', q) = h x p in (y, ap (λ b. and_then b f) e ∙ e', q)

-- The job stands in the table, or another that the unique indexes do not let it join.
abbrev pub Placed : NotificationJob → List JobRow → Type 0
Placed job rows = any (conflicts job) rows ≡ true

module _ (job : NotificationJob) (other : is_completed job.type ≡ false) where
  no_stamp_conflict : (rows : List JobRow) → any (stamp_conflicts job) rows ≡ false
  no_stamp_conflict [] = refl
  no_stamp_conflict (r ∷ rows) = ground (arith, no_stamp_conflict rows)

  stamp-Placed :
      (d : Option StoredNotificationDecision) (s : Notifications)
      → Placed job s.jobs
      → Yields (λ t. Placed job t.jobs) (stamp job d s)
  stamp-Placed none s h = (s, refl, h)
  stamp-Placed (some d) s h =
      let f : JobRow → JobRow = λ r. if has_id job.id r then stamped d r else r in
      (
        record s { jobs = map f s.jobs },
        ap
            (λ b.
              if b
              then throws "UNIQUE constraint failed: notification_jobs.incident_id"
              else returns (record s { jobs = map f s.jobs }))
            (no_stamp_conflict s.jobs),
        map-any_same (conflicts job) (conflicts job) f s.jobs (λ r.
              if_cases {A = JobRow} (λ q. conflicts job q ≡ conflicts job r) (has_id job.id r)
                (λ _. refl) (λ _. refl))
            ∙ h,
      )

  insert_job-Placed : (s : Notifications) → Yields (λ t. Placed job t.jobs) (insert_job job s)
  unfolding insert_job
  insert_job-Placed s =
      if_cases (Yields (λ t. Placed job t.jobs)) (any (conflicts job) s.jobs)
        (λ taken. (s, refl, taken))
        (λ _.
          stamp-Placed (get_notification_decision job.incident_id s)
            (record s { jobs = new_row job ∷ s.jobs }) (ground (arith, eq_refl job.id)))

schedule-Placed :
    (rules : Option SummarySeverityRules) (job : NotificationJob) (s : Notifications)
    → is_completed job.type ≡ false
    → Yields (λ t. Placed job t.jobs) (schedule_notification_job rules job s)
unfolding schedule_notification_job with_severity
schedule-Placed rules job s other = insert_job-Placed (with_severity rules job s) other s

not_pending : (x : NotificationJobStatus) → is_delivered x ≡ true → is_pending x ≡ false
not_pending pending h = cc
not_pending running h = refl
not_pending delivered h = refl
not_pending failed h = refl

module _ (settings : Settings) (world : World) (now : String) (r : IncidentRow)
    (gone : is_recovered r.state ≡ true) where
  recovery_other : is_completed (recovery_job settings world now r).type ≡ false
  unfolding build_notification_job
  recovery_other = refl

  abbrev Recovery : List JobRow → Type 0
  Recovery = Placed (recovery_job settings world now r)

  tell_of_recovery-Placed :
      (job : NotificationJob) (s : Notifications)
      → is_delivered job.status ≡ true
      → told_recovery job.payload.notice ≡ false
      → Yields (λ t. Recovery t.jobs) (tell_of_recovery settings world now r job s)
  unfolding tell_of_recovery
  tell_of_recovery-Placed job s done untold =
      if_cases (Yields (λ t. Recovery t.jobs)) (is_pending job.status)
        (λ waits. absurd (ground (arith, not_pending job.status done)))
        (λ _.
          if_cases (Yields (λ t. Recovery t.jobs))
            (is_delivered job.status && not (told_recovery job.payload.notice))
            (λ _.
              schedule-Placed settings.summary_severity (recovery_job settings world now r) s
                recovery_other)
            (λ no. absurd (ground arith)))

  tell_recovery-Placed :
      (job : NotificationJob) (v : StoredNotificationDecision) (s : Notifications)
      → is_delivered job.status ≡ true
      → told_recovery job.payload.notice ≡ false
      → Yields (λ b. Recovery b.tables.jobs) (tell_recovery settings world now r (some job) v s)
  unfolding tell_recovery
  tell_recovery-Placed job v s done untold =
      if_cases (Yields (λ b. Recovery b.tables.jobs)) (is_recovered r.state)
        (λ _.
          and_then-Yields (λ t. Recovery t.jobs) (λ b. Recovery b.tables.jobs)
            (tell_of_recovery settings world now r job
              (suppress_pending_diagnosis_updates r.id world.clock s))
            _ (tell_of_recovery-Placed job _ done untold) (λ t h. (_, refl, h)))
        (λ no. absurd (ground arith))

  -- After a recovery the loop of the sessions does nothing.
  update_with_blocked :
      (facts : FirstNotificationFacts) (session : InvestigationSession)
      (report : InvestigationReport) (jobs : List NotificationJob) (b : Round)
      → update_with settings world now r facts session report (jobs, b) ≡ returns (jobs, b)
  unfolding update_with
  update_with_blocked facts session report jobs b =
      if_cases (λ x. x ≡ returns (jobs, b)) (is_skipped settings world now r facts report jobs b)
        (λ _. refl) (λ no. absurd (ground arith))

  update_on_blocked :
      (facts : FirstNotificationFacts) (session : InvestigationSession)
      (report : Option InvestigationReport) (jobs : List NotificationJob) (b : Round)
      → update_on settings world now r facts session report (jobs, b) ≡ returns (jobs, b)
  update_on_blocked facts session none jobs b = refl
  update_on_blocked facts session (some report) jobs b =
      update_with_blocked facts session report jobs b

  update_each_blocked :
      (facts : FirstNotificationFacts) (sessions : List InvestigationSession)
      (jobs : List NotificationJob) (b : Round)
      → update_each settings world now r facts sessions (jobs, b) ≡ returns (jobs, b)
  unfolding update_each
  update_each_blocked facts [] jobs b = refl
  update_each_blocked facts (x ∷ xs) jobs b =
      ap (λ a. and_then a (λ next. update_each settings world now r facts xs next))
        (update_on_blocked facts x (world.report_of x.id) jobs b)
      ∙ update_each_blocked facts xs jobs b

  evaluate_facts-Placed :
      (previous : StoredNotificationDecision) (facts : FirstNotificationFacts) (s : Notifications)
      (job : NotificationJob)
      → find (λ j. is_open j.type) (list_notification_jobs r.id s.jobs) ≡ some job
      → is_delivered job.status ≡ true
      → told_recovery job.payload.notice ≡ false
      → Yields
          (λ (value, t). Recovery t.jobs)
          (evaluate_facts settings world now r previous facts s)
  unfolding evaluate_facts open_first
  evaluate_facts-Placed previous facts s job e done untold =
      let d = decide_first_notification facts in
      let value = first_value settings world now facts d previous in
      let saved = save_notification_decision r.id value s in
      let jobs = list_notification_jobs r.id saved.jobs in
      let Ends : StoredNotificationDecision × Notifications → Type 0 = λ (v, t). Recovery t.jobs in
      let here : find (λ j. is_open j.type) jobs ≡ some job =
        ap (λ rows. find (λ j. is_open j.type) (list_notification_jobs r.id rows))
          (jobs-save r.id value s)
        ∙ e in
      let updates : Round → Attempt (StoredNotificationDecision × Notifications) = λ b.
        and_then
          (update_each settings world now r facts (completed_sessions settings world now r.id)
            (jobs, b))
          (λ c. returns (finish settings world now r c)) in
      let tells : Round → Attempt (StoredNotificationDecision × Notifications) =
        λ a. and_then (tell_recovery settings world now r a.initial a.value a.tables) updates in
      and_then-Yields (λ a. a ≡ record { tables = saved; value = value; initial = some job }) Ends
        (open_first settings world now r facts d (find (λ j. is_open j.type) jobs) value saved) _
        (subst
          (λ o.
            Yields (λ a. a ≡ record { tables = saved; value = value; initial = some job })
              (open_first settings world now r facts d o value saved))
          (sym here) (_, refl, refl))
        (λ a same.
          subst (λ a. Yields Ends (tells a)) (sym same)
            (and_then-Yields (λ b. Recovery b.tables.jobs) Ends
              (tell_recovery settings world now r (some job) value saved) updates
              (tell_recovery-Placed job value saved done untold)
              (λ b h. (
                finish settings world now r (jobs, b),
                ap (λ x. and_then x (λ c. returns (finish settings world now r c)))
                    (update_each_blocked facts (completed_sessions settings world now r.id) jobs b),
                subst Recovery (sym (jobs-save r.id _ b.tables)) h,
              ))))

  -- When an incident that has a decision, and whose facts can be read, has recovered, and its first
  -- notification was delivered and did not tell of the recovery, then after an evaluation the table has
  -- the notification of the recovery, or one that the unique indexes do not let it join.
  pub evaluate-Placed :
      (previous : StoredNotificationDecision) (facts : FirstNotificationFacts) (s : Notifications)
      (job : NotificationJob)
      → get_incident r.id world.incidents ≡ some r
      → get_notification_decision r.id s ≡ some previous
      → world.facts_of r.id now ≡ returns facts
      → find (λ j. is_open j.type) (list_notification_jobs r.id s.jobs) ≡ some job
      → is_delivered job.status ≡ true
      → told_recovery job.payload.notice ≡ false
      → Placed
          (recovery_job settings world now r)
          (evaluate_notification settings world now r.id s).jobs
  unfolding evaluate_notification try_evaluate
  evaluate-Placed previous facts s job known decided there e done untold =
      let ((value, t), went, placed) = evaluate_facts-Placed previous facts s job e done untold in
      let known_too =
        ap (λ o. evaluate_incident settings world now r.id o s) known
        ∙ ap (λ d. evaluate_known settings world now r d s) decided
        ∙ ap
            (λ a. and_then a (λ facts.
              and_then (evaluate_facts settings world now r previous facts s)
                (λ (value, t). returns (some value, t))))
            there
        ∙ ap (λ a. and_then a (λ (value, t). returns (some value, t))) went in
      subst (λ a. Recovery (caught settings world now r.id s a).jobs) (sym known_too) placed
