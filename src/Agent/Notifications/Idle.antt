-- ===== src/Agent/Notifications/Idle.antt =====
-- Lemmas on the rows that are running, operation by operation.
use pi_ops.Base.{
  String, str_eq, Bool, true, false, Option, none, some, List, [], ◌∷◌, All, ◌≡◌, refl, sym, ap,
  and_left, Memᴰ-All, ◌∙◌, subst, arith, inl, inr, if_cases, if◌then◌else◌,
}
use pi_ops.Base.Search.{All-map, All-of_map}
use pi_ops.Agent.Jobs.{update_where}
use pi_ops.Agent.Jobs.Keys.{All-update_where}
use pi_ops.Agent.NotificationPayload.{NotificationJob, pending, failed}
use pi_ops.Protocol.Investigation.{SummarySeverity}
use pi_ops.Agent.Notifications.{
  JobRow, Notifications, Attempt, throws, returns, is_running, running_with, pending_with, begun,
  done, retried, put_back, list_pending_notification_jobs, mark_notification_job_running,
}
use pi_ops.Agent.Notifications.Decision.{World, Settings}
use pi_ops.Agent.Notifications.Statements.{
  reconcile_notifications, mark_notification_job_delivered, mark_notification_job_retry,
  reset_running_notification_jobs, reset_incidents,
}
use pi_ops.Agent.Notifications.Worker.{
  SendError, Delivery, Stage, WorkerConfig, fail, settle, deliver, work, drain_from, drain,
  serve_all, get_summary_severity, delivery_of,
}
use pi_ops.Agent.Notifications.Ledger.{Kept, changes, joins, Reach, here, step}
use pi_ops.Agent.Notifications.Reaches.{
  evaluate_if-Reach, evaluate_each-Reach, serve_all-Reach, reconcile-Reach,
}

-- What holds of each row and survives every step.
Reach-All {κ} :
    (P : JobRow → Type κ) {a b : List JobRow}
    → ((r q : JobRow) → Kept r q → P r → P q)
    → ((r : JobRow) → r.job.status ≡ pending → P r)
    → Reach a b
    → All P a
    → All P b
Reach-All P kept fresh here ps = ps
Reach-All P {a} kept fresh (step (changes f same e) rest) ps = Reach-All P kept fresh rest (
    subst (All P) (sym e)
      (All-of_map P f a (All-map P (λ r. P (f r)) a (λ r. kept r (f r) (same r)) ps)))
Reach-All P kept fresh (step (joins r fits e) rest) ps =
    Reach-All P kept fresh rest (subst (All P) (sym e) (fresh r fits.waits, ps))

abbrev pub Idle : JobRow → Type 0
Idle r = is_running r.job.status ≡ false

abbrev IdleBut : (id : String) → JobRow → Type 0
IdleBut id r = is_running r.job.status ≡ true → str_eq r.job.id id ≡ true

Idle-Kept : (r q : JobRow) → Kept r q → Idle r → Idle q
Idle-Kept r q (_, inl e) h = ap is_running e ∙ h
Idle-Kept r q (_, inr (_, e)) h = ap is_running e

IdleBut-Kept : (id : String) (r q : JobRow) → Kept r q → IdleBut id r → IdleBut id q
IdleBut-Kept id r q (same, inl e) h n =
    ap (λ (i, t, m, s). str_eq i id) same ∙ h (sym (ap is_running e) ∙ n)
IdleBut-Kept id r q (_, inr (_, e)) h n = absurd (ground (arith, ap is_running e))

pub Reach-Idle : {a b : List JobRow} → Reach a b → All Idle a → All Idle b
Reach-Idle = Reach-All Idle Idle-Kept (λ r e. ap is_running e)

Reach-IdleBut :
    (id : String) {a b : List JobRow} → Reach a b → All (IdleBut id) a → All (IdleBut id) b
Reach-IdleBut id =
    Reach-All (IdleBut id) (IdleBut-Kept id) (λ r e n. absurd (ground (arith, ap is_running e)))

-- An update of the running rows with an id that leaves them idle.
settled-Idle :
    (id : String) (f : JobRow → JobRow) (rows : List JobRow)
    → ((r : JobRow) → Idle (f r))
    → All (IdleBut id) rows
    → All Idle (update_where (running_with id) f rows).0
settled-Idle id f rows idle h =
    All-update_where (IdleBut id) Idle (running_with id) f rows (λ r _ _. idle r)
      (λ r but miss. ground (arith, but)) h

begun-IdleBut :
    (id now : String) (s : Notifications)
    → All Idle s.jobs
    → All (IdleBut id) (mark_notification_job_running id now s).0.jobs
unfolding mark_notification_job_running
begun-IdleBut id now s h =
    All-update_where Idle (IdleBut id) (pending_with id) (begun now) s.jobs
      (λ r _ hit _. and_left _ _ hit) (λ r idle _ n. absurd (ground arith)) h

module _ (settings : Settings) where
  delivered-Idle :
      (world : World) (now id : String) (s : Notifications)
      → All (IdleBut id) s.jobs
      → All Idle (mark_notification_job_delivered settings world now id s).0.jobs
  unfolding mark_notification_job_delivered
  delivered-Idle world now id s h =
      let (jobs, changed) = update_where (running_with id) (done now) s.jobs in
      Reach-Idle (evaluate_if-Reach settings world now id changed (record s { jobs = jobs }))
        (settled-Idle id (done now) s.jobs (λ r. refl) h)

  retry-Idle :
      (world : World) (now id m : String) (is_failed : Bool) (s : Notifications)
      → All (IdleBut id) s.jobs
      → All Idle (mark_notification_job_retry settings world now id m is_failed s).0.jobs
  unfolding mark_notification_job_retry
  retry-Idle world now id m is_failed s h =
      let (jobs, changed) = update_where (running_with id) (retried m is_failed now) s.jobs in
      Reach-Idle (evaluate_if-Reach settings world now id changed (record s { jobs = jobs }))
        (settled-Idle id (retried m is_failed now) s.jobs (λ r. ended is_failed) h)
    where
      ended : (b : Bool) → is_running (if b then failed else pending) ≡ false
      ended true = refl
      ended false = refl

  pub reset-Idle :
      (world : World) (now : String) (s : Notifications)
      → All Idle (reset_running_notification_jobs settings world now s).jobs
  unfolding reset_running_notification_jobs
  reset-Idle world now s =
      let jobs = (update_where (λ r. is_running r.job.status) (put_back now) s.jobs).0 in
      Reach-Idle
        (evaluate_each-Reach settings world now (reset_incidents settings world now s.jobs)
          (record s { jobs = jobs }))
        (All-update_where (λ _. Unit {0}) Idle (λ r. is_running r.job.status) (put_back now) s.jobs
          (λ r _ _. refl) (λ r _ e. e) (Memᴰ-All (λ _. Unit {0}) s.jobs (λ _ _. tt)))

  module _ (config : WorkerConfig) where
    fail-Idle :
        (world : World) (now : String) (job : NotificationJob) (e : SendError) (s : Notifications)
        → All (IdleBut job.id) s.jobs
        → All Idle (fail settings config world now job e s).jobs
    unfolding fail
    fail-Idle world now job e s h = retry-Idle world now job.id _ _ s h

    settle-Idle :
        (job : NotificationJob) (d : Delivery) (failure : Option SendError) (s : Notifications)
        → All (IdleBut job.id) s.jobs
        → All Idle (settle settings config job d failure s).jobs
    settle-Idle job d none s h = delivered-Idle d.world d.ended_at job.id s h
    settle-Idle job d (some e) s h = fail-Idle d.world d.ended_at job e s h

    deliver-Idle :
        (stage : Stage) (job : NotificationJob) (severity : Attempt SummarySeverity)
        (s : Notifications)
        → All (IdleBut job.id) s.jobs
        → All Idle (deliver settings config stage job severity s).jobs
    deliver-Idle stage job (throws m) s h = fail-Idle stage.world stage.now job _ s h
    deliver-Idle stage job (returns severity) s h =
        let d = delivery_of stage job severity s in
        settle-Idle job d d.failure (serve_all settings d.requests s)
          (Reach-IdleBut job.id (serve_all-Reach settings d.requests s) h)

    pub work-Idle :
        (stage : Stage) (job : NotificationJob) (s : Notifications)
        → All Idle s.jobs
        → All Idle (work settings config stage job s).jobs
    unfolding work
    work-Idle stage job s h =
        let marked = (mark_notification_job_running job.id stage.now s).0 in
        let severity = get_summary_severity settings stage.world job.incident_id marked in
        if_cases {A = Notifications} (λ t. All Idle t.jobs)
          (mark_notification_job_running job.id stage.now s).1
          {x = deliver settings config stage job severity marked} {y = s}
          (λ _. deliver-Idle stage job severity marked (begun-IdleBut job.id stage.now s h))
          (λ _. h)

    drain_from-Idle :
        (stage_of : NotificationJob → Stage) (jobs : List NotificationJob) (s : Notifications)
        → All Idle s.jobs
        → All Idle (drain_from settings config stage_of jobs s).jobs
    unfolding drain_from
    drain_from-Idle stage_of [] s h = h
    drain_from-Idle stage_of (job ∷ jobs) s h =
        drain_from-Idle stage_of jobs (work settings config (stage_of job) job s)
          (work-Idle (stage_of job) job s h)

    pub drain-Idle :
        (world : World) (now : String) (notifier : Option (NotificationJob → Stage))
        (s : Notifications)
        → All Idle s.jobs
        → All Idle (drain settings config world now notifier s).jobs
    unfolding drain
    drain-Idle world now none s h = Reach-Idle (reconcile-Reach settings world now s) h
    drain-Idle world now (some stage_of) s h =
        let t = reconcile_notifications settings world now s in
        drain_from-Idle stage_of
          (list_pending_notification_jobs config.notification_job_batch_size t.jobs) t
          (Reach-Idle (reconcile-Reach settings world now s) h)
