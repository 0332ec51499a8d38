-- ===== src/Agent/Notifications/Laws.antt =====
-- What holds of the notifications at any time.
use pi_ops.Base.{String, Bool, Option, none, some, List, [], ◌∷◌, refl, if_cases, subst, sym, arith}
use pi_ops.Agent.Jobs.{update_where}
use pi_ops.Agent.NotificationPayload.{NotificationJob}
use pi_ops.Protocol.Investigation.{SummarySeverity}
use pi_ops.Agent.Notifications.{
  Notifications, Attempt, throws, returns, running_with, is_running, pending_with, begun, done,
  retried, put_back, mark_notification_job_running, list_pending_notification_jobs,
}
use pi_ops.Agent.Notifications.Decision.{World, Settings}
use pi_ops.Agent.Notifications.Statements.{
  mark_notification_job_delivered, mark_notification_job_retry, reset_running_notification_jobs,
  reset_incidents, reconcile_notifications,
}
use pi_ops.Agent.Notifications.Worker.{
  SendError, Delivery, Stage, WorkerConfig, Moment, begins, evaluates, starts, drains, fail, settle,
  deliver, delivery_of, work, drain_from, drain, serve_all, get_summary_severity, happen, run,
  pending_decision,
}
use pi_ops.Agent.Notifications.Moves.{jobs-save}
use pi_ops.Agent.Notifications.Reaches.{
  evaluate-Reach, evaluate_if-Reach, evaluate_each-Reach, serve_all-Reach, reconcile-Reach,
}
use pi_ops.Agent.Notifications.Sound.{Sound, Sound-Reach, update_where-Sound}
use pi_ops.Agent.Notifications.Idle.{Idle}

module _ (settings : Settings) where
  delivered-Sound :
      (world : World) (now id : String) (s : Notifications)
      → Sound s.jobs
      → Sound (mark_notification_job_delivered settings world now id s).0.jobs
  unfolding mark_notification_job_delivered
  delivered-Sound world now id s sound =
      let (jobs, changed) = update_where (running_with id) (done now) s.jobs in
      Sound-Reach (evaluate_if-Reach settings world now id changed (record s { jobs = jobs }))
        (update_where-Sound (running_with id) (done now) s.jobs (λ r. refl) (λ r _ _. refl) sound)

  retry-Sound :
      (world : World) (now id m : String) (is_failed : Bool) (s : Notifications)
      → Sound s.jobs
      → Sound (mark_notification_job_retry settings world now id m is_failed s).0.jobs
  unfolding mark_notification_job_retry
  retry-Sound world now id m is_failed s sound =
      let (jobs, changed) = update_where (running_with id) (retried m is_failed now) s.jobs in
      Sound-Reach (evaluate_if-Reach settings world now id changed (record s { jobs = jobs })) (
        update_where-Sound (running_with id) (retried m is_failed now) s.jobs (λ r. refl)
          (λ r running late. absurd (ground arith)) sound)

  reset-Sound :
      (world : World) (now : String) (s : Notifications)
      → Sound s.jobs
      → Sound (reset_running_notification_jobs settings world now s).jobs
  unfolding reset_running_notification_jobs
  reset-Sound world now s sound =
      let jobs = (update_where (λ r. is_running r.job.status) (put_back now) s.jobs).0 in
      Sound-Reach
        (evaluate_each-Reach settings world now (reset_incidents settings world now s.jobs)
          (record s { jobs = jobs }))
        (update_where-Sound (λ r. is_running r.job.status) (put_back now) s.jobs (λ r. refl)
          (λ r running late. absurd (ground arith)) sound)

  module _ (config : WorkerConfig) where
    fail-Sound :
        (world : World) (now : String) (job : NotificationJob) (e : SendError) (s : Notifications)
        → Sound s.jobs
        → Sound (fail settings config world now job e s).jobs
    unfolding fail
    fail-Sound world now job e s sound = retry-Sound world now job.id _ _ s sound

    settle-Sound :
        (job : NotificationJob) (d : Delivery) (failure : Option SendError) (s : Notifications)
        → Sound s.jobs
        → Sound (settle settings config job d failure s).jobs
    settle-Sound job d none s sound = delivered-Sound d.world d.ended_at job.id s sound
    settle-Sound job d (some e) s sound = fail-Sound d.world d.ended_at job e s sound

    deliver-Sound :
        (stage : Stage) (job : NotificationJob) (severity : Attempt SummarySeverity)
        (s : Notifications)
        → Sound s.jobs
        → Sound (deliver settings config stage job severity s).jobs
    deliver-Sound stage job (throws m) s sound = fail-Sound stage.world stage.now job _ s sound
    deliver-Sound stage job (returns severity) s sound =
        let d = delivery_of stage job severity s in
        settle-Sound job d d.failure (serve_all settings d.requests s)
          (Sound-Reach (serve_all-Reach settings d.requests s) sound)

    work-Sound :
        (stage : Stage) (job : NotificationJob) (s : Notifications)
        → Sound s.jobs
        → Sound (work settings config stage job s).jobs
    unfolding work mark_notification_job_running
    work-Sound stage job s sound =
        let marked = (mark_notification_job_running job.id stage.now s).0 in
        let severity = get_summary_severity settings stage.world job.incident_id marked in
        if_cases {A = Notifications} (λ t. Sound t.jobs)
          (mark_notification_job_running job.id stage.now s).1
          {x = deliver settings config stage job severity marked} {y = s}
          (λ _. deliver-Sound stage job severity marked (
            update_where-Sound (pending_with job.id) (begun stage.now) s.jobs (λ r. refl)
              (λ r waits late. absurd (ground arith)) sound))
          (λ _. sound)

    drain_from-Sound :
        (stage_of : NotificationJob → Stage) (jobs : List NotificationJob) (s : Notifications)
        → Sound s.jobs
        → Sound (drain_from settings config stage_of jobs s).jobs
    unfolding drain_from
    drain_from-Sound stage_of [] s sound = sound
    drain_from-Sound stage_of (job ∷ jobs) s sound =
        drain_from-Sound stage_of jobs (work settings config (stage_of job) job s)
          (work-Sound (stage_of job) job s sound)

    drain-Sound :
        (world : World) (now : String) (notifier : Option (NotificationJob → Stage))
        (s : Notifications)
        → Sound s.jobs
        → Sound (drain settings config world now notifier s).jobs
    unfolding drain
    drain-Sound world now none s sound = Sound-Reach (reconcile-Reach settings world now s) sound
    drain-Sound world now (some stage_of) s sound =
        let t = reconcile_notifications settings world now s in
        drain_from-Sound stage_of
          (list_pending_notification_jobs config.notification_job_batch_size t.jobs) t
          (Sound-Reach (reconcile-Reach settings world now s) sound)

    happen-Sound :
        (m : Moment) (s : Notifications) → Sound s.jobs → Sound (happen settings config m s).jobs
    unfolding happen
    happen-Sound (begins id now) s sound =
        subst Sound (sym (jobs-save id (pending_decision now) s)) sound
    happen-Sound (evaluates r) s sound =
        Sound-Reach (evaluate-Reach settings r.world r.now r.incident_id s) sound
    happen-Sound (starts world now) s sound = reset-Sound world now s sound
    happen-Sound (drains world now notifier) s sound = drain-Sound world now notifier s sound

    -- Over any sequence of new incidents, evaluations, starts and drains of the worker, each with its
    -- own view of the other tables and any answers of the notifier, from rows that are sound, as an
    -- empty table is: no two notifications have one id, an incident has at most one first notification, at most
    -- one of a recovery and at most one diagnosis update, and it has a notification of a recovery or a
    -- diagnosis update only once its first notification was delivered.
    pub run-Sound :
        (moments : List Moment) (s : Notifications)
        → Sound s.jobs
        → Sound (run settings config moments s).jobs
    unfolding run
    run-Sound [] s sound = sound
    run-Sound (m ∷ ms) s sound = run-Sound ms (happen settings config m s) (happen-Sound m s sound)
