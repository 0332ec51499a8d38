-- ===== src/Agent/Notifications/Worker.antt =====
-- apps/agent/src/notification-worker.ts: one drain of the pending notifications.
--
-- The notifier is the worker's argument: for each job, what the other tables hold when its payload is
-- made, and how the send ends. While the worker awaits the send, the agent may evaluate incidents: they
-- stand with the answer, each with its own view of the other tables.
use pi_ops.Base.{
  ℕ, ◌+◌, String, Bool, true, false, not, ◌||◌, leb, Option, none, some, List, [], ◌∷◌,
  if◌then◌else◌,
}
use pi_ops.Base.Text.{template}
use pi_ops.Agent.Incidents.{IncidentRow, get_incident}
use pi_ops.Protocol.Investigation.{SummarySeverity}
use pi_ops.Agent.NotificationPayload.{NotificationPayload, NotificationJob, rule_summary_severity}
use pi_ops.Agent.Policy.{record_only}
use pi_ops.Agent.Notifications.{
  decided, not_decided, gaps, StoredNotificationDecision, save_notification_decision, Notifications,
  Attempt, throws, returns, observations_of, get_notification_decision, get_notification_job,
  list_pending_notification_jobs, mark_notification_job_running,
}
use pi_ops.Agent.Notifications.Decision.{World, Settings}
use pi_ops.Agent.Notifications.Statements.{
  evaluate_notification, reconcile_notifications, mark_notification_job_delivered,
  mark_notification_job_retry, reset_running_notification_jobs,
}

-- What a send throws: the classes of notifier.ts, the two built-in kinds it looks for, and the rest.
pub data SendError : Type 0 where
  retryable terminal abort type_error other : String → SendError

unfoldable pub is_retryable_notification_error : SendError → Bool
is_retryable_notification_error (retryable m) = true
is_retryable_notification_error (terminal m) = false
is_retryable_notification_error (abort m) = true
is_retryable_notification_error (type_error m) = true
is_retryable_notification_error (other m) = false

abbrev pub error_message : SendError → String
error_message (retryable m) = m
error_message (terminal m) = m
error_message (abort m) = m
error_message (type_error m) = m
error_message (other m) = m

-- An evaluation of an incident that another part of the agent asks for.
pub record Request : Type 0 where
  pub incident_id : String
  pub world : World
  pub now : String

pub record Delivery : Type 0 where
  pub failure : Option SendError
  pub requests : List Request
  pub world : World
  pub ended_at : String

pub record Stage : Type 0 where
  pub world : World
  pub now : String
  pub send : NotificationPayload → Delivery

pub data Moment : Type 0 where
  begins : (incident_id now : String) → Moment
  evaluates : Request → Moment
  starts : World → (now : String) → Moment
  drains : World → (now : String) → Option (NotificationJob → Stage) → Moment

-- The decision that `createIncidentFromEvent` saves for a new incident.
abbrev pub pending_decision : (now : String) → StoredNotificationDecision
pending_decision now = record {
  evaluated_at = now;
  action = decided record_only;
  reason = not_decided;
  facts = none;
  missing = gaps [];
  due_at = none;
  value_keys = [];
}

pub record WorkerConfig : Type 0 where
  pub notification_job_max_attempts : ℕ
  pub notification_job_batch_size : ℕ

abbrev pub payload_of : Option NotificationJob → NotificationJob → NotificationPayload
payload_of none job = job.payload
payload_of (some current) job = current.payload

-- The send of the stored payload, with the severity of the moment.
abbrev pub delivery_of : Stage → NotificationJob → SummarySeverity → Notifications → Delivery
delivery_of stage job severity s =
    let payload = payload_of (get_notification_job job.id s.jobs) job in
    stage.send (record payload { summary_severity = some severity })

abbrev pub attempts_of : Option NotificationJob → NotificationJob → ℕ
attempts_of none job = job.attempts + 1
attempts_of (some current) job = current.attempts

module _ (settings : Settings) where
  abbrev pub severity_of :
      (incident_id : String) → Option IncidentRow → Notifications → Attempt SummarySeverity
  severity_of id none s = throws (template ("Incident " ∷ id ∷ " does not exist" ∷ []))
  severity_of id (some r) s = returns (
      rule_summary_severity r.type (observations_of (get_notification_decision id s))
        settings.summary_severity)

  unfoldable pub get_summary_severity :
      World → (incident_id : String) → Notifications → Attempt SummarySeverity
  get_summary_severity world id s = severity_of id (get_incident id world.incidents) s

  unfoldable pub serve_all : List Request → Notifications → Notifications
  serve_all [] s = s
  serve_all (r ∷ rs) s = serve_all rs (evaluate_notification settings r.world r.now r.incident_id s)

  module _ (config : WorkerConfig) where
    -- What the worker does with an error.
    unfoldable pub fail :
        World → (now : String) → NotificationJob → SendError → Notifications → Notifications
    fail world now job e s =
        let attempts = attempts_of (get_notification_job job.id s.jobs) job in
        let failed =
          not (is_retryable_notification_error e)
          || leb config.notification_job_max_attempts attempts in
        (mark_notification_job_retry settings world now job.id (error_message e) failed s).0

    abbrev pub settle :
        NotificationJob → Delivery → Option SendError → Notifications → Notifications
    settle job d none s = (mark_notification_job_delivered settings d.world d.ended_at job.id s).0
    settle job d (some e) s = fail d.world d.ended_at job e s

    -- An incident that is gone is an error.
    abbrev pub deliver :
        Stage → NotificationJob → Attempt SummarySeverity → Notifications → Notifications
    deliver stage job (throws m) s = fail stage.world stage.now job (other m) s
    deliver stage job (returns severity) s =
        let d = delivery_of stage job severity s in settle job d d.failure (serve_all d.requests s)

    unfoldable pub work : Stage → NotificationJob → Notifications → Notifications
    work stage job s =
        let (marked, changed) = mark_notification_job_running job.id stage.now s in
        if changed
        then deliver stage job (get_summary_severity stage.world job.incident_id marked) marked
        else s

    unfoldable pub drain_from :
        (NotificationJob → Stage) → List NotificationJob → Notifications → Notifications
    drain_from stage_of [] s = s
    drain_from stage_of (job ∷ jobs) s = drain_from stage_of jobs (work (stage_of job) job s)

    abbrev pub send_pending : Option (NotificationJob → Stage) → Notifications → Notifications
    send_pending none s = s
    send_pending (some stage_of) s =
        drain_from stage_of
          (list_pending_notification_jobs config.notification_job_batch_size s.jobs) s

    -- A worker without a notifier only reconciles.
    unfoldable pub drain :
        World → (now : String) → Option (NotificationJob → Stage) → Notifications → Notifications
    drain world now notifier s =
        send_pending notifier (reconcile_notifications settings world now s)

    -- What changes the notifications from outside: an incident begins, an incident is evaluated, the
    -- worker starts and the worker drains.
    unfoldable pub happen : Moment → Notifications → Notifications
    happen (begins incident_id now) s =
        save_notification_decision incident_id (pending_decision now) s
    happen (evaluates r) s = evaluate_notification settings r.world r.now r.incident_id s
    happen (starts world now) s = reset_running_notification_jobs settings world now s
    happen (drains world now notifier) s = drain world now notifier s

    unfoldable pub run : List Moment → Notifications → Notifications
    run [] s = s
    run (m ∷ ms) s = run ms (happen m s)
