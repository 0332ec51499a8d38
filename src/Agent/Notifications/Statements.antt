-- ===== src/Agent/Notifications/Statements.antt =====
-- apps/agent/src/store.ts: the statements on notifications that evaluate an incident. The instants that one
-- statement reads are one.
use pi_ops.Base.{
  String, Bool, true, false, not, ◌&&◌, ◌||◌, leb, Option, none, some, List, [], ◌∷◌, map, any,
  filter, if◌then◌else◌,
}
use pi_ops.Agent.Incidents.{IncidentRow, get_incident, is_recovered, distinct}
use pi_ops.Agent.Jobs.{update_where}
use pi_ops.Agent.NotificationPayload.{NotificationJob}
use pi_ops.Agent.Notifications.{
  recover, error, message, fact_conversion_failed, StoredNotificationDecision, Notifications,
  is_pending, is_running, is_first_policy, JobRow, DecisionAction, running_with, done, retried,
  put_back, get_notification_job, get_notification_decision, save_notification_decision,
  list_notification_jobs, Attempt, throws, returns,
}
use pi_ops.Agent.Notifications.Decision.{World, Settings}
use pi_ops.Agent.Notifications.Updates.{try_evaluate}

module _ (settings : Settings) (world : World) (now : String) where
  abbrev keys_of : Option StoredNotificationDecision → List String
  keys_of none = []
  keys_of (some d) = d.value_keys

  abbrev pub failed_value :
      (error_message : String) → Option StoredNotificationDecision → StoredNotificationDecision
  failed_value m previous = record {
    evaluated_at = now;
    action = error;
    reason = message m;
    facts = none;
    missing = fact_conversion_failed;
    due_at = none;
    value_keys = keys_of previous;
  }

  abbrev pub is_there : Option IncidentRow → Bool
  is_there none = false
  is_there (some _) = true

  -- An error leaves the transaction, and is saved as the decision.
  abbrev pub caught :
      (incident_id : String)
      → Notifications
      → Attempt (Option StoredNotificationDecision × Notifications)
      → Notifications
  caught id s (returns (_, t)) = t
  caught id s (throws m) =
      if is_there (get_incident id world.incidents)
      then save_notification_decision id (failed_value m (get_notification_decision id s)) s
      else s

  -- `evaluateNotification` of store.ts.
  unfoldable pub evaluate_notification : (incident_id : String) → Notifications → Notifications
  evaluate_notification id s = caught id s (try_evaluate settings world now id s)

  abbrev is_recover : DecisionAction → Bool
  is_recover recover = true
  is_recover _ = false

  abbrev is_error : DecisionAction → Bool
  is_error error = true
  is_error _ = false

  abbrev is_due : Option String → Bool
  is_due none = false
  is_due (some at) = leb (settings.time_of at) (settings.time_of now)

  abbrev pub needs_evaluation :
      IncidentRow → Option StoredNotificationDecision → List NotificationJob → Bool
  needs_evaluation r none jobs = false
  needs_evaluation r (some d) jobs =
      (is_recovered r.state && any (λ j. is_pending j.status) jobs)
      || (not (is_recover d.action) && (is_error d.action || is_due d.due_at))

  unfoldable pub reconcile_each : List IncidentRow → Notifications → Notifications
  reconcile_each [] s = s
  reconcile_each (r ∷ rs) s = reconcile_each rs (
      if needs_evaluation r (get_notification_decision r.id s) (list_notification_jobs r.id s.jobs)
      then evaluate_notification r.id s
      else s)

  unfoldable pub reconcile_notifications : Notifications → Notifications
  reconcile_notifications s = reconcile_each world.incidents s

  abbrev pub evaluate_of : Option NotificationJob → Notifications → Notifications
  evaluate_of none s = s
  evaluate_of (some job) s = evaluate_notification job.incident_id s

  -- The update, and the evaluation if it changed a row.
  abbrev pub evaluate_if : (id : String) → Bool → Notifications → Notifications
  evaluate_if id changed s = if changed then evaluate_of (get_notification_job id s.jobs) s else s

  unfoldable pub mark_notification_job_delivered :
      (id : String) → Notifications → Notifications × Bool
  mark_notification_job_delivered id s =
      let (jobs, changed) = update_where (running_with id) (done now) s.jobs in
      (evaluate_if id changed (record s { jobs = jobs }), changed)

  unfoldable pub mark_notification_job_retry :
      (id last_error : String) (is_failed : Bool) → Notifications → Notifications × Bool
  mark_notification_job_retry id last_error is_failed s =
      let (jobs, changed) =
        update_where (running_with id) (retried last_error is_failed now) s.jobs in
      (evaluate_if id changed (record s { jobs = jobs }), changed)

  -- SELECT DISTINCT incident_id ... WHERE status = 'RUNNING' AND policy_version = '1'.
  abbrev pub reset_incidents : List JobRow → List String
  reset_incidents rows = distinct (
      map (λ r. r.job.incident_id)
        (filter (λ r. is_running r.job.status && is_first_policy r.policy_version) rows))

  abbrev pub evaluate_each : List String → Notifications → Notifications
  evaluate_each [] s = s
  evaluate_each (id ∷ ids) s = evaluate_each ids (evaluate_notification id s)

  unfoldable pub reset_running_notification_jobs : Notifications → Notifications
  reset_running_notification_jobs s =
      evaluate_each (reset_incidents s.jobs)
        (record s { jobs = (update_where (λ r. is_running r.job.status) (put_back now) s.jobs).0 })
