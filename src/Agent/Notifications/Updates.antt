-- ===== src/Agent/Notifications/Updates.antt =====
-- apps/agent/src/notification-decision.ts: the updates of a diagnosis, and the evaluation as a whole.
use pi_ops.Agent.Notifications.Impact.{
  InvestigationReport, impact_keys, impact_summary_of, repair_keys, includes, unique_keys,
}
use pi_ops.Base.{
  String, str_eq, Bool, true, not, ◌&&◌, ◌||◌, Option, none, some, List, [], ◌∷◌, ◌++◌, any, find,
  filter, if◌then◌else◌,
}
use pi_ops.Base.Text.{template}
use pi_ops.Agent.Incidents.{IncidentRow, get_incident, is_recovered}
use pi_ops.Agent.Policy.{
  FirstNotificationFacts, FirstNotificationDecision, decide_first_notification,
}
use pi_ops.Agent.NotificationPayload.{
  investigation_completed, diagnosis_update, NotificationJob, is_open, build_notification_job,
}
use pi_ops.Agent.Notifications.{
  decided, reasoned, gaps, StoredNotificationDecision, Notifications, get_notification_decision,
  save_notification_decision, list_notification_jobs, Attempt, throws, returns, with_severity,
  schedule_notification_job,
}
use pi_ops.Agent.Notifications.Decision.{
  InvestigationSession, Round, analysis_of, and_then, final_value, is_blocked, open_first,
  succeeded_ids, tell_recovery, Settings, World,
}

module _ (settings : Settings) (world : World) (now : String) where
  abbrev pub update_job :
      IncidentRow
      → InvestigationSession
      → InvestigationReport
      → (added_impacts : List String) → NotificationJob
  update_job r session report added =
      let job =
        build_notification_job settings.locale_leb investigation_completed r
          (succeeded_ids settings world now r.id) now (some (analysis_of session report)) in
      record job {
        payload = record job.payload {
          notice = some diagnosis_update;
          impact_summary = impact_summary_of added;
        };
      }

  abbrev pub added_impacts : FirstNotificationFacts → Round → List String
  added_impacts facts round =
      filter (λ k. not (includes round.value.value_keys k)) (impact_keys facts)

  -- Nothing new, or no update is due.
  abbrev pub is_skipped :
      IncidentRow
      → FirstNotificationFacts
      → InvestigationReport
      → List NotificationJob
      → Round
      → Bool
  is_skipped r facts report jobs round =
      not (
        any (λ k. not (includes round.value.value_keys k))
          (repair_keys (succeeded_ids settings world now r.id) report)
        || any (λ _. true) (added_impacts facts round))
      || is_blocked (is_recovered r.state) round.initial jobs

  unfoldable pub send_update :
      IncidentRow
      → FirstNotificationFacts
      → InvestigationSession
      → InvestigationReport
      → List NotificationJob
      → Round
      → Attempt (List NotificationJob × Round)
  send_update r facts session report jobs round =
      let job = update_job r session report (added_impacts facts round) in
      and_then (schedule_notification_job settings.summary_severity job round.tables) (λ t.
        returns (
          jobs ++ with_severity settings.summary_severity job round.tables ∷ [],
          record round {
            tables = t;
            value = record round.value {
              value_keys = unique_keys [] (
                  round.value.value_keys
                  ++ repair_keys (succeeded_ids settings world now r.id) report
                  ++ impact_keys facts);
            };
          },
        ))

  -- The round of the loop for one session, whose report is there. `jobs` is the list that the loop
  -- appends to.
  unfoldable pub update_with :
      IncidentRow
      → FirstNotificationFacts
      → InvestigationSession
      → InvestigationReport
      → List NotificationJob × Round
      → Attempt (List NotificationJob × Round)
  update_with r facts session report (jobs, round) =
      if is_skipped r facts report jobs round
      then returns (jobs, round)
      else send_update r facts session report jobs round

  abbrev pub update_on :
      IncidentRow
      → FirstNotificationFacts
      → InvestigationSession
      → Option InvestigationReport
      → List NotificationJob × Round
      → Attempt (List NotificationJob × Round)
  update_on r facts session none state = returns state
  update_on r facts session (some report) state = update_with r facts session report state

  unfoldable pub update_each :
      IncidentRow
      → FirstNotificationFacts
      → List InvestigationSession
      → List NotificationJob × Round
      → Attempt (List NotificationJob × Round)
  update_each r facts [] state = returns state
  update_each r facts (session ∷ sessions) state =
      and_then (update_on r facts session (world.report_of session.id) state)
        (λ next. update_each r facts sessions next)

  abbrev pub completed_sessions : (incident_id : String) → List InvestigationSession
  completed_sessions id =
      filter (λ x. str_eq x.incident_id id && str_eq x.status "COMPLETED") world.sessions

  abbrev pub first_value :
      FirstNotificationFacts
      → FirstNotificationDecision
      → (previous : StoredNotificationDecision) → StoredNotificationDecision
  first_value facts d previous = record {
    evaluated_at = now;
    action = decided d.action;
    reason = reasoned d.reason;
    facts = some facts;
    missing = gaps d.gaps;
    due_at = facts.unknown_impact_due_at;
    value_keys = previous.value_keys;
  }

  abbrev pub finish :
      IncidentRow → List NotificationJob × Round → StoredNotificationDecision × Notifications
  finish r (jobs, round) =
      let value = final_value (is_recovered r.state) round.initial round.value in
      (value, save_notification_decision r.id value round.tables)

  -- The body once the facts are there.
  unfoldable pub evaluate_facts :
      IncidentRow
      → (previous : StoredNotificationDecision) → FirstNotificationFacts
      → Notifications
      → Attempt (StoredNotificationDecision × Notifications)
  unfolding decide_first_notification
  evaluate_facts r previous facts s =
      let d = decide_first_notification facts in
      let value = first_value facts d previous in
      let saved = save_notification_decision r.id value s in
      let jobs = list_notification_jobs r.id saved.jobs in
      and_then
        (open_first settings world now r facts d (find (λ j. is_open j.type) jobs) value saved)
        (λ a. and_then (tell_recovery settings world now r a.initial a.value a.tables) (λ b.
          and_then (update_each r facts (completed_sessions r.id) (jobs, b))
            (λ c. returns (finish r c))))

  abbrev pub evaluate_known :
      IncidentRow
      → Option StoredNotificationDecision
      → Notifications
      → Attempt (Option StoredNotificationDecision × Notifications)
  evaluate_known r none s = returns (none, s)
  evaluate_known r (some previous) s = and_then (world.facts_of r.id now) (λ facts.
      and_then (evaluate_facts r previous facts s) (λ (value, t). returns (some value, t)))

  abbrev pub evaluate_incident :
      (incident_id : String)
      → Option IncidentRow
      → Notifications
      → Attempt (Option StoredNotificationDecision × Notifications)
  evaluate_incident id none s = throws (template ("Incident " ∷ id ∷ " does not exist" ∷ []))
  evaluate_incident id (some r) s = evaluate_known r (get_notification_decision r.id s) s

  -- `evaluateNotification` of notification-decision.ts.
  unfoldable pub try_evaluate :
      (incident_id : String)
      → Notifications
      → Attempt (Option StoredNotificationDecision × Notifications)
  try_evaluate id s = evaluate_incident id (get_incident id world.incidents) s
