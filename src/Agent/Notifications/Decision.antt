-- ===== src/Agent/Notifications/Decision.antt =====
-- apps/agent/src/notification-decision.ts: what an evaluation of an incident writes into the tables of
-- notifications.
--
-- What it reads in the other tables is a `World`, which each evaluation has of its own.
use pi_ops.Agent.Notifications.Impact.{InvestigationReport, impact_keys}
use pi_ops.Base.{
  ℕ, String, str_eq, Bool, true, false, not, ◌&&◌, ◌||◌, Option, none, some, List, map, any, filter,
  if◌then◌else◌,
}
use Prim.Native.String.{◌++◌ as text_append}
use pi_ops.Agent.Incidents.{IncidentRow, is_recovered}
use pi_ops.Agent.Policy.{
  FirstNotificationFacts, FirstNotificationDecision, FirstNotificationReason, Action, alert,
  analyze, sustained_impact_unknown,
}
use pi_ops.Agent.NotificationPayload.{
  incident_open, incident_recovered, Notice, fault, manual_confirmation, recovered_before_delivery,
  NotificationJob, NotificationAnalysis, SummarySeverityRules, is_completed,
  incident_facts_from_row, build_notification_job, NotificationPayload,
}
use pi_ops.Agent.Notifications.{
  decided, recover, StoredNotificationDecision, Notifications, is_pending, is_delivered,
  save_notification_decision, Attempt, throws, returns, with_severity, schedule_notification_job,
  suppress_pending_diagnosis_updates, update_pending_notification_payload,
}

pub record EvidenceItem : Type 0 where
  pub id : String
  pub status : String

pub record InvestigationSession : Type 0 where
  pub id : String
  pub incident_id : String
  pub status : String

-- `incidents` stands in the order of `listIncidents`, `clock` is the wall clock, and `facts_of` is
-- `buildFirstNotificationFactsFromStore` on the incident's events.
pub record World : Type 0 where
  pub incidents : List IncidentRow
  pub clock : String
  pub facts_of : (incident_id now : String) → Attempt FirstNotificationFacts
  pub list_evidence : (incident_id : String) → List EvidenceItem
  pub sessions : List InvestigationSession
  pub report_of : (session_id : String) → Option InvestigationReport

pub record Settings : Type 0 where
  pub time_of : String → ℕ
  pub locale_leb : String → String → Bool
  pub summary_severity : Option SummarySeverityRules

-- What an evaluation has so far: the tables, its decision and the incident's first notification.
pub record Round : Type 0 where
  pub tables : Notifications
  pub value : StoredNotificationDecision
  pub initial : Option NotificationJob

abbrev pub and_then {ℓ κ} : {A : Type ℓ} {B : Type κ} → Attempt A → (A → Attempt B) → Attempt B
and_then (throws m) f = throws m
and_then (returns a) f = f a

abbrev pub opens_now : FirstNotificationDecision → (recovered : Bool) → Bool
opens_now d recovered =
    is_alert d.action || (is_analyze d.action && is_unknown d.reason && not recovered)
  where
    is_alert : Action → Bool
    is_alert alert = true
    is_alert _ = false

    is_analyze : Action → Bool
    is_analyze analyze = true
    is_analyze _ = false

    is_unknown : FirstNotificationReason → Bool
    is_unknown sustained_impact_unknown = true
    is_unknown _ = false

abbrev pub first_notice : (recovered : Bool) → FirstNotificationReason → Notice
first_notice true _ = recovered_before_delivery
first_notice false sustained_impact_unknown = manual_confirmation
first_notice false _ = fault

abbrev pub with_notice : Notice → NotificationJob → NotificationJob
with_notice n job = record job { payload = record job.payload { notice = some n } }

abbrev pub recovered_payload : IncidentRow → NotificationJob → NotificationPayload
recovered_payload r job = record job.payload {
  incident = incident_facts_from_row r;
  notice = some recovered_before_delivery;
}

abbrev pub told_recovery : Option Notice → Bool
told_recovery (some recovered_before_delivery) = true
told_recovery _ = false

abbrev pub analysis_of : InvestigationSession → InvestigationReport → NotificationAnalysis
analysis_of session report = record {
  investigation_session_id = session.id;
  reasoning_result_id = text_append "reason-" session.id;
  hypothesis = report.hypothesis;
  confidence = report.confidence;
  recommendation = report.recommendation;
  diagnosis = report.diagnosis;
}

abbrev pub delivered_first : Option NotificationJob → Bool
delivered_first none = false
delivered_first (some job) = is_delivered job.status

abbrev pub is_blocked : (recovered : Bool) → Option NotificationJob → List NotificationJob → Bool
is_blocked recovered initial jobs =
    not (delivered_first initial) || recovered || any (λ j. is_completed j.type) jobs

abbrev pub final_value :
    (recovered : Bool)
    → Option NotificationJob
    → StoredNotificationDecision
    → StoredNotificationDecision
final_value recovered none v = v
final_value recovered (some job) v = record v {
  due_at = none;
  action = (if recovered then v.action else decided alert);
}

module _ (settings : Settings) (world : World) (now : String) where
  abbrev pub succeeded_ids : (incident_id : String) → List String
  succeeded_ids id =
      map (λ e. e.id) (filter (λ e. str_eq e.status "succeeded") (world.list_evidence id))

  abbrev pub first_job : IncidentRow → FirstNotificationDecision → NotificationJob
  first_job r d =
      with_notice (first_notice (is_recovered r.state) d.reason)
        (build_notification_job settings.locale_leb incident_open r (succeeded_ids r.id) now none)

  -- The first notification, with the severity that it is stored with.
  unfoldable pub open_first :
      IncidentRow
      → FirstNotificationFacts
      → FirstNotificationDecision
      → Option NotificationJob
      → StoredNotificationDecision
      → Notifications
      → Attempt Round
  open_first r facts d (some job) v s =
      returns (record { tables = s; value = v; initial = some job })
  open_first r facts d none v s =
      if opens_now d (is_recovered r.state)
      then (let value = record v { action = decided alert } in
          let saved = save_notification_decision r.id value s in
          and_then (schedule_notification_job settings.summary_severity (first_job r d) saved) (λ t.
            returns (record {
              tables = t;
              value = record value { value_keys = impact_keys facts };
              initial = some (with_severity settings.summary_severity (first_job r d) saved);
            })))
      else returns (record { tables = s; value = v; initial = none })

  abbrev pub recovery_job : IncidentRow → NotificationJob
  recovery_job r =
      build_notification_job settings.locale_leb incident_recovered r (succeeded_ids r.id) now none

  -- The notification of a recovery: in the first one if that waits, or after it.
  unfoldable pub tell_of_recovery :
      IncidentRow → NotificationJob → Notifications → Attempt Notifications
  tell_of_recovery r job s =
      if is_pending job.status
      then returns (update_pending_notification_payload job.id (recovered_payload r job) s)
      else if is_delivered job.status && not (told_recovery job.payload.notice)
      then schedule_notification_job settings.summary_severity (recovery_job r) s
      else returns s

  unfoldable pub tell_recovery :
      IncidentRow
      → Option NotificationJob
      → StoredNotificationDecision
      → Notifications
      → Attempt Round
  tell_recovery r none v s = returns (record { tables = s; value = v; initial = none })
  tell_recovery r (some job) v s =
      if is_recovered r.state
      then and_then (tell_of_recovery r job (suppress_pending_diagnosis_updates r.id world.clock s))
          (λ t.
            returns
              (record { tables = t; value = record v { action = recover }; initial = some job }))
      else returns (record { tables = s; value = v; initial = some job })
