-- ===== src/Agent/NotificationPayload.antt =====
-- apps/agent/src/notification.ts: the jobs of notifications and how they are built; and the severity
-- of notification-config.ts that a payload carries.
--
-- The schema version of a payload, which is constant, is left out. `incident.event_count` is present
-- only after the payload of a waiting job was replaced.
use pi_ops.Base.{
  ℕ, String, str_eq, Bool, true, false, ◌||◌, Option, none, some, List, [], ◌∷◌, any, if◌then◌else◌,
}
use Prim.Native.String.{◌++◌ as text_append}
use pi_ops.Base.Order.{sort_by}
use pi_ops.Protocol.{OpsEventSeverity}
use pi_ops.Protocol.Investigation.{InvestigationDiagnosis, SummarySeverity, severe, high, ordinary}
use pi_ops.Agent.Policy.{
  NotificationObservation, jvm_exception, health, critical_task, bound, failure, TaskResult,
  docker_oom_killed, is_critical_operation,
}
use pi_ops.Agent.Incidents.{IncidentRow, IncidentState}

pub data NotificationType : Type 0 where
  incident_open investigation_completed incident_recovered : NotificationType

pub data NotificationJobStatus : Type 0 where
  pending running delivered failed : NotificationJobStatus

pub data Notice : Type 0 where
  fault manual_confirmation diagnosis_update recovered_before_delivery : Notice

pub record NotificationIncident : Type 0 where
  pub id : String
  pub service : String
  pub node_id : String
  pub type : String
  pub severity : OpsEventSeverity
  pub state : IncidentState
  pub first_seen : String
  pub last_seen : String
  pub event_count : Option ℕ

pub record NotificationAnalysis : Type 0 where
  pub investigation_session_id : String
  pub reasoning_result_id : String
  pub hypothesis : String
  pub confidence : String
  pub recommendation : String
  pub diagnosis : Option InvestigationDiagnosis

pub record PayloadFacts : Type 0 where
  pub event_count : ℕ
  pub evidence_ids : List String

pub record NotificationPayload : Type 0 where
  pub notification_id : String
  pub type : NotificationType
  pub incident : NotificationIncident
  pub facts : PayloadFacts
  pub notice : Option Notice
  pub impact_summary : Option String
  pub summary_severity : Option SummarySeverity
  pub analysis : Option NotificationAnalysis

pub record NotificationJob : Type 0 where
  pub id : String
  pub type : NotificationType
  pub incident_id : String
  pub investigation_session_id : Option String
  pub reasoning_result_id : Option String
  pub status : NotificationJobStatus
  pub attempts : ℕ
  pub payload : NotificationPayload
  pub last_error : Option String
  pub created_at : String
  pub updated_at : String
  pub delivered_at : Option String

unfoldable pub notification_job_id : NotificationType → (key : String) → String
notification_job_id incident_open key = text_append "njob-open-" key
notification_job_id investigation_completed key = text_append "njob-completed-" key
notification_job_id incident_recovered key = text_append "njob-recovered-" key

abbrev pub is_open : NotificationType → Bool
is_open incident_open = true
is_open _ = false

abbrev pub is_completed : NotificationType → Bool
is_completed investigation_completed = true
is_completed _ = false

abbrev pub is_recovered_notice : NotificationType → Bool
is_recovered_notice incident_recovered = true
is_recovered_notice _ = false

abbrev pub incident_facts_from_row : IncidentRow → NotificationIncident
incident_facts_from_row r = record {
  id = r.id;
  service = r.service;
  node_id = r.node_id;
  type = r.type;
  severity = r.severity;
  state = r.state;
  first_seen = r.first_seen;
  last_seen = r.last_seen;
  event_count = some r.event_count;
}

-- A text that the source tests as a condition: the empty one counts as none.
abbrev pub when_text : Option String → Option String
when_text none = none
when_text (some s) = if str_eq s "" then none else some s

abbrev analysis_for : NotificationType → Option NotificationAnalysis → Option NotificationAnalysis
analysis_for investigation_completed analysis = analysis
analysis_for _ analysis = none

-- A job about an incident, or about the session of the analysis if there is one.
abbrev pub key_of : NotificationType → (incident_id : String) → Option NotificationAnalysis → String
key_of investigation_completed incident_id (some a) = a.investigation_session_id
key_of _ incident_id _ = incident_id

abbrev pub session_of : Option NotificationAnalysis → Option String
session_of none = none
session_of (some a) = when_text (some a.investigation_session_id)

abbrev pub result_of : Option NotificationAnalysis → Option String
result_of none = none
result_of (some a) = when_text (some a.reasoning_result_id)

-- `localeCompare` is the argument `locale_leb`: whether the left text stands first.
module _ (locale_leb : String → String → Bool) where
  unfoldable pub build_notification_payload :
      (notification_id : String)
      → NotificationType
      → IncidentRow
      → (evidence_ids : List String) → Option NotificationAnalysis
      → NotificationPayload
  build_notification_payload notification_id type incident evidence_ids analysis = record {
    notification_id = notification_id;
    type = type;
    incident = record (incident_facts_from_row incident) { event_count = none };
    facts = record {
      event_count = incident.event_count;
      evidence_ids = sort_by locale_leb evidence_ids;
    };
    notice = none;
    impact_summary = none;
    summary_severity = none;
    analysis = analysis_for type analysis;
  }

  unfoldable pub build_notification_job :
      NotificationType
      → IncidentRow
      → (evidence_ids : List String) (now : String) → Option NotificationAnalysis
      → NotificationJob
  unfolding build_notification_payload
  build_notification_job type incident evidence_ids now analysis =
      let id = notification_job_id type (key_of type incident.id analysis) in
      record {
        id = id;
        type = type;
        incident_id = incident.id;
        investigation_session_id = session_of analysis;
        reasoning_result_id = result_of analysis;
        status = pending;
        attempts = 0;
        payload = build_notification_payload id type incident evidence_ids analysis;
        last_error = none;
        created_at = now;
        updated_at = now;
        delivered_at = none;
      }

pub record SummarySeverityRules : Type 0 where
  pub unavailable_types : List String
  pub unavailable : SummarySeverity
  pub critical_operation : SummarySeverity
  pub other : SummarySeverity

abbrev pub default_summary_severity : SummarySeverityRules
default_summary_severity = record {
  unavailable_types =
      "jvm.oom" ∷ "container.oom" ∷ "jvm.stack_overflow" ∷ "health.failure" ∷ "container.die" ∷ [];
  unavailable = record { level = severe; reason = "服务可能不可用，需要优先止损。" };
  critical_operation = record { level = high; reason = "已配置的关键接口或核心业务流程报错。" };
  other = record { level = ordinary; reason = "尚无服务不可用或关键业务受影响的确认事实。" };
}

abbrev pub is_fatal_class : String → Bool
is_fatal_class c = str_eq c "java.lang.OutOfMemoryError" || str_eq c "java.lang.StackOverflowError"

abbrev is_unavailable : NotificationObservation → Bool
is_unavailable (jvm_exception clazz message stack source) = is_fatal_class clazz
is_unavailable (health (bound target rule_id) failure source) = true
is_unavailable o = docker_oom_killed o

abbrev is_failed_operation : NotificationObservation → Bool
is_failed_operation (critical_task TaskResult.failed (bound object_key rule_id) source) = true
is_failed_operation o = is_critical_operation o

abbrev rules_or : Option SummarySeverityRules → SummarySeverityRules
rules_or none = default_summary_severity
rules_or (some rules) = rules

unfoldable pub rule_summary_severity :
    (type : String) → List NotificationObservation → Option SummarySeverityRules → SummarySeverity
unfolding docker_oom_killed is_critical_operation
rule_summary_severity type observations configured =
    let rules = rules_or configured in
    if any (λ t. str_eq t type) rules.unavailable_types || any is_unavailable observations
    then rules.unavailable
    else if any is_failed_operation observations
    then rules.critical_operation
    else rules.other
