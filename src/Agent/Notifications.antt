-- ===== src/Agent/Notifications.antt =====
-- apps/agent/src/store.ts: the tables notification_decisions and notification_jobs, and the statements
-- that change them. An INSERT OR IGNORE looks at the primary key and at the unique indexes.
--
-- A decision and a payload are held as data where the source holds their JSON text.
pub mod Impact
pub mod Decision
pub mod Updates
pub mod Statements
pub mod Worker
pub mod Ledger
pub mod Moves
pub mod Listing
pub mod Evaluates
pub mod Reaches
pub mod Sound
pub mod Idle
pub mod Connects
pub mod Recovers
pub mod Laws
mod Tests
use pi_ops.Base.{
  ℕ, ◌+◌, String, str_eq, Bool, true, false, not, ◌&&◌, ◌||◌, Option, none, some, List, [], ◌∷◌,
  take, map, any, find, filter, if◌then◌else◌,
}
use pi_ops.Base.Order.{text_leb, sort_by}
use pi_ops.Agent.Jobs.{update_where}
use pi_ops.Agent.Policy.{
  FirstNotificationFacts, FirstNotificationReason, Action, MissingFact, NotificationObservation,
}
use pi_ops.Agent.NotificationPayload.{
  NotificationType, NotificationJobStatus, pending, running, delivered, failed, NotificationPayload,
  NotificationJob, SummarySeverityRules, is_open, is_completed, is_recovered_notice, when_text,
  rule_summary_severity,
}

pub data DecisionAction : Type 0 where
  decided : Action → DecisionAction
  recover error : DecisionAction

pub data DecisionReason : Type 0 where
  reasoned : FirstNotificationReason → DecisionReason
  not_decided : DecisionReason
  message : String → DecisionReason

pub data Missing : Type 0 where
  gaps : List MissingFact → Missing
  fact_conversion_failed : Missing

pub record StoredNotificationDecision : Type 0 where
  pub evaluated_at : String
  pub action : DecisionAction
  pub reason : DecisionReason
  pub facts : Option FirstNotificationFacts
  pub missing : Missing
  pub due_at : Option String
  pub value_keys : List String

pub data PolicyVersion : Type 0 where
  legacy first_policy : PolicyVersion

-- A row of notification_jobs, as `mapNotificationJob` reads it, with the two columns it leaves out.
pub record JobRow : Type 0 where
  pub job : NotificationJob
  pub policy_version : PolicyVersion
  pub decision : Option StoredNotificationDecision

pub record Notifications : Type 0 where
  pub decisions : List (String × StoredNotificationDecision)
  pub jobs : List JobRow

abbrev pub is_pending : NotificationJobStatus → Bool
is_pending pending = true
is_pending _ = false

abbrev pub is_running : NotificationJobStatus → Bool
is_running running = true
is_running _ = false

abbrev pub is_delivered : NotificationJobStatus → Bool
is_delivered delivered = true
is_delivered _ = false

abbrev pub is_first_policy : PolicyVersion → Bool
is_first_policy first_policy = true
is_first_policy legacy = false

abbrev decision_of :
    Option (String × StoredNotificationDecision) → Option StoredNotificationDecision
decision_of none = none
decision_of (some (_, d)) = some d

abbrev pub has_incident : String → String × StoredNotificationDecision → Bool
has_incident id (i, _) = str_eq i id

unfoldable pub get_notification_decision :
    (incident_id : String) → Notifications → Option StoredNotificationDecision
get_notification_decision id s = decision_of (find (has_incident id) s.decisions)

-- INSERT ... ON CONFLICT DO UPDATE.
unfoldable pub save_notification_decision :
    (incident_id : String) → StoredNotificationDecision → Notifications → Notifications
save_notification_decision id d s =
    if any (has_incident id) s.decisions
    then record s { decisions = (update_where (has_incident id) (λ (i, _). (i, d)) s.decisions).0 }
    else record s { decisions = (id, d) ∷ s.decisions }

-- An empty text of a nullable column is left out too.
abbrev pub map_notification_job : JobRow → NotificationJob
map_notification_job r = record r.job {
  investigation_session_id = when_text r.job.investigation_session_id;
  reasoning_result_id = when_text r.job.reasoning_result_id;
  last_error = when_text r.job.last_error;
  delivered_at = when_text r.job.delivered_at;
}

abbrev pub has_id : String → JobRow → Bool
has_id id r = str_eq r.job.id id

unfoldable pub get_notification_job : (id : String) → List JobRow → Option NotificationJob
get_notification_job id rows = job_of (find (has_id id) rows)
  where
    job_of : Option JobRow → Option NotificationJob
    job_of none = none
    job_of (some r) = some (map_notification_job r)

-- ORDER BY created_at, id.
unfoldable pub listed_before : JobRow → JobRow → Bool
listed_before a b =
    text_leb a.job.created_at b.job.created_at
    && (not (str_eq a.job.created_at b.job.created_at) || text_leb a.job.id b.job.id)

abbrev pub of_incident : String → JobRow → Bool
of_incident id r = str_eq r.job.incident_id id

unfoldable pub list_notification_jobs : (incident_id : String) → List JobRow → List NotificationJob
list_notification_jobs id rows =
    map map_notification_job (sort_by listed_before (filter (of_incident id) rows))

unfoldable pub list_pending_notification_jobs : (limit : ℕ) → List JobRow → List NotificationJob
list_pending_notification_jobs limit rows =
    map map_notification_job
      (take limit (sort_by listed_before (filter (λ r. is_pending r.job.status) rows)))

abbrev pub same_session : Option String → Option String → Bool
same_session (some a) (some b) = str_eq a b
same_session _ _ = false

-- The primary key and the unique indexes on open, recovered and completed notifications.
abbrev pub conflicts : NotificationJob → JobRow → Bool
conflicts job r =
    str_eq r.job.id job.id
    || (is_open r.job.type && is_open job.type && str_eq r.job.incident_id job.incident_id)
    || (is_recovered_notice r.job.type
        && is_recovered_notice job.type
        && str_eq r.job.incident_id job.incident_id)
    || (is_completed r.job.type
        && is_completed job.type
        && same_session r.job.investigation_session_id job.investigation_session_id)

-- The unique index on the completed notifications of the first policy, for the row `id`.
abbrev pub stamp_conflicts : NotificationJob → JobRow → Bool
stamp_conflicts job r =
    not (str_eq r.job.id job.id)
    && is_completed r.job.type
    && is_completed job.type
    && is_first_policy r.policy_version
    && str_eq r.job.incident_id job.incident_id

abbrev pub stamped : StoredNotificationDecision → JobRow → JobRow
stamped d r = record r { policy_version = first_policy; decision = some d }

-- A statement, or the message of what it throws.
pub data Attempt {ℓ} (A : Type ℓ) : Type ℓ where
  throws : String → Attempt A
  returns : A → Attempt A

abbrev pub stamp :
    NotificationJob → Option StoredNotificationDecision → Notifications → Attempt Notifications
stamp job none s = returns s
stamp job (some d) s =
    if any (stamp_conflicts job) s.jobs
    then throws "UNIQUE constraint failed: notification_jobs.incident_id"
    else returns (record s { jobs = (update_where (has_id job.id) (stamped d) s.jobs).0 })

abbrev pub observations_of : Option StoredNotificationDecision → List NotificationObservation
observations_of none = []
observations_of (some d) = seen d.facts
  where
    seen : Option FirstNotificationFacts → List NotificationObservation
    seen none = []
    seen (some facts) = facts.observations

-- The job with the severity that scheduling it writes into its payload.
unfoldable pub with_severity :
    Option SummarySeverityRules → NotificationJob → Notifications → NotificationJob
with_severity rules job s = record job {
  payload = record job.payload {
    summary_severity = some (
        rule_summary_severity job.payload.incident.type
          (observations_of (get_notification_decision job.incident_id s)) rules);
  };
}

abbrev pub new_row : NotificationJob → JobRow
new_row job = record { job = job; policy_version = legacy; decision = none }

-- INSERT OR IGNORE, and what follows a row that is inserted.
unfoldable pub insert_job : NotificationJob → Notifications → Attempt Notifications
insert_job job s =
    if any (conflicts job) s.jobs
    then returns s
    else stamp job (get_notification_decision job.incident_id s)
        (record s { jobs = new_row job ∷ s.jobs })

unfoldable pub schedule_notification_job :
    Option SummarySeverityRules → NotificationJob → Notifications → Attempt Notifications
schedule_notification_job rules job s = insert_job (with_severity rules job s) s

abbrev pub pending_update_of : String → JobRow → Bool
pending_update_of incident_id r =
    str_eq r.job.incident_id incident_id
    && is_completed r.job.type
    && is_pending r.job.status
    && is_first_policy r.policy_version

abbrev pub suppressed : (now : String) → JobRow → JobRow
suppressed now r = record r {
  job = record r.job {
    status = failed;
    last_error = some "suppressed: incident recovered before diagnosis delivery";
    updated_at = now;
  };
}

unfoldable pub suppress_pending_diagnosis_updates :
    (incident_id now : String) → Notifications → Notifications
suppress_pending_diagnosis_updates incident_id now s = record s {
  jobs = (update_where (pending_update_of incident_id) (suppressed now) s.jobs).0;
}

abbrev pub pending_with : String → JobRow → Bool
pending_with id r = str_eq r.job.id id && is_pending r.job.status

abbrev pub running_with : String → JobRow → Bool
running_with id r = str_eq r.job.id id && is_running r.job.status

abbrev pub with_payload : NotificationPayload → JobRow → JobRow
with_payload payload r = record r { job = record r.job { payload = payload } }

unfoldable pub update_pending_notification_payload :
    (id : String) → NotificationPayload → Notifications → Notifications
update_pending_notification_payload id payload s = record s {
  jobs = (update_where (pending_with id) (with_payload payload) s.jobs).0;
}

abbrev pub begun : (now : String) → JobRow → JobRow
begun now r = record r {
  job = record r.job { status = running; attempts = r.job.attempts + 1; updated_at = now };
}

unfoldable pub mark_notification_job_running :
    (id now : String) → Notifications → Notifications × Bool
mark_notification_job_running id now s =
    let (jobs, changed) = update_where (pending_with id) (begun now) s.jobs in
    (record s { jobs = jobs }, changed)

abbrev pub done : (now : String) → JobRow → JobRow
done now r = record r {
  job = record r.job {
    status = delivered;
    last_error = none;
    updated_at = now;
    delivered_at = some now;
  };
}

abbrev pub retried : (last_error : String) (is_failed : Bool) (now : String) → JobRow → JobRow
retried last_error is_failed now r = record r {
  job = record r.job {
    status = (if is_failed then failed else pending);
    last_error = some last_error;
    updated_at = now;
  };
}

abbrev pub put_back : (now : String) → JobRow → JobRow
put_back now r = record r { job = record r.job { status = pending; updated_at = now } }
