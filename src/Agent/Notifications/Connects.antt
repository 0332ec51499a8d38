-- ===== src/Agent/Notifications/Connects.antt =====
-- apps/agent/src/store.ts: the incident engine with the notifications of this library in place of its
-- interface. The evidence and the investigations, of type `E`, stay a parameter.
use pi_ops.Base.{String, Bool, true, false, not, ◌&&◌, ◌||◌, Option, none, some, List, any}
use pi_ops.Protocol.{OpsEvent}
use pi_ops.Agent.NotificationConfig.{NotificationPolicyConfig}
use pi_ops.Agent.Policy.{
  FirstNotificationFacts, NotificationObservation, ordinary_error, alert, analyze,
  operation_binding, has,
}
use pi_ops.Agent.Incidents.{IncidentRow, Tables}
use pi_ops.Agent.Incidents.Engine.{Env}
use pi_ops.Agent.NotificationPayload.{is_open}
use pi_ops.Agent.Notifications.{
  Notifications, Attempt, StoredNotificationDecision, DecisionAction, decided, Missing, gaps,
  get_notification_decision, save_notification_decision, list_notification_jobs, observations_of,
}
use pi_ops.Agent.Notifications.Impact.{InvestigationReport}
use pi_ops.Agent.Notifications.Decision.{World, Settings, EvidenceItem, InvestigationSession}
use pi_ops.Agent.Notifications.Statements.{evaluate_notification}
use pi_ops.Agent.Notifications.Worker.{pending_decision}
use pi_ops.Agent.Notifications.Sound.{Sound}

-- `persist_evidence` is `persistJfrSignalEvidence`: the evidence with what it inserts, if it inserts, and
-- `inserted_at` the clock of that insertion.
pub record Database (E : Type 0) : Type 0 where
  pub policy : NotificationPolicyConfig
  pub stored_event : String → Option OpsEvent
  pub facts_of :
      Tables (E × Notifications) → (incident_id now : String) → Attempt FirstNotificationFacts
  pub list_evidence : E → (incident_id : String) → List EvidenceItem
  pub sessions : E → List InvestigationSession
  pub report_of : E → (session_id : String) → Option InvestigationReport
  pub persist_evidence : IncidentRow → OpsEvent → E → Option E
  pub inserted_at : OpsEvent → String

abbrev is_ordinary : NotificationObservation → Bool
is_ordinary (ordinary_error p i failures requests lines source) = true
is_ordinary _ = false

abbrev lacks_binding : Missing → Bool
lacks_binding (gaps found) = has found operation_binding
lacks_binding _ = false

abbrev binds : DecisionAction → StoredNotificationDecision → Bool
binds (decided alert) d = true
binds (decided analyze) d =
    any is_ordinary (observations_of (some d)) && not (lacks_binding d.missing)
binds _ d = false

abbrev bound_by : Option StoredNotificationDecision → Bool → Bool
bound_by none opened = false
bound_by (some d) opened = binds d.action d || opened

-- `boundEpisode`, of an incident that is active.
unfoldable pub is_bound_episode : Notifications → (incident_id : String) → Bool
unfolding has
is_bound_episode s id =
    bound_by (get_notification_decision id s)
      (any (λ j. is_open j.type) (list_notification_jobs id s.jobs))

module _ {E : Type 0} (settings : Settings) (database : Database E) where
  abbrev pub world_of : (now : String) → Tables (E × Notifications) → World
  world_of now t = record {
    incidents = t.incidents;
    clock = now;
    facts_of = database.facts_of t;
    list_evidence = database.list_evidence t.notifications.0;
    sessions = database.sessions t.notifications.0;
    report_of = database.report_of t.notifications.0;
  }

  unfoldable pub evaluate_in :
      (incident_id now : String) → Tables (E × Notifications) → E × Notifications
  evaluate_in id now t =
      (t.notifications.0, evaluate_notification settings (world_of now t) now id t.notifications.1)

  -- `insertEvidence` evaluates the incident.
  abbrev evaluate_inserted :
      IncidentRow → OpsEvent → Tables (E × Notifications) → Option E → E × Notifications
  evaluate_inserted r event t none = t.notifications
  evaluate_inserted r event t (some e) =
      evaluate_in r.id (database.inserted_at event)
        (record t { notifications = (e, t.notifications.1) })

  unfoldable pub engine_env : Env (E × Notifications)
  engine_env = record {
    time_of = settings.time_of;
    policy = database.policy;
    stored_event = database.stored_event;
    is_bound = λ (e, s) id. is_bound_episode s id;
    record_decision = λ id now (e, s). (e, save_notification_decision id (pending_decision now) s);
    evaluate = evaluate_in;
    persist_jfr = λ r event t.
        evaluate_inserted r event t (database.persist_evidence r event t.notifications.0);
  }

  abbrev pub Connected : E × Notifications → Type 0
  Connected n = Sound n.1.jobs
