-- ===== src/Agent/Notifications/Tests.antt =====
-- Runs of the notifications of one incident.
use pi_ops.Agent.Notifications.Connects.{Database}
use pi_ops.Agent.Incidents.Laws.{Arrival}
use pi_ops.Protocol.{OpsEvent, OpsEventSource}
use pi_ops.Protocol.JsonValue.{Json, Fields}
use pi_ops.Base.Text.{template, trim, is_space}
use pi_ops.Base.JsonText.{quoted}
use pi_ops.Agent.Notifications.Statements.{
  reconcile_notifications, reconcile_each, reset_running_notification_jobs, evaluate_notification,
  mark_notification_job_delivered, mark_notification_job_retry,
}
use pi_ops.Base.{find, ◌+◌, ℕ, String, true, Option, none, some, List, [], ◌∷◌, map, ◌≡◌, refl}
use pi_ops.Base.Order.{text_leb, sort_by, units_leb}
use pi_ops.Protocol.{warning}
use pi_ops.Protocol.Investigation.{InvestigationAction, repair}
use pi_ops.Agent.Incidents.{IncidentRow, Tables, opened, recovered}
use pi_ops.Agent.Policy.{
  docker, absent, event, FirstNotificationFacts, recognized_oome, recognized_overflow,
  decide_first_notification, docker_oom_killed, is_critical_operation, collect_missing, verdict,
}
use pi_ops.Agent.NotificationPayload.{
  is_open, delivered, failed, NotificationJob, NotificationJobStatus, build_notification_job,
  build_notification_payload, notification_job_id, rule_summary_severity,
}
use pi_ops.Agent.Notifications.{
  Notifications, returns, list_pending_notification_jobs, get_notification_decision,
  save_notification_decision, list_notification_jobs, get_notification_job, insert_job,
  listed_before, mark_notification_job_running, schedule_notification_job,
  suppress_pending_diagnosis_updates, update_pending_notification_payload, with_severity,
  StoredNotificationDecision,
}
use pi_ops.Agent.Notifications.Impact.{
  InvestigationReport, action_key, impact_key, impact_keys, impact_label, is_grounded_repair,
  repair_keys,
}
use pi_ops.Agent.Notifications.Decision.{
  recovery_job, World, Settings, open_first, tell_of_recovery, tell_recovery,
}
use pi_ops.Agent.Notifications.Updates.{
  try_evaluate, evaluate_facts, send_update, update_each, update_with,
}
use pi_ops.Agent.Notifications.Worker.{
  pending_decision, Stage, WorkerConfig, Moment, begins, evaluates, starts, drains, retryable, run,
  drain, SendError, happen, drain_from, fail, get_summary_severity, is_retryable_notification_error,
  serve_all, work,
}
use pi_ops.Agent.Notifications.Sound.{Sound}
use pi_ops.Agent.Notifications.Idle.{Idle}
use pi_ops.Agent.Notifications.Recovers.{Placed, evaluate-Placed}
use pi_ops.Agent.Notifications.Laws.{run-Sound}

abbrev settings : Settings
settings = record { time_of = λ _. 0; locale_leb = text_leb; summary_severity = none }

abbrev config : WorkerConfig
config = record { notification_job_max_attempts = 2; notification_job_batch_size = 20 }

abbrev oom_killed : FirstNotificationFacts
oom_killed = record {
  observations = docker "die" true absent (record { kind = event; id = "e1" }) ∷ [];
  gaps = [];
  unknown_impact_due_at = none;
}

abbrev incident : IncidentRow
incident = record {
  id = "i1";
  service = "orders";
  node_id = "n1";
  type = "container.die";
  state = opened;
  fingerprint = "f";
  first_seen = "100";
  last_seen = "100";
  event_count = 1;
  severity = warning;
  fingerprint_version = 2;
}

abbrev remedy : InvestigationAction
remedy = record {
  purpose = repair;
  target = " orders ";
  preconditions = "b" ∷ "a" ∷ [];
  operation = "raise the limit";
  expected_result = "no kill";
  risk = "none";
  requires_approval = true;
  evidence_ids = "ev1" ∷ [];
}

abbrev report : InvestigationReport
report = record {
  hypothesis = "limit too low";
  confidence = "0.8";
  recommendation = "raise it";
  diagnosis = some (record {
    summary = none;
    observations = [];
    candidate_causes = [];
    uncertainties = [];
    actions = remedy ∷ [];
  });
}

abbrev during : World
during = record {
  incidents = incident ∷ [];
  clock = "t";
  facts_of = λ _ _. returns oom_killed;
  list_evidence = λ _. record { id = "ev1"; status = "succeeded" } ∷ [];
  sessions = [];
  report_of = λ _. none;
}

abbrev diagnosed : World
diagnosed = record during {
  sessions = record { id = "s1"; incident_id = "i1"; status = "COMPLETED" } ∷ [];
  report_of = λ _. some report;
}

abbrev after : World
after = record diagnosed { incidents = record incident { state = recovered } ∷ [] }

abbrev evaluated : World → String → Moment
evaluated world now = evaluates (record { incident_id = "i1"; world = world; now = now })

abbrev ends_with : Option SendError → World → NotificationJob → Stage
ends_with e world job = record {
  world = world;
  now = "200";
  send = λ _. record { failure = e; requests = []; world = world; ended_at = "201" };
}

abbrev drained : Option SendError → World → Moment
drained e world = drains world "200" (some (ends_with e world))

abbrev empty : Notifications
empty = record { decisions = []; jobs = [] }

abbrev story : List Moment
story =
    begins "i1" "100"
    ∷ evaluated during "101"
    ∷ drained (some (retryable "timeout")) during
    ∷ drained none during
    ∷ evaluated diagnosed "300"
    ∷ evaluated after "400"
    ∷ starts after "450"
    ∷ drained none after
    ∷ []

abbrev told_of : Notifications → List (String × NotificationJobStatus × ℕ)
told_of s = map (λ r. (r.job.id, r.job.status, r.job.attempts)) s.jobs

-- The fault is told at the second attempt, the diagnosis is suppressed, the recovery is told.
whole_story :
    told_of (run settings config story empty)
    ≡ ("njob-recovered-i1", delivered, 1)
      ∷ ("njob-completed-s1", failed, 0)
      ∷ ("njob-open-i1", delivered, 2)
      ∷ []
unfolding run happen drain drain_from list_pending_notification_jobs sort_by reconcile_notifications
    reconcile_each get_notification_decision reset_running_notification_jobs evaluate_notification
    try_evaluate save_notification_decision evaluate_facts open_first list_notification_jobs
    recognized_oome recognized_overflow build_notification_job build_notification_payload
    notification_job_id rule_summary_severity send_update tell_of_recovery tell_recovery update_each
    update_with action_key impact_key impact_keys impact_label is_grounded_repair repair_keys
    mark_notification_job_delivered mark_notification_job_retry fail get_summary_severity
    is_retryable_notification_error serve_all work get_notification_job insert_job listed_before
    mark_notification_job_running schedule_notification_job suppress_pending_diagnosis_updates
    update_pending_notification_payload with_severity decide_first_notification docker_oom_killed
    is_critical_operation collect_missing verdict quoted text_leb units_leb template trim is_space
whole_story = refl

run-Sound_example : Sound (run settings config story empty).jobs
run-Sound_example = run-Sound settings config story empty (tt, tt)

-- An agent that stopped while the first notification was under way.
abbrev interrupted : Notifications
interrupted =
    (mark_notification_job_running "njob-open-i1" "102"
      (run settings config (begins "i1" "100" ∷ evaluated during "101" ∷ []) empty)).0

abbrev the {ℓ} : {A : Type ℓ} → A → Option A → A
the other none = other
the other (some a) = a

-- The first notification was delivered, and then the incident recovered.
abbrev told_first : Notifications
told_first =
    run settings config (begins "i1" "100" ∷ evaluated during "101" ∷ drained none during ∷ [])
      empty

abbrev saved : StoredNotificationDecision
saved = the (pending_decision "100") (get_notification_decision "i1" told_first)

abbrev told : NotificationJob
told =
    the (recovery_job settings during "100" incident)
      (find (λ j. is_open j.type) (list_notification_jobs "i1" told_first.jobs))

evaluate-Placed_example :
    Placed
      (recovery_job settings after "400" (record incident { state = recovered }))
      (evaluate_notification settings after "400" "i1" told_first).jobs
unfolding run happen drain drain_from list_pending_notification_jobs sort_by reconcile_notifications
    reconcile_each get_notification_decision reset_running_notification_jobs evaluate_notification
    try_evaluate save_notification_decision evaluate_facts open_first list_notification_jobs
    recognized_oome recognized_overflow build_notification_job build_notification_payload
    notification_job_id rule_summary_severity send_update tell_of_recovery tell_recovery update_each
    update_with action_key impact_key impact_keys impact_label is_grounded_repair repair_keys
    mark_notification_job_delivered mark_notification_job_retry fail get_summary_severity
    is_retryable_notification_error serve_all work get_notification_job insert_job listed_before
    mark_notification_job_running schedule_notification_job suppress_pending_diagnosis_updates
    update_pending_notification_payload with_severity decide_first_notification docker_oom_killed
    is_critical_operation collect_missing verdict quoted text_leb units_leb template trim is_space
evaluate-Placed_example =
    evaluate-Placed settings after "400" (record incident { state = recovered }) refl saved
      oom_killed told_first told refl refl refl refl refl refl

-- The incident engine with these notifications behind it.
abbrev database : Database ℕ
database = record {
  policy = record {
    default_unknown_impact_wait_ms = 300;
    default_observation_max_gap_ms = 120;
    services = [];
    health_rules = [];
  };
  stored_event = λ _. none;
  facts_of = λ _ _ _. returns oom_killed;
  list_evidence = λ _ _. [];
  sessions = λ _. [];
  report_of = λ _ _. none;
  persist_evidence = λ _ _ n. some (n + 1);
  inserted_at = λ _. "100";
}

abbrev died : OpsEvent
died = record {
  schema_version = 1;
  id = "e1";
  time = "100";
  source = OpsEventSource.docker;
  node_id = "n1";
  service = "orders";
  type = "container.die";
  severity = warning;
  fingerprint = none;
  trace_id = none;
  message = "m";
  attributes = Json.object Fields.no_fields;
}

abbrev idle_engine : Tables (ℕ × Notifications)
idle_engine = record {
  incidents = [];
  links = [];
  pending_recoveries = [];
  marks = [];
  evidence_jobs = [];
  reasoning_jobs = [];
  notifications = (0, empty);
}

abbrev arrivals : List Arrival
arrivals = record { new_id = "i1"; event = died; timestamp = "100"; now = "100" } ∷ []
