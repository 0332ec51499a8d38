-- ===== src/Agent/Incidents/Arrivals.antt =====
-- apps/agent/src/incident.ts: `processEvent`, with the transaction `createIncidentFromEvent` of
-- store.ts.
use pi_ops.Base.{
  ℕ, ◌+◌, String, Bool, true, false, ◌&&◌, ◌||◌, ltb, leb, Option, none, some, List, if◌then◌else◌,
}
use Prim.Native.String.{◌++◌ as text_append}
use pi_ops.Protocol.{OpsEvent, OpsEventSeverity}
use pi_ops.Agent.Jobs.{
  EvidenceJob, is_final, insert_evidence_job, requeue_evidence_job, get_evidence_job,
}
use pi_ops.Agent.Fingerprint.{is_mapped, recovery_type}
use pi_ops.Agent.Reasoning.{create_reasoning_job}
use pi_ops.Agent.Incidents.{
  opened, IncidentRow, Link, Tables, get_incident, insert_incident, IncidentUpdate, update_incident,
  link_event_to_incident, find_incident_by_event_id, add_pending_recovery, find_recovery_incident,
  find_incident_for_event, or_else,
}
use pi_ops.Agent.Incidents.Engine.{
  Env, IncidentConfig, IncidentResult, Reasoner, apply_recovery, earlier_timestamp,
  evaluate_notification, fingerprint_of, handled, ignored, later_timestamp, legacy_fingerprint_of,
  max_severity, maybe_persist_jfr, reconcile_fingerprint, severity_rank,
}

module _ {ℓ} {N : Type ℓ} (env : Env N) (config : IncidentConfig) where
  abbrev pub evidence_expired : Option (EvidenceJob OpsEvent) → (event_time : String) → Bool
  evidence_expired none event_time = false
  evidence_expired (some job) event_time =
      is_final job.state
      && leb (env.time_of job.triggering_event.time + config.aggregation_window_ms)
          (env.time_of event_time)

  unfoldable pub maybe_collect_evidence :
      (incident_id : String)
      → OpsEvent
      → (previous : OpsEventSeverity) (now : String) → Tables N
      → Tables N
  maybe_collect_evidence incident_id event previous now t =
      if ltb (severity_rank previous) (severity_rank event.severity)
        || evidence_expired (get_evidence_job (text_append "job-" incident_id) t.evidence_jobs)
            event.time
      then record t {
        evidence_jobs = (requeue_evidence_job incident_id event now t.evidence_jobs).0;
      }
      else t

  abbrev pub count_of : Option IncidentRow → ℕ → ℕ
  count_of none n = n
  count_of (some r) n = r.event_count

  -- An event of a known incident.
  abbrev pub event_update :
      IncidentRow → OpsEvent → (timestamp : String) (linked : Bool) → IncidentUpdate
  event_update r event timestamp linked = record {
    first_seen = earlier_timestamp env r.first_seen timestamp;
    last_seen = later_timestamp env r.last_seen timestamp;
    event_count = r.event_count + (if linked then 1 else 0);
    severity = max_severity r.severity event.severity;
    state = r.state;
  }

  unfoldable pub add_event :
      IncidentRow → OpsEvent → (timestamp : String) → List Link × Bool → Tables N → Tables N
  add_event r event timestamp (links, linked) t = record t {
    links = links;
    incidents = update_incident r.id (event_update r event timestamp linked) t.incidents;
  }

  unfoldable pub process_known :
      IncidentRow
      → OpsEvent
      → (timestamp fingerprint now : String) → Tables N
      → Tables N × IncidentResult
  process_known r event timestamp fingerprint now t =
      let (links, linked) = link_event_to_incident r.id event.id t.links in
      let added = add_event r event timestamp (links, linked) t in
      let collected = maybe_collect_evidence r.id event r.severity now added in
      let persisted = maybe_persist_jfr env r event collected in
      let reconciled = reconcile_fingerprint env fingerprint now persisted in
      let evaluated = evaluate_notification env r.id now reconciled in
      (
        evaluated,
        handled r.id false false (
            count_of (get_incident r.id evaluated.incidents)
              (r.event_count + (if linked then 1 else 0))),
      )

  -- A recovery of a known incident.
  unfoldable pub process_recovery :
      IncidentRow → OpsEvent → (fingerprint now : String) → Tables N → Tables N × IncidentResult
  process_recovery r event fingerprint now t =
      let reconciled = reconcile_fingerprint env fingerprint now t in
      let (u, _) = apply_recovery env r.id event now reconciled in
      (u, handled r.id false true (count_of (get_incident r.id u.incidents) r.event_count))

  abbrev pub new_incident :
      (id : String) → OpsEvent → (timestamp fingerprint : String) → IncidentRow
  new_incident id event timestamp fingerprint = record {
    id = id;
    service = event.service;
    node_id = event.node_id;
    type = event.type;
    state = opened;
    fingerprint = fingerprint;
    first_seen = timestamp;
    last_seen = timestamp;
    event_count = 1;
    severity = event.severity;
    fingerprint_version = 2;
  }

  abbrev pub schedule_reasoning : Option Reasoner → (id now : String) → Tables N → Tables N
  schedule_reasoning none id now t = t
  schedule_reasoning (some r) id now t = record t {
    reasoning_jobs =
        create_reasoning_job (text_append "rj-" id) id r.reasoner_type r.reasoner_version now
          t.reasoning_jobs;
  }

  -- `createIncidentFromEvent`, whose inserts fail on a key that is taken.
  abbrev pub with_evidence_job :
      String → (now : String) → Tables N → Option (List (EvidenceJob OpsEvent)) → Option (Tables N)
  with_evidence_job id now t none = none
  with_evidence_job id now t (some jobs) =
      let scheduled =
        schedule_reasoning config.reasoning id now (record t { evidence_jobs = jobs }) in
      let decided = record scheduled {
        notifications = env.record_decision id now scheduled.notifications;
      } in
      some (evaluate_notification env id now decided)

  abbrev pub with_link :
      IncidentRow → OpsEvent → (now : String) → Tables N → List Link × Bool → Option (Tables N)
  with_link r event now t (links, linked) =
      if linked
      then with_evidence_job r.id now (record t { links = links })
          (insert_evidence_job (text_append "job-" r.id) r.id event now t.evidence_jobs)
      else none

  abbrev pub with_incident :
      IncidentRow
      → OpsEvent
      → (now : String) → Tables N
      → Option (List IncidentRow)
      → Option (Tables N)
  with_incident r event now t none = none
  with_incident r event now t (some incidents) =
      with_link r event now (record t { incidents = incidents })
        (link_event_to_incident r.id event.id t.links)

  unfoldable pub create_incident_from_event :
      IncidentRow → OpsEvent → (now : String) → Tables N → Option (Tables N)
  create_incident_from_event r event now t =
      with_incident r event now t (insert_incident r t.incidents)

  abbrev pub finish_new :
      IncidentRow
      → OpsEvent
      → (now : String) → Option (Tables N)
      → Option (Tables N × IncidentResult)
  finish_new r event now none = none
  finish_new r event now (some t) =
      let reconciled = reconcile_fingerprint env r.fingerprint now t in
      let persisted = maybe_persist_jfr env r event reconciled in
      let evaluated = evaluate_notification env r.id now persisted in
      some (evaluated, handled r.id true false (count_of (get_incident r.id evaluated.incidents) 1))

  unfoldable pub process_new :
      (id : String)
      → OpsEvent
      → (timestamp fingerprint now : String) → Tables N
      → Option (Tables N × IncidentResult)
  process_new id event timestamp fingerprint now t =
      let r = new_incident id event timestamp fingerprint in
      finish_new r event now (create_incident_from_event r event now t)

  -- The incident that an event belongs to.
  unfoldable pub existing_for :
      OpsEvent → (timestamp fingerprint : String) → Tables N → Option IncidentRow
  existing_for event timestamp fingerprint t =
      let legacy = legacy_fingerprint_of env event in
      if is_mapped (recovery_type event.type)
      then or_else (find_recovery_incident env.time_of fingerprint timestamp t.incidents)
          (find_recovery_incident env.time_of legacy timestamp t.incidents)
      else or_else
          (find_incident_for_event env.time_of (fingerprint_of env) env.stored_event
            (env.is_bound t.notifications) fingerprint timestamp config.aggregation_window_ms
            t.incidents t.links)
          (find_incident_for_event env.time_of (fingerprint_of env) env.stored_event
            (env.is_bound t.notifications) legacy timestamp config.aggregation_window_ms t.incidents
            t.links)

  abbrev pub process_existing :
      (id : String)
      → OpsEvent
      → (timestamp fingerprint now : String) → Tables N
      → Option IncidentRow
      → Option (Tables N × IncidentResult)
  process_existing id event timestamp fingerprint now t (some r) =
      if is_mapped (recovery_type event.type)
      then some (process_recovery r event fingerprint now t)
      else some (process_known r event timestamp fingerprint now t)
  process_existing id event timestamp fingerprint now t none =
      if is_mapped (recovery_type event.type)
      then some (
        record t {
          pending_recoveries = add_pending_recovery event fingerprint t.pending_recoveries;
        },
        ignored,
      )
      else process_new id event timestamp fingerprint now t

  abbrev pub process_unless :
      (id : String)
      → OpsEvent
      → (timestamp now : String) → Tables N
      → Option IncidentRow
      → Option (Tables N × IncidentResult)
  process_unless id event timestamp now t (some linked) =
      some (maybe_persist_jfr env linked event t, handled linked.id false false linked.event_count)
  process_unless id event timestamp now t none =
      let fingerprint = fingerprint_of env event in
      process_existing id event timestamp fingerprint now t
        (existing_for event timestamp fingerprint t)

  unfoldable pub process_event :
      (id : String)
      → OpsEvent
      → (timestamp now : String) → Tables N
      → Option (Tables N × IncidentResult)
  process_event id event timestamp now t =
      process_unless id event timestamp now t
        (find_incident_by_event_id event.id t.incidents t.links)
