-- ===== src/Agent/Incidents/Engine.antt =====
-- apps/agent/src/incident.ts: the incident engine, with the transactions `applyRecovery` and
-- `createIncidentFromEvent` of store.ts.
--
-- An error leaves the transaction and is `none`. The instant of a date, the notification policy, the
-- table of events and what the store does with evidence and notifications are the environment `Env`;
-- the wall clock and the random id of a new incident are arguments.
use pi_ops.Base.{
  ℕ, zero, suc, ◌+◌, String, str_eq, Bool, true, false, not, ◌&&◌, ◌||◌, leb, Option, none, some,
  List, [], ◌∷◌, map, length, if◌then◌else◌,
}
use pi_ops.Protocol.{OpsEvent, OpsEventSeverity, info, warning, error, critical}
use pi_ops.Agent.Events.{mark_event_processed}
use pi_ops.Agent.NotificationConfig.{NotificationPolicyConfig}
use pi_ops.Agent.Fingerprint.{legacy, current, compute_fingerprint}
use pi_ops.Agent.Incidents.{
  recovered, IncidentRow, Link, Tables, get_incident, IncidentUpdate, update_incident,
  link_event_to_incident, find_incident_by_event_id, remove_pending_recovery,
  list_pending_recovery_fingerprints, list_pending_recoveries, find_recovery_incident, or_else,
}

pub record Reasoner : Type 0 where
  pub reasoner_type : String
  pub reasoner_version : String

-- `reasoning` is the reasoner of the job for a new incident, or none if none is scheduled.
pub record IncidentConfig : Type 0 where
  pub aggregation_window_ms : ℕ
  pub reasoning : Option Reasoner

pub record Env {ℓ} (N : Type ℓ) : Type ℓ where
  pub time_of : String → ℕ
  pub policy : NotificationPolicyConfig
  pub stored_event : String → Option OpsEvent
  pub is_bound : N → String → Bool
  pub record_decision : (incident_id now : String) → N → N
  pub evaluate : (incident_id now : String) → Tables N → N
  pub persist_jfr : IncidentRow → OpsEvent → Tables N → N

pub data IncidentResult : Type 0 where
  ignored : IncidentResult
  handled : (incident_id : String) (is_new is_recovery : Bool) (event_count : ℕ) → IncidentResult

abbrev pub severity_rank : OpsEventSeverity → ℕ
severity_rank info = 0
severity_rank warning = 1
severity_rank error = 2
severity_rank critical = 3

abbrev pub max_severity : OpsEventSeverity → OpsEventSeverity → OpsEventSeverity
max_severity a b = if leb (severity_rank b) (severity_rank a) then a else b

module _ {ℓ} {N : Type ℓ} (env : Env N) where
  -- `computeEventFingerprint` and `legacyEventFingerprint`.
  abbrev pub fingerprint_of : OpsEvent → String
  fingerprint_of event = compute_fingerprint current env.policy event

  abbrev pub legacy_fingerprint_of : OpsEvent → String
  legacy_fingerprint_of event = compute_fingerprint legacy env.policy event

  abbrev pub earlier_timestamp : String → String → String
  earlier_timestamp a b = if leb (env.time_of a) (env.time_of b) then a else b

  abbrev pub later_timestamp : String → String → String
  later_timestamp a b = if leb (env.time_of b) (env.time_of a) then a else b

  unfoldable pub evaluate_notification : (incident_id now : String) → Tables N → Tables N
  evaluate_notification incident_id now t = record t {
    notifications = env.evaluate incident_id now t;
  }

  unfoldable pub maybe_persist_jfr : IncidentRow → OpsEvent → Tables N → Tables N
  maybe_persist_jfr r event t = record t { notifications = env.persist_jfr r event t }

  abbrev pub recovery_update : IncidentRow → OpsEvent → (linked : Bool) → IncidentUpdate
  recovery_update r recovery linked = record {
    first_seen = r.first_seen;
    last_seen = later_timestamp r.last_seen recovery.time;
    event_count = r.event_count + (if linked then 1 else 0);
    severity = r.severity;
    state = recovered;
  }

  abbrev pub is_incident : String → Option IncidentRow → Bool
  is_incident id none = false
  is_incident id (some r) = str_eq r.id id

  -- The statements of `applyRecovery` on an incident that is there.
  unfoldable pub recover_incident :
      IncidentRow → OpsEvent → (now : String) → List Link × Bool → Tables N → Tables N × Bool
  unfolding evaluate_notification
  recover_incident r recovery now (links, linked) t =
      if not linked
        && not (is_incident r.id (find_incident_by_event_id recovery.id t.incidents t.links))
      then (t, false)
      else (
        evaluate_notification r.id now (record t {
          links = links;
          incidents = update_incident r.id (recovery_update r recovery linked) t.incidents;
          pending_recoveries = remove_pending_recovery recovery.id t.pending_recoveries;
          marks = (mark_event_processed recovery.id recovery.time t.marks).0;
        }),
        true,
      )

  abbrev pub apply_found :
      Option IncidentRow → OpsEvent → (now : String) → Tables N → Tables N × Bool
  apply_found none recovery now t = (t, false)
  apply_found (some r) recovery now t =
      recover_incident r recovery now (link_event_to_incident r.id recovery.id t.links) t

  unfoldable pub apply_recovery :
      (incident_id : String) → OpsEvent → (now : String) → Tables N → Tables N × Bool
  apply_recovery incident_id recovery now t =
      apply_found (get_incident incident_id t.incidents) recovery now t

  -- The incident of a recovery that waits, by the fingerprint or the one of an earlier version.
  unfoldable pub match_of : (fingerprint : String) → Tables N → OpsEvent → Option IncidentRow
  match_of fingerprint t recovery =
      or_else (find_recovery_incident env.time_of fingerprint recovery.time t.incidents) (
        find_recovery_incident env.time_of (legacy_fingerprint_of recovery) recovery.time
          t.incidents)

  abbrev pub apply_match :
      OpsEvent → Option IncidentRow → (now : String) → Tables N → Tables N × Bool
  apply_match recovery none now t = (t, false)
  apply_match recovery (some r) now t = apply_recovery r.id recovery now t

  unfoldable pub apply_matches :
      List (OpsEvent × Option IncidentRow) → (now : String) → Tables N → Tables N × Bool
  apply_matches [] now t = (t, false)
  apply_matches ((recovery, incident) ∷ matches) now t =
      let (u, progress) = apply_match recovery incident now t in
      let (v, more) = apply_matches matches now u in (v, progress || more)

  -- One round of the loop: the matches are made before any of them is applied.
  unfoldable pub reconcile_round : (fingerprint now : String) → Tables N → Tables N × Bool
  reconcile_round fingerprint now t =
      apply_matches
        (map (λ recovery. (recovery, match_of fingerprint t recovery))
          (list_pending_recoveries env.time_of fingerprint t.pending_recoveries))
        now t

  -- `while (true)`, with as many rounds as the fuel has.
  unfoldable pub reconcile_from : (fuel : ℕ) (fingerprint now : String) → Tables N → Tables N
  reconcile_from zero fingerprint now t = t
  reconcile_from (suc fuel) fingerprint now t =
      let (u, progress) = reconcile_round fingerprint now t in
      let rest = reconcile_from fuel fingerprint now u in if progress then rest else u

  unfoldable pub reconcile_fingerprint : (fingerprint now : String) → Tables N → Tables N
  reconcile_fingerprint fingerprint now t =
      reconcile_from (suc (length t.pending_recoveries)) fingerprint now t

  unfoldable pub reconcile_each : List String → (now : String) → Tables N → Tables N
  reconcile_each [] now t = t
  reconcile_each (fingerprint ∷ rest) now t =
      reconcile_each rest now (reconcile_fingerprint fingerprint now t)

  unfoldable pub reconcile_pending_recoveries : (now : String) → Tables N → Tables N
  reconcile_pending_recoveries now t =
      reconcile_each (list_pending_recovery_fingerprints t.pending_recoveries) now t
