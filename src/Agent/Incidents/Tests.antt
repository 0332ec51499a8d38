-- ===== src/Agent/Incidents/Tests.antt =====
-- Runs of the incident engine on concrete events.
use pi_ops.Base.{
  ℕ, ◌+◌, ◌*◌, ◌-◌, String, Bool, true, false, Option, none, some, List, [], ◌∷◌, ◌≡◌, refl,
}
use pi_ops.Base.Text.{codes}
use pi_ops.Protocol.{OpsEvent, health, critical}
use pi_ops.Protocol.JsonValue.{Json, Fields}
use pi_ops.Agent.Events.{Mark}
use pi_ops.Agent.NotificationConfig.{NotificationPolicyConfig}
use pi_ops.Agent.Fingerprint.{
  compute_fingerprint, recovery_type, canonical_source, type_specific_dimensions, string_attribute,
  current, canonical_type,
}
use pi_ops.Agent.Fingerprint.Laws.{compute_fingerprint_inj, compute_fingerprint-recovery}
use pi_ops.Agent.Incidents.{IncidentRow, Tables, get_incident, opened, recovered}
use pi_ops.Agent.Incidents.Engine.{
  Env, IncidentConfig, IncidentResult, ignored, handled, maybe_persist_jfr, reconcile_round,
  reconcile_fingerprint,
}
use pi_ops.Agent.Incidents.Arrivals.{process_event}
use pi_ops.Agent.Incidents.Ledger.{Balanced}
use pi_ops.Agent.Incidents.History.{Follows}
use pi_ops.Agent.Incidents.Moves.{ledger_of}
use pi_ops.Agent.Incidents.Laws.{Arrival, process_each, process_each-Balanced, process_each-Follows}
use pi_ops.Agent.Incidents.Again.{process_event-again}
use pi_ops.Agent.Incidents.Settles.{reconcile_fingerprint-IsSettled}

abbrev decimal : ℕ → List ℕ → ℕ
decimal n [] = n
decimal n (c ∷ cs) = decimal (n * 10 + (c - 48)) cs

abbrev policy : NotificationPolicyConfig
policy = record {
  default_unknown_impact_wait_ms = 300;
  default_observation_max_gap_ms = 120;
  services = [];
  health_rules = [];
}

-- The rest of the database counts the decisions.
abbrev env : Env ℕ
env = record {
  time_of = λ s. decimal 0 (codes s);
  policy = policy;
  stored_event = λ _. none;
  is_bound = λ _ _. false;
  record_decision = λ _ _ n. n;
  evaluate = λ _ _ t. t.notifications + 1;
  persist_jfr = λ _ _ t. t.notifications;
}

abbrev config : IncidentConfig
config = record { aggregation_window_ms = 60; reasoning = none }

abbrev event_of : (id time type : String) → OpsEvent
event_of id time type = record {
  schema_version = 1;
  id = id;
  time = time;
  source = health;
  node_id = "n";
  service = "s";
  type = type;
  severity = critical;
  fingerprint = none;
  trace_id = none;
  message = "m";
  attributes = Json.object (Fields.field "target" (Json.text "t") Fields.no_fields);
}

abbrev empty : Tables ℕ
empty = record {
  incidents = [];
  links = [];
  pending_recoveries = [];
  marks = [];
  evidence_jobs = [];
  reasoning_jobs = [];
  notifications = 0;
}

abbrev arrival : (id time type : String) → Arrival
arrival id time type = record {
  new_id = "inc-1";
  event = event_of id time type;
  timestamp = time;
  now = time;
}

-- The recovery arrives before its failure.
abbrev swapped : List Arrival
swapped = arrival "r" "200" "health.recovered" ∷ arrival "f" "100" "health.failure" ∷ []

empty-Balanced : Balanced (ledger_of empty)
empty-Balanced = record { indexed = tt; counted = tt; placed = tt; once = tt }

process_each-Balanced_example : Balanced (ledger_of (process_each env config swapped empty))
process_each-Balanced_example = process_each-Balanced env config swapped empty empty-Balanced

compute_fingerprint-recovery_example :
    compute_fingerprint current policy (event_of "r" "200" "health.recovered")
    ≡ compute_fingerprint current policy (event_of "r" "200" "health.failure")
unfolding recovery_type
compute_fingerprint-recovery_example =
    compute_fingerprint-recovery current policy (event_of "r" "200" "health.recovered")
      "health.failure" refl

-- A run that computes.
ran : List Arrival → Tables ℕ → Tables ℕ
unfolding process_each pi_ops.Agent.Incidents.Laws.process_arrival process_event
    pi_ops.Agent.Incidents.find_incident_by_event_id pi_ops.Agent.Incidents.Arrivals.existing_for
    recovery_type pi_ops.Agent.Incidents.find_recovery_incident
    pi_ops.Agent.Incidents.find_incident_for_event pi_ops.Base.Order.sort_by
    pi_ops.Agent.Incidents.is_unclaimed pi_ops.Agent.Incidents.refingerprinted
    pi_ops.Agent.Incidents.Arrivals.process_new
    pi_ops.Agent.Incidents.Arrivals.create_incident_from_event
    pi_ops.Agent.Incidents.insert_incident pi_ops.Agent.Incidents.link_event_to_incident
    pi_ops.Agent.Jobs.insert_evidence_job pi_ops.Agent.Incidents.Engine.evaluate_notification
    maybe_persist_jfr pi_ops.Agent.Events.is_processed pi_ops.Agent.Events.mark_event_processed
    canonical_source compute_fingerprint string_attribute type_specific_dimensions
    pi_ops.Agent.Incidents.Arrivals.add_event pi_ops.Agent.Incidents.Engine.apply_matches
    pi_ops.Agent.Incidents.Engine.apply_recovery pi_ops.Agent.Incidents.Engine.match_of
    pi_ops.Agent.Incidents.Arrivals.maybe_collect_evidence
    pi_ops.Agent.Incidents.Arrivals.process_known pi_ops.Agent.Incidents.Arrivals.process_recovery
    reconcile_fingerprint pi_ops.Agent.Incidents.Engine.reconcile_from reconcile_round
    pi_ops.Agent.Incidents.Engine.recover_incident pi_ops.Agent.Incidents.add_pending_recovery
    pi_ops.Agent.Incidents.list_incident_event_ids pi_ops.Agent.Incidents.list_pending_recoveries
    pi_ops.Agent.Incidents.may_take pi_ops.Agent.Incidents.nearer
    pi_ops.Agent.Incidents.recovery_before pi_ops.Agent.Incidents.remove_pending_recovery
    pi_ops.Agent.Incidents.update_incident pi_ops.Agent.Jobs.get_evidence_job
    pi_ops.Agent.Jobs.requeue_evidence_job pi_ops.Agent.NotificationConfig.critical_operation_for
    pi_ops.Agent.NotificationConfig.service_notification_policy
    pi_ops.Agent.NotificationConfig.without_method pi_ops.Agent.Reasoning.create_reasoning_job
    pi_ops.Base.JsonText.stringify pi_ops.Base.Order.text_leb pi_ops.Base.Text.is_space
    pi_ops.Protocol.JsonValue.lookup
ran arrivals t = process_each env config arrivals t

-- The incident that both belong to.
abbrev ended : IncidentRow
ended = record {
  id = "inc-1";
  service = "s";
  node_id = "n";
  type = "health.failure";
  state = recovered;
  fingerprint = "[\"health\",\"n\",\"s\",\"health.failure\",\"t\",\"\",\"\",\"\"]";
  first_seen = "100";
  last_seen = "200";
  event_count = 2;
  severity = critical;
  fingerprint_version = 2;
}

ended_found : get_incident "inc-1" (process_each env config swapped empty).incidents ≡ some ended
unfolding ran
ended_found = refl

later : List Arrival
later = arrival "g" "150" "health.failure" ∷ arrival "r" "200" "health.recovered" ∷ []

process_each-Follows_example :
    Follows "inc-1" ended
      (process_each env config later (process_each env config swapped empty)).incidents
process_each-Follows_example =
    process_each-Follows env config later (process_each env config swapped empty) "inc-1" ended
      process_each-Balanced_example ended_found

-- An event whose type is the name of a method of every object is taken for a recovery.
method_named :
    process_event env config "inc-1" (event_of "e" "100" "constructor") "100" "100" empty
    ≡ some (
      record empty {
        pending_recoveries =
            record {
              event_id = "e";
              fingerprint = "[\"health\",\"n\",\"s\",null]";
              event_time = "100";
              event = event_of "e" "100" "constructor";
            }
            ∷ [];
      },
      ignored,
    )
unfolding ran
method_named = refl

compute_fingerprint_inj_example :
    (canonical_source (event_of "r" "200" "health.recovered")
      ≡ canonical_source (event_of "r" "200" "health.failure"))
    × (◌≡◌ {A = String} "n" "n")
    × (◌≡◌ {A = String} "s" "s")
    × (canonical_type "health.recovered" (recovery_type "health.recovered")
        ≡ canonical_type "health.failure" (recovery_type "health.failure"))
    × (type_specific_dimensions (event_of "r" "200" "health.recovered") current policy
        ≡ type_specific_dimensions (event_of "r" "200" "health.failure") current policy)
compute_fingerprint_inj_example =
    compute_fingerprint_inj current current policy policy (event_of "r" "200" "health.recovered")
      (event_of "r" "200" "health.failure") compute_fingerprint-recovery_example

abbrev after_failure : Tables ℕ
after_failure = process_each env config (arrival "f" "100" "health.failure" ∷ []) empty

failure_handled :
    process_event env config "inc-1" (event_of "f" "100" "health.failure") "100" "100" empty
    ≡ some (after_failure, handled "inc-1" true false 1)
unfolding ran
failure_handled = refl

process_event-again_example :
    (r : IncidentRow) × (process_event env config "inc-2"
        (event_of "f" "100" "health.failure")
        "500"
        "500"
        after_failure
      ≡ some (
        maybe_persist_jfr env r (event_of "f" "100" "health.failure") after_failure,
        handled r.id false false r.event_count,
      ))
process_event-again_example =
    process_event-again env config "inc-1" (event_of "f" "100" "health.failure") "100" "100" empty
      "inc-2" "500" "500" after_failure "inc-1" true false 1 empty-Balanced failure_handled

-- A failure is there, and its recovery waits.
abbrev waiting : Tables ℕ
waiting = record after_failure {
  pending_recoveries =
      record {
        event_id = "r";
        fingerprint = compute_fingerprint current policy (event_of "r" "200" "health.recovered");
        event_time = "200";
        event = event_of "r" "200" "health.recovered";
      }
      ∷ [];
}

reconcile_fingerprint-IsSettled_example :
    (reconcile_round env ended.fingerprint "300"
      (reconcile_fingerprint env ended.fingerprint "300" waiting)).1
    ≡ false
reconcile_fingerprint-IsSettled_example =
    reconcile_fingerprint-IsSettled env ended.fingerprint "300" waiting (refl, tt)

waiting_applied :
    (reconcile_fingerprint env ended.fingerprint "300" waiting).pending_recoveries ≡ []
unfolding ran
waiting_applied = refl
