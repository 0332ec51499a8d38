-- ===== src/NodeAgent/Detectors/Health.antt =====
-- apps/node-agent/src/detectors/health.ts: one debouncer for each target.
--
-- A number is held as the text that JSON gives it; `show` is that text for a number of the
-- configuration.
use pi_ops.Base.{
  ℕ, String, str_eq, Bool, true, false, not, ◌&&◌, Option, none, some, List, [], ◌∷◌, if◌then◌else◌,
}
use pi_ops.Base.Text.{template}
use pi_ops.Protocol.{OpsEvent, OpsEventSource, OpsEventSeverity}
use pi_ops.Protocol.JsonValue.{Json, text, number, object, Fields, field, no_fields}
use pi_ops.NodeAgent.Hysteresis.{
  Transition, pressure, recovery, HysteresisState, create_hysteresis_state, sample,
}
use pi_ops.NodeAgent.Sender.{Sender}
use pi_ops.NodeAgent.Detectors.{Stamp, SenderConfig, report}

pub record HealthTarget : Type 0 where
  pub name : String
  pub url : String
  pub method : Option String
  pub interval_ms : Option ℕ
  pub rule_id : Option String
  pub rule_version : Option String
  pub container : Option String

pub record HealthConfig : Type 0 where
  pub node_id : String
  pub health_targets : List HealthTarget
  pub health_failure_duration : ℕ
  pub detector_poll_interval_ms : ℕ
  pub sender : SenderConfig

pub record ProbeResult : Type 0 where
  pub is_ok : Bool
  pub status : Option String
  pub error : Option String

abbrev or_else {ℓ} : {A : Type ℓ} → Option A → A → A
or_else none a = a
or_else (some b) a = b

-- The parts of the key, whose JSON text differs when they do.
pub record TargetKey : Type 0 where
  pub name : String
  pub url : String
  pub method : String
  pub container : Option String

unfoldable pub health_target_key : HealthTarget → TargetKey
health_target_key target = record {
  name = target.name;
  url = target.url;
  method = or_else target.method "GET";
  container = target.container;
}

abbrev pub same_optional : Option String → Option String → Bool
same_optional none none = true
same_optional (some a) (some b) = str_eq a b
same_optional _ _ = false

unfoldable pub same_key : TargetKey → TargetKey → Bool
same_key a b =
    str_eq a.name b.name
    && str_eq a.url b.url
    && str_eq a.method b.method
    && same_optional a.container b.container

-- The `Map` of states.
abbrev pub States : Type 0
States = List (TargetKey × HysteresisState)

unfoldable pub get_state : TargetKey → States → Option HysteresisState
get_state k [] = none
get_state k ((l, h) ∷ states) =
    let rest = get_state k states in if same_key k l then some h else rest

unfoldable pub set_state : TargetKey → HysteresisState → States → States
set_state k h [] = (k, h) ∷ []
set_state k h ((l, g) ∷ states) =
    let rest = set_state k h states in if same_key k l then (l, h) ∷ states else (l, g) ∷ rest

pub record HealthDetector : Type 0 where
  pub states : States
  pub sender : Sender OpsEvent

create_from : List HealthTarget → States → States
create_from [] states = states
create_from (target ∷ targets) states =
    create_from targets (set_state (health_target_key target) create_hysteresis_state states)

unfoldable pub create_health_detector : HealthConfig → Sender OpsEvent → HealthDetector
unfolding create_from
create_health_detector config sender = record {
  states = create_from config.health_targets [];
  sender = sender;
}

-- A field whose value is undefined does not stand in the JSON text.
abbrev optional_field : String → Option Json → Fields → Fields
optional_field k none more = more
optional_field k (some v) more = field k v more

abbrev as_text : Option String → Option Json
as_text none = none
as_text (some s) = some (text s)

abbrev as_number : Option String → Option Json
as_number none = none
as_number (some s) = some (number s)

module _ (show : ℕ → String) (config : HealthConfig) where
  health_attributes : HealthTarget → ProbeResult → Stamp → Fields → Fields
  health_attributes target result stamp more = field "detector" (text "http.health") (
      field "target" (text target.name) (
        field "url" (text target.url) (
          field "method" (text (or_else target.method "GET")) (
            optional_field "containerName" (as_text target.container) (
              optional_field "status" (as_number result.status) (
                optional_field "ruleId" (as_text target.rule_id) (
                  optional_field "ruleVersion" (as_number target.rule_version) (
                    field "failureSamples" (number (show config.health_failure_duration)) (
                      field "intervalMs"
                        (number
                          (show (or_else target.interval_ms config.detector_poll_interval_ms)))
                        (field "transitionTime" (text stamp.time) more))))))))))

  abbrev failure_detail : Option String → Option String → List String
  failure_detail (some status) error = " (HTTP " ∷ status ∷ ")" ∷ []
  failure_detail none none = []
  failure_detail none (some error) = if str_eq error "" then [] else " (" ∷ error ∷ ")" ∷ []

  abbrev recovery_detail : Option String → List String
  recovery_detail none = []
  recovery_detail (some status) = " (HTTP " ∷ status ∷ ")" ∷ []

  unfoldable pub health_event : Transition → HealthTarget → ProbeResult → Stamp → OpsEvent
  unfolding health_attributes
  health_event pressure target result stamp = record {
    schema_version = 1;
    id = stamp.id;
    time = stamp.time;
    source = OpsEventSource.health;
    node_id = config.node_id;
    service = target.name;
    type = "health.failure";
    severity = OpsEventSeverity.error;
    fingerprint = none;
    trace_id = none;
    message =
        template
          ("Health check failed for " ∷ target.name ∷ failure_detail result.status result.error);
    attributes = object (
        health_attributes target result stamp
          (optional_field "error" (as_text result.error) no_fields));
  }
  health_event recovery target result stamp = record {
    schema_version = 1;
    id = stamp.id;
    time = stamp.time;
    source = OpsEventSource.health;
    node_id = config.node_id;
    service = target.name;
    type = "health.recovered";
    severity = OpsEventSeverity.info;
    fingerprint = none;
    trace_id = none;
    message =
        template ("Health check recovered for " ∷ target.name ∷ recovery_detail result.status);
    attributes = object (health_attributes target result stamp no_fields);
  }

  abbrev pub health_event_of :
      Option Transition → HealthTarget → ProbeResult → Stamp → Option OpsEvent
  health_event_of none target result stamp = none
  health_event_of (some t) target result stamp = some (health_event t target result stamp)

  unfoldable pub probe_known :
      HealthTarget
      → ProbeResult
      → Stamp
      → HealthDetector
      → Option HysteresisState
      → HealthDetector × Option OpsEvent
  probe_known target result stamp d none = (d, none)
  probe_known target result stamp d (some h) =
      let (h', transition) = sample config.health_failure_duration (not result.is_ok) h in
      let event = health_event_of transition target result stamp in
      (
        record {
          states = set_state (health_target_key target) h' d.states;
          sender = report config.sender event d.sender;
        },
        event,
      )

  -- `probeTarget` after the answer of the probe.
  unfoldable pub probe_target :
      HealthTarget → ProbeResult → Stamp → HealthDetector → HealthDetector × Option OpsEvent
  unfolding probe_known
  probe_target target result stamp d =
      probe_known target result stamp d (get_state (health_target_key target) d.states)
