-- ===== src/NodeAgent/Detectors/Memory.antt =====
-- apps/node-agent/src/detectors/memory.ts
use pi_ops.Base.{ℕ, String, Bool, Option, none, some, [], ◌∷◌}
use pi_ops.Base.Text.{template}
use pi_ops.Protocol.{OpsEvent, host, warning, info}
use pi_ops.Protocol.JsonValue.{number, object, Fields, field, no_fields}
use pi_ops.NodeAgent.Hysteresis.{Transition, pressure, recovery, sample}
use pi_ops.NodeAgent.Detectors.{Arithmetic, Stamp, Detector, SenderConfig, report}

pub record MemoryConfig {ℓ} (F : Type ℓ) : Type ℓ where
  pub node_id : String
  pub memory_pressure_threshold : F
  pub memory_pressure_duration : ℕ
  pub sender : SenderConfig

-- What `os.totalmem()` and `os.freemem()` return.
pub record MemoryReading {ℓ} (F : Type ℓ) : Type ℓ where
  pub total : F
  pub free : F

module _ {ℓ} {F : Type ℓ} (nums : Arithmetic F) (config : MemoryConfig F) where
  unfoldable pub memory_usage : MemoryReading F → F
  memory_usage m = nums.over (nums.minus m.total m.free) m.total

  unfoldable pub is_memory_above : MemoryReading F → Bool
  is_memory_above m = nums.at_least (memory_usage m) config.memory_pressure_threshold

  abbrev percent : ℕ → F → String
  percent digits x = nums.to_fixed digits (nums.times x (nums.of_nat 100))

  memory_attributes : MemoryReading F → Fields → Fields
  memory_attributes m more =
      field "usagePercent"
        (number (
          nums.number_text (
            nums.over (nums.round (nums.times (memory_usage m) (nums.of_nat 10000)))
              (nums.of_nat 100))))
        (field "threshold" (number (nums.number_text config.memory_pressure_threshold)) (
          field "totalBytes" (number (nums.number_text m.total)) (
            field "freeBytes" (number (nums.number_text m.free))
              (field "usedBytes" (number (nums.number_text (nums.minus m.total m.free))) more))))

  unfoldable pub memory_event : Transition → MemoryReading F → Stamp → OpsEvent
  unfolding memory_attributes
  memory_event pressure m stamp = record {
    schema_version = 1;
    id = stamp.id;
    time = stamp.time;
    source = host;
    node_id = config.node_id;
    service = config.node_id;
    type = "host.memory_pressure";
    severity = warning;
    fingerprint = none;
    trace_id = none;
    message = template (
        "Memory usage "
        ∷ percent 1 (memory_usage m)
        ∷ "% exceeds threshold "
        ∷ percent 0 config.memory_pressure_threshold
        ∷ "%"
        ∷ []);
    attributes = object (
        memory_attributes m (
          field "consecutiveSamples"
            (number (nums.number_text (nums.of_nat config.memory_pressure_duration))) no_fields));
  }
  memory_event recovery m stamp = record {
    schema_version = 1;
    id = stamp.id;
    time = stamp.time;
    source = host;
    node_id = config.node_id;
    service = config.node_id;
    type = "host.memory_recovered";
    severity = info;
    fingerprint = none;
    trace_id = none;
    message = template ("Memory usage recovered to " ∷ percent 1 (memory_usage m) ∷ "%" ∷ []);
    attributes = object (memory_attributes m no_fields);
  }

  abbrev pub memory_event_of : Option Transition → MemoryReading F → Stamp → Option OpsEvent
  memory_event_of none m stamp = none
  memory_event_of (some t) m stamp = some (memory_event t m stamp)

  -- `poll`: the detector after it, and the event that it offers to the sender, if any.
  unfoldable pub poll_memory : MemoryReading F → Stamp → Detector → Detector × Option OpsEvent
  poll_memory m stamp d =
      let (h, transition) =
        sample config.memory_pressure_duration (is_memory_above m) d.hysteresis in
      let event = memory_event_of transition m stamp in
      (record { hysteresis = h; sender = report config.sender event d.sender }, event)
