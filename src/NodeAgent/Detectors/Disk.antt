-- ===== src/NodeAgent/Detectors/Disk.antt =====
-- apps/node-agent/src/detectors/disk.ts
use pi_ops.Base.{ℕ, String, Bool, Option, none, some, [], ◌∷◌, if◌then◌else◌}
use pi_ops.Base.Text.{template}
use pi_ops.Protocol.{OpsEvent, host, warning, info}
use pi_ops.Protocol.JsonValue.{text, number, object, Fields, field, no_fields}
use pi_ops.NodeAgent.Hysteresis.{Transition, pressure, recovery, sample}
use pi_ops.NodeAgent.Detectors.{Arithmetic, Stamp, Detector, SenderConfig, report}

pub record DiskConfig {ℓ} (F : Type ℓ) : Type ℓ where
  pub node_id : String
  pub disk_pressure_path : String
  pub disk_pressure_threshold : F
  pub disk_pressure_duration : ℕ
  pub sender : SenderConfig

-- What `statfsSync` returns.
pub record StatFs {ℓ} (F : Type ℓ) : Type ℓ where
  pub blocks : F
  pub bsize : F
  pub bfree : F
  pub bavail : F

pub record DiskUsage {ℓ} (F : Type ℓ) : Type ℓ where
  pub total_kb : F
  pub used_kb : F
  pub available_kb : F
  pub usage : F

module _ {ℓ} {F : Type ℓ} (nums : Arithmetic F) (config : DiskConfig F) where
  unfoldable pub disk_usage : StatFs F → DiskUsage F
  disk_usage stats =
      let total = nums.over (nums.times stats.blocks stats.bsize) (nums.of_nat 1024) in
      let used =
        nums.over (nums.times (nums.minus stats.blocks stats.bfree) stats.bsize)
          (nums.of_nat 1024) in
      record {
        total_kb = total;
        used_kb = used;
        available_kb = nums.over (nums.times stats.bavail stats.bsize) (nums.of_nat 1024);
        usage = (if nums.above total (nums.of_nat 0) then nums.over used total else nums.of_nat 0);
      }

  unfoldable pub is_disk_above : StatFs F → Bool
  is_disk_above stats = nums.at_least (disk_usage stats).usage config.disk_pressure_threshold

  abbrev percent : ℕ → F → String
  percent digits x = nums.to_fixed digits (nums.times x (nums.of_nat 100))

  -- `Math.round(usage * 10000) / 100`
  abbrev usage_percent : F → F
  usage_percent x = nums.over (nums.round (nums.times x (nums.of_nat 10000))) (nums.of_nat 100)

  -- The attributes that both events have, before those that only one has.
  disk_attributes : DiskUsage F → Fields → Fields
  disk_attributes u more = field "path" (text config.disk_pressure_path) (
      field "usagePercent" (number (nums.number_text (usage_percent u.usage))) (
        field "threshold" (number (nums.number_text config.disk_pressure_threshold)) (
          field "totalKb" (number (nums.number_text u.total_kb)) (
            field "usedKb" (number (nums.number_text u.used_kb))
              (field "availableKb" (number (nums.number_text u.available_kb)) more)))))

  unfoldable pub disk_event : Transition → DiskUsage F → Stamp → OpsEvent
  unfolding disk_attributes
  disk_event pressure u stamp = record {
    schema_version = 1;
    id = stamp.id;
    time = stamp.time;
    source = host;
    node_id = config.node_id;
    service = config.node_id;
    type = "host.disk_pressure";
    severity = warning;
    fingerprint = none;
    trace_id = none;
    message = template (
        "Disk usage "
        ∷ percent 1 u.usage
        ∷ "% exceeds threshold "
        ∷ percent 0 config.disk_pressure_threshold
        ∷ "% on "
        ∷ config.disk_pressure_path
        ∷ []);
    attributes = object (
        disk_attributes u (
          field "consecutiveSamples"
            (number (nums.number_text (nums.of_nat config.disk_pressure_duration))) no_fields));
  }
  disk_event recovery u stamp = record {
    schema_version = 1;
    id = stamp.id;
    time = stamp.time;
    source = host;
    node_id = config.node_id;
    service = config.node_id;
    type = "host.disk_recovered";
    severity = info;
    fingerprint = none;
    trace_id = none;
    message =
        template (
          "Disk usage recovered to "
          ∷ percent 1 u.usage
          ∷ "% on "
          ∷ config.disk_pressure_path
          ∷ []);
    attributes = object (disk_attributes u no_fields);
  }

  abbrev pub disk_event_of : Option Transition → DiskUsage F → Stamp → Option OpsEvent
  disk_event_of none u stamp = none
  disk_event_of (some t) u stamp = some (disk_event t u stamp)

  -- `poll`: the detector after it, and the event that it offers to the sender, if any. A reading
  -- that is missing is a `statfsSync` that threw.
  unfoldable pub poll_disk : Option (StatFs F) → Stamp → Detector → Detector × Option OpsEvent
  poll_disk none stamp d = (d, none)
  poll_disk (some stats) stamp d =
      let (h, transition) =
        sample config.disk_pressure_duration (is_disk_above stats) d.hysteresis in
      let event = disk_event_of transition (disk_usage stats) stamp in
      (record { hysteresis = h; sender = report config.sender event d.sender }, event)
