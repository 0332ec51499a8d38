-- ===== src/NodeAgent/Detectors/Tests.antt =====
-- Detectors on concrete readings.
use pi_ops.Base.{
  ℕ, ◌*◌, ◌/◌, ◌-◌, String, true, false, none, some, List, [], ◌∷◌, leb, ltb, ◌≡◌, refl, map,
  Option,
}
use pi_ops.NodeAgent.Hysteresis.{create_hysteresis_state, sample}
use pi_ops.NodeAgent.Sender.{create_event_sender}
use pi_ops.NodeAgent.Detectors.{Arithmetic, Stamp, Detector, SenderConfig}
use pi_ops.NodeAgent.Detectors.Disk.{
  DiskConfig, StatFs, poll_disk, disk_usage, is_disk_above, disk_event,
}
use pi_ops.NodeAgent.Detectors.Memory.{MemoryConfig, MemoryReading}
use pi_ops.NodeAgent.Detectors.Health.{
  HealthTarget, HealthConfig, health_target_key, get_state, set_state, create_health_detector,
  same_key,
}
use pi_ops.NodeAgent.Detectors.Runs.{
  disk_type, Reports, poll_disk_each, disk_samples, poll_disk_each-Reports,
}
use pi_ops.NodeAgent.Detectors.Targets.{
  Answered, samples_of, Tracks, answer_each, answer_each-Tracks,
}

-- Whole numbers in place of doubles.
abbrev whole : Arithmetic ℕ
whole = record {
  of_nat = λ n. n;
  times = λ a b. a * b;
  over = λ a b. a / b;
  minus = λ a b. a - b;
  at_least = λ a b. leb b a;
  above = λ a b. ltb b a;
  round = λ a. a;
  to_fixed = λ digits a. "1";
  number_text = λ a. "1";
}

abbrev queue_of_two : SenderConfig
queue_of_two = record { event_queue_size = 2; event_max_retries = 1 }

abbrev disk : DiskConfig ℕ
disk = record {
  node_id = "n1";
  disk_pressure_path = "/";
  disk_pressure_threshold = 1;
  disk_pressure_duration = 2;
  sender = queue_of_two;
}

abbrev memory : MemoryConfig ℕ
memory = record {
  node_id = "n1";
  memory_pressure_threshold = 1;
  memory_pressure_duration = 1;
  sender = queue_of_two;
}

abbrev full : StatFs ℕ
full = record { blocks = 2048; bsize = 1024; bfree = 0; bavail = 0 }

abbrev stamp : Stamp
stamp = record { id = "e"; time = "2026-01-01" }

abbrev fresh : Detector
fresh = record { hysteresis = create_hysteresis_state; sender = create_event_sender }

abbrev readings : List (Option (StatFs ℕ) × Stamp)
readings = (some full, stamp) ∷ (none, stamp) ∷ (some full, stamp) ∷ []

full_twice :
    map (λ e. e.type) (poll_disk_each whole disk readings fresh).1 ≡ "host.disk_pressure" ∷ []
unfolding poll_disk_each poll_disk is_disk_above disk_usage sample disk_event
    create_hysteresis_state
full_twice = refl

poll_disk_each-Reports_example :
    Reports queue_of_two 2 disk_type
      (disk_samples whole disk readings)
      fresh
      (poll_disk_each whole disk readings fresh)
poll_disk_each-Reports_example = poll_disk_each-Reports whole disk readings fresh

abbrev memory_readings : List (MemoryReading ℕ × Stamp)
memory_readings =
    (record { total = 8; free = 0 }, stamp) ∷ (record { total = 8; free = 4 }, stamp) ∷ []

abbrev target : String → HealthTarget
target name = record {
  name = name;
  url = "http://localhost/";
  method = none;
  interval_ms = none;
  rule_id = none;
  rule_version = none;
  container = none;
}

abbrev health : HealthConfig
health = record {
  node_id = "n1";
  health_targets = target "a" ∷ target "b" ∷ [];
  health_failure_duration = 1;
  detector_poll_interval_ms = 1000;
  sender = queue_of_two;
}

abbrev answers : List Answered
answers =
    record {
      target = target "b";
      result = record { is_ok = true; status = some "200"; error = none };
      stamp = stamp;
    }
    ∷ record {
      target = target "a";
      result = record { is_ok = false; status = none; error = some "refused" };
      stamp = stamp;
    }
    ∷ []

abbrev show_one : ℕ → String
show_one n = "1"

known_a :
    get_state
      (health_target_key (target "a"))
      (create_health_detector health create_event_sender).states
    ≡ some create_hysteresis_state
unfolding get_state create_health_detector set_state same_key health_target_key
known_a = refl

answer_each-Tracks_example :
    Tracks show_one health
      (health_target_key (target "a"))
      create_hysteresis_state
      (samples_of (health_target_key (target "a")) answers)
      (answer_each show_one health answers (create_health_detector health create_event_sender))
answer_each-Tracks_example =
    answer_each-Tracks show_one health answers (create_health_detector health create_event_sender)
      (health_target_key (target "a")) create_hysteresis_state known_a
