-- ===== src/NodeAgent/Detectors/Runs.antt =====
-- What the disk and memory detectors report over a run of polls.
use pi_ops.Base.{ℕ, String, Bool, Option, none, some, List, [], ◌∷◌, map, ◌≡◌, refl, ◌∙◌}
use pi_ops.Protocol.{OpsEvent}
use pi_ops.NodeAgent.Hysteresis.{Transition, pressure, recovery, sample, samples, cons_some}
use pi_ops.NodeAgent.Sender.{Sender, enqueue}
use pi_ops.NodeAgent.Detectors.{Arithmetic, Stamp, Detector, SenderConfig, report}
use pi_ops.NodeAgent.Detectors.Disk.{
  DiskConfig, StatFs, disk_usage, is_disk_above, disk_event, disk_event_of, poll_disk,
}
use pi_ops.NodeAgent.Detectors.Memory.{
  MemoryConfig, MemoryReading, is_memory_above, memory_event, memory_event_of, poll_memory,
}

-- Events offered to the sender one after the other.
abbrev pub enqueue_all : SenderConfig → List OpsEvent → Sender OpsEvent → Sender OpsEvent
enqueue_all config [] s = s
enqueue_all config (e ∷ es) s = enqueue_all config es (enqueue config s e).0

enqueue_all-report :
    (config : SenderConfig) (event : Option OpsEvent) (later : List OpsEvent) (s : Sender OpsEvent)
    → enqueue_all config later (report config event s)
      ≡ enqueue_all config (cons_some event later) s
enqueue_all-report config none later s = refl
enqueue_all-report config (some e) later s = refl

abbrev pub disk_type : Transition → String
disk_type pressure = "host.disk_pressure"
disk_type recovery = "host.disk_recovered"

abbrev pub memory_type : Transition → String
memory_type pressure = "host.memory_pressure"
memory_type recovery = "host.memory_recovered"

-- The detector reports, in order, exactly the transitions that its debouncer fires on these
-- samples, and hands each report to the sender.
abbrev pub Reports :
    SenderConfig
    → ℕ
    → (Transition → String)
    → List Bool
    → Detector
    → Detector × List OpsEvent
    → Type 0
Reports config duration type_of above d after =
    (map (λ e. e.type) after.1 ≡ map type_of (samples duration above d.hysteresis).1)
    × (after.0.hysteresis ≡ (samples duration above d.hysteresis).0)
    × (after.0.sender ≡ enqueue_all config after.1 d.sender)

module _ {ℓ} {F : Type ℓ} (nums : Arithmetic F) (config : DiskConfig F) where
  -- A run of polls, with the events that it offers.
  unfoldable pub poll_disk_each :
      List (Option (StatFs F) × Stamp) → Detector → Detector × List OpsEvent
  poll_disk_each [] d = (d, [])
  poll_disk_each ((reading, stamp) ∷ polls) d =
      let (d', event) = poll_disk nums config reading stamp d in
      let (d'', events) = poll_disk_each polls d' in (d'', cons_some event events)

  -- The samples that a run of polls takes: a reading that fails gives none.
  abbrev pub disk_samples : List (Option (StatFs F) × Stamp) → List Bool
  disk_samples [] = []
  disk_samples ((none, stamp) ∷ polls) = disk_samples polls
  disk_samples ((some stats, stamp) ∷ polls) = is_disk_above nums config stats ∷ disk_samples polls

  disk_event-type :
      (t : Transition) (stats : StatFs F) (stamp : Stamp)
      → (disk_event nums config t (disk_usage nums config stats) stamp).type ≡ disk_type t
  unfolding disk_event
  disk_event-type pressure stats stamp = refl
  disk_event-type recovery stats stamp = refl

  types-cons_some :
      (o : Option Transition) (stats : StatFs F) (stamp : Stamp) (events : List OpsEvent)
      (later : List Transition)
      → map (λ e. e.type) events ≡ map disk_type later
      → map
          (λ e. e.type)
          (cons_some (disk_event_of nums config o (disk_usage nums config stats) stamp) events)
        ≡ map disk_type (cons_some o later)
  types-cons_some none stats stamp events later e = e
  types-cons_some (some t) stats stamp events later e = cc (disk_event-type t stats stamp, e)

  -- Over any polls, the disk detector reports exactly the transitions that the debouncer fires on
  -- the usages that could be read, in order, and hands each report to the sender; a poll that
  -- cannot read the file system counts for nothing.
  pub poll_disk_each-Reports :
      (polls : List (Option (StatFs F) × Stamp)) (d : Detector)
      → Reports config.sender config.disk_pressure_duration disk_type
          (disk_samples polls)
          d
          (poll_disk_each polls d)
  unfolding poll_disk_each poll_disk samples
  poll_disk_each-Reports [] d = (refl, refl, refl)
  poll_disk_each-Reports ((none, stamp) ∷ polls) d = poll_disk_each-Reports polls d
  poll_disk_each-Reports ((some stats, stamp) ∷ polls) d =
      let d' = (poll_disk nums config (some stats) stamp d).0 in
      let (types, states, sent) = poll_disk_each-Reports polls d' in
      let fired =
        (sample config.disk_pressure_duration (is_disk_above nums config stats) d.hysteresis).1 in
      (
        types-cons_some fired stats stamp _ _ types,
        states,
        sent
            ∙ enqueue_all-report config.sender
                (disk_event_of nums config fired (disk_usage nums config stats) stamp) _ d.sender,
      )

module _ {ℓ} {F : Type ℓ} (nums : Arithmetic F) (config : MemoryConfig F) where
  unfoldable pub poll_memory_each :
      List (MemoryReading F × Stamp) → Detector → Detector × List OpsEvent
  poll_memory_each [] d = (d, [])
  poll_memory_each ((reading, stamp) ∷ polls) d =
      let (d', event) = poll_memory nums config reading stamp d in
      let (d'', events) = poll_memory_each polls d' in (d'', cons_some event events)

  abbrev pub memory_samples : List (MemoryReading F × Stamp) → List Bool
  memory_samples [] = []
  memory_samples ((reading, stamp) ∷ polls) =
      is_memory_above nums config reading ∷ memory_samples polls

  memory_event-type :
      (t : Transition) (m : MemoryReading F) (stamp : Stamp)
      → (memory_event nums config t m stamp).type ≡ memory_type t
  unfolding memory_event
  memory_event-type pressure m stamp = refl
  memory_event-type recovery m stamp = refl

  memory_types-cons_some :
      (o : Option Transition) (m : MemoryReading F) (stamp : Stamp) (events : List OpsEvent)
      (later : List Transition)
      → map (λ e. e.type) events ≡ map memory_type later
      → map (λ e. e.type) (cons_some (memory_event_of nums config o m stamp) events)
        ≡ map memory_type (cons_some o later)
  memory_types-cons_some none m stamp events later e = e
  memory_types-cons_some (some t) m stamp events later e = cc (memory_event-type t m stamp, e)

  -- Over any polls, the memory detector reports exactly the transitions that the debouncer fires on
  -- the usages that it reads, in order, and hands each report to the sender.
  pub poll_memory_each-Reports :
      (polls : List (MemoryReading F × Stamp)) (d : Detector)
      → Reports config.sender config.memory_pressure_duration memory_type
          (memory_samples polls)
          d
          (poll_memory_each polls d)
  unfolding poll_memory_each poll_memory samples
  poll_memory_each-Reports [] d = (refl, refl, refl)
  poll_memory_each-Reports ((m, stamp) ∷ polls) d =
      let d' = (poll_memory nums config m stamp d).0 in
      let (types, states, sent) = poll_memory_each-Reports polls d' in
      let fired =
        (sample config.memory_pressure_duration (is_memory_above nums config m) d.hysteresis).1 in
      (
        memory_types-cons_some fired m stamp _ _ types,
        states,
        sent
            ∙ enqueue_all-report config.sender (memory_event_of nums config fired m stamp) _
                d.sender,
      )
