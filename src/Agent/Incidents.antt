-- ===== src/Agent/Incidents.antt =====
-- apps/agent/src/store.ts: the tables of incidents, of their events and of the recoveries that wait for
-- an incident, with the statements that the incident engine uses.
pub mod Engine
pub mod Arrivals
pub mod Interface
pub mod Ledger
pub mod Laws
mod Tests
pub mod Settles
pub mod Again
pub mod Process
pub mod Moves
pub mod History
pub mod Balance
use pi_ops.Base.{
  ℕ, ◌+◌, ◌-◌, String, str_eq, Bool, true, false, not, ◌&&◌, ◌||◌, ◌==◌, ltb, leb, Option, none,
  some, List, [], ◌∷◌, ◌++◌, map, any, find, filter, if◌then◌else◌,
}
use pi_ops.Base.Order.{text_leb, sort_by}
use pi_ops.Protocol.{OpsEvent, OpsEventSeverity}
use pi_ops.Agent.Events.{Mark, mark_event_processed}
use pi_ops.Agent.Jobs.{EvidenceJob, update_where}
use pi_ops.Agent.Reasoning.{ReasoningJob}

pub data IncidentState : Type 0 where
  opened investigating notified recovered closed : IncidentState

pub record IncidentRow : Type 0 where
  pub id : String
  pub service : String
  pub node_id : String
  pub type : String
  pub state : IncidentState
  pub fingerprint : String
  pub first_seen : String
  pub last_seen : String
  pub event_count : ℕ
  pub severity : OpsEventSeverity
  pub fingerprint_version : ℕ

-- The table incident_events.
pub record Link : Type 0 where
  pub incident_id : String
  pub event_id : String

pub record PendingRecovery : Type 0 where
  pub event_id : String
  pub fingerprint : String
  pub event_time : String
  pub event : OpsEvent

-- The tables that the engine changes itself, and the rest, of evidence and notifications.
pub record Tables {ℓ} (N : Type ℓ) : Type ℓ where
  pub incidents : List IncidentRow
  pub links : List Link
  pub pending_recoveries : List PendingRecovery
  pub marks : List Mark
  pub evidence_jobs : List (EvidenceJob OpsEvent)
  pub reasoning_jobs : List ReasoningJob
  pub notifications : N

abbrev pub is_active : IncidentState → Bool
is_active opened = true
is_active investigating = true
is_active notified = true
is_active _ = false

abbrev pub is_closed : IncidentState → Bool
is_closed closed = true
is_closed _ = false

abbrev pub is_recovered : IncidentState → Bool
is_recovered recovered = true
is_recovered _ = false

abbrev pub has_incident_id : String → IncidentRow → Bool
has_incident_id id r = str_eq r.id id

abbrev pub get_incident : String → List IncidentRow → Option IncidentRow
get_incident id = find (has_incident_id id)

-- INSERT, which fails on an id that is taken.
unfoldable pub insert_incident : IncidentRow → List IncidentRow → Option (List IncidentRow)
insert_incident row rows = if any (has_incident_id row.id) rows then none else some (row ∷ rows)

pub record IncidentUpdate : Type 0 where
  pub first_seen : String
  pub last_seen : String
  pub event_count : ℕ
  pub severity : OpsEventSeverity
  pub state : IncidentState

abbrev pub updated : IncidentUpdate → IncidentRow → IncidentRow
updated u r = record r {
  first_seen = u.first_seen;
  last_seen = u.last_seen;
  event_count = u.event_count;
  severity = u.severity;
  state = u.state;
}

unfoldable pub update_incident : String → IncidentUpdate → List IncidentRow → List IncidentRow
update_incident id u rows = (update_where (has_incident_id id) (updated u) rows).0

abbrev pub has_event : String → Link → Bool
has_event event_id l = str_eq l.event_id event_id

-- INSERT OR IGNORE: an event belongs to one incident at most.
unfoldable pub link_event_to_incident :
    (incident_id event_id : String) → List Link → List Link × Bool
link_event_to_incident incident_id event_id links =
    if any (has_event event_id) links
    then (links, false)
    else (record { incident_id = incident_id; event_id = event_id } ∷ links, true)

abbrev pub incident_of : List IncidentRow → Option Link → Option IncidentRow
incident_of rows none = none
incident_of rows (some l) = get_incident l.incident_id rows

unfoldable pub find_incident_by_event_id :
    (event_id : String) → List IncidentRow → List Link → Option IncidentRow
find_incident_by_event_id event_id rows links = incident_of rows (find (has_event event_id) links)

-- In the order of the event ids.
unfoldable pub list_incident_event_ids : (incident_id : String) → List Link → List String
list_incident_event_ids incident_id links =
    sort_by text_leb (map (λ l. l.event_id) (filter (λ l. str_eq l.incident_id incident_id) links))

abbrev pub waits_for : String → PendingRecovery → Bool
waits_for event_id p = str_eq p.event_id event_id

-- INSERT OR IGNORE.
unfoldable pub add_pending_recovery :
    OpsEvent → (fingerprint : String) → List PendingRecovery → List PendingRecovery
add_pending_recovery event fingerprint rows =
    if any (waits_for event.id) rows
    then rows
    else record {
      event_id = event.id;
      fingerprint = fingerprint;
      event_time = event.time;
      event = event;
    }
      ∷ rows

unfoldable pub remove_pending_recovery :
    (event_id : String) → List PendingRecovery → List PendingRecovery
remove_pending_recovery event_id = filter (λ p. not (waits_for event_id p))

-- SELECT DISTINCT fingerprint ... ORDER BY fingerprint.
abbrev pub distinct : List String → List String
distinct [] = []
distinct (x ∷ xs) = let rest = distinct xs in if any (λ y. str_eq y x) xs then rest else x ∷ rest

unfoldable pub list_pending_recovery_fingerprints : List PendingRecovery → List String
list_pending_recovery_fingerprints rows =
    sort_by text_leb (distinct (map (λ p. p.fingerprint) rows))

abbrev pub only : List IncidentRow → Option IncidentRow
only (r ∷ []) = some r
only _ = none

abbrev pub or_else {ℓ} : {A : Type ℓ} → Option A → Option A → Option A
or_else (some a) _ = some a
or_else none b = b

abbrev pub first {ℓ} : {A : Type ℓ} → List A → Option A
first [] = none
first (x ∷ xs) = some x

-- `time_of` is the instant of a date, in milliseconds.
module _ (time_of : String → ℕ) where
  unfoldable pub recovery_before : PendingRecovery → PendingRecovery → Bool
  recovery_before a b =
      ltb (time_of a.event_time) (time_of b.event_time)
      || (time_of a.event_time == time_of b.event_time && text_leb a.event_id b.event_id)

  unfoldable pub list_pending_recoveries :
      (fingerprint : String) → List PendingRecovery → List OpsEvent
  list_pending_recoveries fingerprint rows =
      map (λ p. p.event)
        (sort_by recovery_before (filter (λ p. str_eq p.fingerprint fingerprint) rows))

  -- Several active incidents with the fingerprint leave a recovery without one.
  unfoldable pub find_recovery_incident :
      (fingerprint timestamp : String) → List IncidentRow → Option IncidentRow
  find_recovery_incident fingerprint timestamp rows = only (
      filter
        (λ r.
          leb (time_of r.first_seen) (time_of timestamp)
          && leb (time_of r.last_seen) (time_of timestamp))
        (filter (λ r. str_eq r.fingerprint fingerprint && is_active r.state) rows))

  abbrev pub distance : (timestamp : String) → IncidentRow → ℕ
  distance timestamp r =
      if ltb (time_of timestamp) (time_of r.first_seen)
      then time_of r.first_seen - time_of timestamp
      else if ltb (time_of r.last_seen) (time_of timestamp)
      then time_of timestamp - time_of r.last_seen
      else 0

  -- The nearest first, then the one that began last, then the first id.
  unfoldable pub nearer : (timestamp : String) → IncidentRow → IncidentRow → Bool
  nearer timestamp a b =
      ltb (distance timestamp a) (distance timestamp b)
      || (distance timestamp a == distance timestamp b
          && (ltb (time_of b.first_seen) (time_of a.first_seen)
              || (time_of a.first_seen == time_of b.first_seen && text_leb a.id b.id)))

  unfoldable pub may_take : (bound : Bool) (timestamp : String) (window : ℕ) → IncidentRow → Bool
  may_take bound timestamp window r =
      not (is_closed r.state)
      && (is_active r.state || not (ltb (time_of r.last_seen) (time_of timestamp)))
      && (leb (distance timestamp r) window || (is_active r.state && bound))

  -- Whether no incident with the fingerprint is under way or covers the time.
  unfoldable pub is_unclaimed : (timestamp : String) → List IncidentRow → Bool
  is_unclaimed timestamp rows = not (
      any
        (λ r.
          is_active r.state
          || (is_recovered r.state && leb (time_of timestamp) (time_of r.last_seen)))
        rows)

  -- `stored_event` reads the table of events, and `is_bound` the notifications of an incident.
  module _ (fingerprint_of : OpsEvent → String) (stored_event : String → Option OpsEvent)
      (is_bound : String → Bool) where
    abbrev pub event_has_fingerprint : String → Option OpsEvent → Bool
    event_has_fingerprint fingerprint none = false
    event_has_fingerprint fingerprint (some event) = str_eq (fingerprint_of event) fingerprint

    abbrev pub stored_of : Option String → Option OpsEvent
    stored_of none = none
    stored_of (some event_id) = stored_event event_id

    -- Business errors of this version whose first event has the fingerprint by the present policy.
    unfoldable pub refingerprinted :
        (fingerprint : String) → List IncidentRow → List Link → List IncidentRow
    refingerprinted fingerprint rows links =
        filter
          (λ r.
            r.fingerprint_version == 2
            && str_eq r.type "business.error"
            && is_active r.state
            && event_has_fingerprint fingerprint
                (stored_of (first (list_incident_event_ids r.id links))))
          rows

    unfoldable pub find_incident_for_event :
        (fingerprint timestamp : String) (window : ℕ)
        → List IncidentRow
        → List Link
        → Option IncidentRow
    find_incident_for_event fingerprint timestamp window rows links =
        let known = filter (λ r. str_eq r.fingerprint fingerprint) rows in
        let found =
          if is_unclaimed timestamp known
          then known ++ refingerprinted fingerprint rows links
          else known in
        first (
          sort_by (nearer timestamp)
            (filter (λ r. may_take (is_bound r.id) timestamp window r) found))
