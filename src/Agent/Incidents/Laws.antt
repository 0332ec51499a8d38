-- ===== src/Agent/Incidents/Laws.antt =====
-- Runs of the incident engine over events.
use pi_ops.Base.{String, Option, none, some, List, [], ◌∷◌, ◌≡◌}
use pi_ops.Protocol.{OpsEvent}
use pi_ops.Agent.Incidents.{IncidentRow, Tables, get_incident}
use pi_ops.Agent.Incidents.Engine.{Env, IncidentConfig, IncidentResult}
use pi_ops.Agent.Incidents.Arrivals.{process_event}
use pi_ops.Agent.Incidents.Ledger.{Reach, here, Reach-trans, Balanced}
use pi_ops.Agent.Incidents.History.{Follows, Reach-Follows, Reach-Balanced}
use pi_ops.Agent.Incidents.Moves.{OptionAll, ledger_of}
use pi_ops.Agent.Incidents.Process.{process_event-Reach}

-- An event, its time, the time of the clock, and the id of an incident that it may begin.
pub record Arrival : Type 0 where
  pub new_id : String
  pub event : OpsEvent
  pub timestamp : String
  pub now : String

module _ {ℓ} {N : Type ℓ} (env : Env N) (config : IncidentConfig) where
  -- A call that throws leaves the tables as they were.
  abbrev pub or_before : Tables N → Option (Tables N × IncidentResult) → Tables N
  or_before t none = t
  or_before t (some (u, _)) = u

  unfoldable pub process_arrival : Arrival → Tables N → Tables N
  process_arrival a t = or_before t (process_event env config a.new_id a.event a.timestamp a.now t)

  unfoldable pub process_each : List Arrival → Tables N → Tables N
  process_each [] t = t
  process_each (a ∷ rest) t = process_each rest (process_arrival a t)

  or_before-Reach :
      (t : Tables N) (o : Option (Tables N × IncidentResult))
      → OptionAll (λ (p : Tables N × IncidentResult). Reach (ledger_of t) (ledger_of p.0)) o
      → Reach (ledger_of t) (ledger_of (or_before t o))
  or_before-Reach t none h = here
  or_before-Reach t (some p) h = h

  process_each-Reach :
      (arrivals : List Arrival) (t : Tables N)
      → Balanced (ledger_of t)
      → Reach (ledger_of t) (ledger_of (process_each arrivals t))
  unfolding process_each process_arrival
  process_each-Reach [] t b = here
  process_each-Reach (a ∷ rest) t b =
      let one =
        or_before-Reach t _
          (process_event-Reach env config a.new_id a.event a.timestamp a.now t b) in
      Reach-trans one (process_each-Reach rest (process_arrival a t) (Reach-Balanced b one))

  -- Whatever events arrive, failures and recoveries in any order: ids stay unique, every link leads to an
  -- incident, no event is linked twice, and the count of each incident is the number of its events.
  pub process_each-Balanced :
      (arrivals : List Arrival) (t : Tables N)
      → Balanced (ledger_of t)
      → Balanced (ledger_of (process_each arrivals t))
  process_each-Balanced arrivals t b = Reach-Balanced b (process_each-Reach arrivals t b)

  -- Whatever events arrive: a closed incident is never changed, a recovered one stays recovered, its
  -- severity and count never fall, and its fingerprint, service and node stay.
  pub process_each-Follows :
      (arrivals : List Arrival) (t : Tables N) (id : String) (r : IncidentRow)
      → Balanced (ledger_of t)
      → get_incident id t.incidents ≡ some r
      → Follows id r (process_each arrivals t).incidents
  process_each-Follows arrivals t id r b e = Reach-Follows id r e (process_each-Reach arrivals t b)
