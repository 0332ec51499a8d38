-- ===== src/Agent/Incidents/Ledger.antt =====
-- What the incident engine does to the incidents and to their events, as steps of two kinds, and what
-- every step keeps.
use pi_ops.Base.{
  ℕ, ◌+◌, ◌≤◌, String, str_eq, eq_iff, Bool, true, false, ◌||◌, some, List, [], ◌∷◌, any, All, ◌≡◌,
  refl, ◌∙◌, ap, if◌then◌else◌, if_cases,
}
use pi_ops.Base.Search.{find-Memᴰ, find-map}
use pi_ops.Agent.Incidents.{
  recovered, is_closed, is_recovered, IncidentRow, Link, has_incident_id, get_incident,
  IncidentUpdate, updated, update_incident, has_event, link_event_to_incident,
}
use pi_ops.Agent.Incidents.Engine.{severity_rank}

pub record Ledger : Type 0 where
  pub incidents : List IncidentRow
  pub links : List Link

-- The update of an incident that gains an event, if it is linked.
pub record Fits (r : IncidentRow) (v : IncidentUpdate) (linked : Bool) : Type 0 where
  pub counts : v.event_count ≡ r.event_count + (if linked then 1 else 0)
  pub stays_recovered : is_recovered r.state ≡ true → v.state ≡ recovered
  pub not_closed : is_closed v.state ≡ false
  pub no_milder : severity_rank r.severity ≤ severity_rank v.severity

-- An incident that is not closed gains an event, or a new incident has its first event.
pub data Step (s u : Ledger) : Type 0 where
  gains :
      (r : IncidentRow) (event_id : String) (v : IncidentUpdate)
      → get_incident r.id s.incidents ≡ some r
      → is_closed r.state ≡ false
      → Fits r v (link_event_to_incident r.id event_id s.links).1
      → u ≡ record {
        incidents = update_incident r.id v s.incidents;
        links = (link_event_to_incident r.id event_id s.links).0;
      }
      → Step s u
  begins :
      (r : IncidentRow) (event_id : String)
      → any (has_incident_id r.id) s.incidents ≡ false
      → any (has_event event_id) s.links ≡ false
      → r.event_count ≡ 1
      → is_closed r.state ≡ false
      → u ≡ record {
        incidents = r ∷ s.incidents;
        links = record { incident_id = r.id; event_id = event_id } ∷ s.links;
      }
      → Step s u

pub data Reach (s : Ledger) : Ledger → Type 0 where
  here : Reach s s
  next : {t u : Ledger} → Reach s t → Step t u → Reach s u

pub Reach-trans : {s t u : Ledger} → Reach s t → Reach t u → Reach s u
Reach-trans r here = r
Reach-trans r (next q step) = next (Reach-trans r q) step

-- The number of events that are linked to an incident.
abbrev pub links_of : String → List Link → ℕ
links_of id [] = 0
links_of id (l ∷ ls) = (if str_eq l.incident_id id then 1 else 0) + links_of id ls

-- No event is linked twice.
abbrev pub Once : List Link → Type 0
Once [] = Unit
Once (l ∷ ls) = (any (has_event l.event_id) ls ≡ false) × Once ls

-- Each incident is the one of its id.
abbrev pub Indexed : List IncidentRow → Type 0
Indexed rows = All (λ r. get_incident r.id rows ≡ some r) rows

pub record Balanced (s : Ledger) : Type 0 where
  pub indexed : Indexed s.incidents
  pub counted : All (λ r. r.event_count ≡ links_of r.id s.links) s.incidents
  pub placed : All (λ l. any (has_incident_id l.incident_id) s.incidents ≡ true) s.links
  pub once : Once s.links

pub get-id :
    (id : String) (rows : List IncidentRow) {r : IncidentRow}
    → get_incident id rows ≡ some r
    → r.id ≡ id
get-id id rows {r} e = (eq_iff r.id id).0 (find-Memᴰ (has_incident_id id) rows e).1

abbrev pub changed : String → IncidentUpdate → IncidentRow → IncidentRow
changed id v r = if has_incident_id id r then updated v r else r

pub changed-id : (id : String) (v : IncidentUpdate) (r : IncidentRow) → (changed id v r).id ≡ r.id
changed-id id v r =
    if_cases {A = IncidentRow} (λ x. x.id ≡ r.id) (has_incident_id id r) (λ _. refl) (λ _. refl)

-- The incident of an id after an update.
pub get-update :
    (id : String) (v : IncidentUpdate) (rows : List IncidentRow) (other : String) (r : IncidentRow)
    → get_incident other rows ≡ some r
    → get_incident other (update_incident id v rows) ≡ some (changed id v r)
unfolding update_incident
get-update id v rows other r e =
    find-map (has_incident_id other) (changed id v) rows
      (λ x. ap (λ i. str_eq i other) (changed-id id v x)) r e

module _ (id : String) (v : IncidentUpdate) where
  pub any-update :
      (rows : List IncidentRow) (other : String)
      → any (has_incident_id other) (update_incident id v rows) ≡ any (has_incident_id other) rows
  unfolding update_incident
  any-update [] other = refl
  any-update (r ∷ rows) other =
      ap (λ i. str_eq i other || any (has_incident_id other) (update_incident id v rows))
        (changed-id id v r)
      ∙ ap (λ b. str_eq r.id other || b) (any-update rows other)
