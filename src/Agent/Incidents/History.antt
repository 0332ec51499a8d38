-- ===== src/Agent/Incidents/History.antt =====
-- What an incident keeps while the ledger changes.
use pi_ops.Base.{
  ◌≤◌, String, Bool, true, false, some, List, any, ◌≡◌, refl, sym, ◌∙◌, ap, subst, if_cases,
  if◌then◌else◌, Bool-cases, inl, inr, str_eq, eq_iff, arith,
}
use pi_ops.Agent.Incidents.{
  is_closed, is_recovered, IncidentRow, has_incident_id, get_incident, IncidentUpdate, updated,
  update_incident,
}
use pi_ops.Agent.Incidents.Engine.{severity_rank}
use pi_ops.Agent.Incidents.Ledger.{
  Ledger, Fits, Step, gains, begins, Reach, here, next, changed, get-update, get-id, Balanced,
}
use pi_ops.Agent.Incidents.Balance.{Step-Balanced, get-any}

-- A closed incident is never changed, a recovered one stays recovered, the severity never falls, and the
-- identity and the count stay or grow.
pub record Evolves (r q : IncidentRow) : Type 0 where
  pub frozen : is_closed r.state ≡ true → q ≡ r
  pub stays_recovered : is_recovered r.state ≡ true → is_recovered q.state ≡ true
  pub stays_unclosed : is_closed r.state ≡ false → is_closed q.state ≡ false
  pub no_milder : severity_rank r.severity ≤ severity_rank q.severity
  pub no_fewer : r.event_count ≤ q.event_count
  pub same_fingerprint : q.fingerprint ≡ r.fingerprint
  pub same_service : q.service ≡ r.service
  pub same_node : q.node_id ≡ r.node_id

Evolves-refl : (r : IncidentRow) → Evolves r r
Evolves-refl r = record {
  frozen = λ _. refl;
  stays_recovered = λ h. h;
  stays_unclosed = λ h. h;
  no_milder = omega arith;
  no_fewer = omega arith;
  same_fingerprint = refl;
  same_service = refl;
  same_node = refl;
}

Evolves-trans : {r q p : IncidentRow} → Evolves r q → Evolves q p → Evolves r p
Evolves-trans {r} {q} {p} e f = record {
  frozen = λ h. f.frozen (ap (λ x. is_closed x.state) (e.frozen h) ∙ h) ∙ e.frozen h;
  stays_recovered = λ h. f.stays_recovered (e.stays_recovered h);
  stays_unclosed = λ h. f.stays_unclosed (e.stays_unclosed h);
  no_milder = omega (arith, e.no_milder, f.no_milder);
  no_fewer = omega (arith, e.no_fewer, f.no_fewer);
  same_fingerprint = f.same_fingerprint ∙ e.same_fingerprint;
  same_service = f.same_service ∙ e.same_service;
  same_node = f.same_node ∙ e.same_node;
}

updated-Evolves :
    (r : IncidentRow) (v : IncidentUpdate) (linked : Bool)
    → is_closed r.state ≡ false
    → Fits r v linked
    → Evolves r (updated v r)
updated-Evolves r v linked unclosed fits = record {
  frozen = λ h. cc;
  stays_recovered = λ h. ap is_recovered (fits.stays_recovered h);
  stays_unclosed = λ _. fits.not_closed;
  no_milder = fits.no_milder;
  no_fewer = omega (arith, fits.counts);
  same_fingerprint = refl;
  same_service = refl;
  same_node = refl;
}

-- The incident of an id, after.
abbrev pub Follows : String → IncidentRow → List IncidentRow → Type 0
Follows id r rows = (q : IncidentRow) × (get_incident id rows ≡ some q) × Evolves r q

gains-Follows :
    (rows : List IncidentRow) (x : IncidentRow) (v : IncidentUpdate) (linked : Bool) (id : String)
    (r : IncidentRow)
    → get_incident x.id rows ≡ some x
    → is_closed x.state ≡ false
    → Fits x v linked
    → get_incident id rows ≡ some r
    → Follows id r (update_incident x.id v rows)
gains-Follows rows x v linked id r ex unclosed fits e = (
  changed x.id v r,
  get-update x.id v rows id r e,
  if_cases {A = IncidentRow} (Evolves r) (has_incident_id x.id r)
      (λ hit.
        let one : id ≡ x.id = sym (get-id id rows e) ∙ (eq_iff r.id x.id).0 hit in
        let there : get_incident x.id rows ≡ some r =
          subst (λ i. get_incident i rows ≡ some r) one e in
        let same : x ≡ r = cc in
        subst (λ (y : IncidentRow). Evolves y (updated v y)) same
          (updated-Evolves x v linked unclosed fits))
      (λ _. Evolves-refl r),
)

Step-Follows :
    {s u : Ledger} (id : String) (r : IncidentRow)
    → Step s u
    → get_incident id s.incidents ≡ some r
    → Follows id r u.incidents
Step-Follows {s} id r (gains x event_id v ex unclosed fits same) e =
    subst (λ (l : Ledger). Follows id r l.incidents) (sym same)
      (gains-Follows s.incidents x v _ id r ex unclosed fits e)
Step-Follows {s} id r (begins n event_id fresh _ _ _ same) e =
    let apart : str_eq n.id id ≡ false = elim (Bool-cases (str_eq n.id id)) [
      | inl hit ↦
          let taken : any (has_incident_id n.id) s.incidents ≡ true =
            subst (λ i. any (has_incident_id i) s.incidents ≡ true) (sym ((eq_iff n.id id).0 hit))
              (get-any id s.incidents e) in
          cc
      | inr miss ↦ miss
    ] in
    subst (λ (l : Ledger). Follows id r l.incidents) (sym same)
      (
        r,
        subst (λ b. (if b then some n else get_incident id s.incidents) ≡ some r) (sym apart) e,
        Evolves-refl r,
      )

pub Reach-Follows :
    {s u : Ledger} (id : String) (r : IncidentRow)
    → get_incident id s.incidents ≡ some r
    → Reach s u
    → Follows id r u.incidents
Reach-Follows id r e here = (r, e, Evolves-refl r)
Reach-Follows id r e (next reach step) =
    let (q, f, first) = Reach-Follows id r e reach in
    let (p, g, then_) = Step-Follows id q step f in (p, g, Evolves-trans first then_)

pub Reach-Balanced : {s u : Ledger} → Balanced s → Reach s u → Balanced u
Reach-Balanced b here = b
Reach-Balanced b (next reach step) = Step-Balanced step (Reach-Balanced b reach)
