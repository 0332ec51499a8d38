-- ===== src/Agent/Incidents/Balance.antt =====
-- The counts of events, the ids and the links after a step of the ledger.
use pi_ops.Base.{
  ◌+◌, String, str_eq, eq_iff, eq_refl, true, false, some, List, [], ◌∷◌, any, All, ◌≡◌, refl, sym,
  ◌∙◌, subst, if◌then◌else◌, if_cases, Bool-cases, inl, inr, arith,
}
use pi_ops.Base.Search.{find-Memᴰ, All-map, Memᴰ-any}
use pi_ops.Agent.Incidents.{
  IncidentRow, Link, has_incident_id, get_incident, IncidentUpdate, update_incident, has_event,
  link_event_to_incident,
}
use pi_ops.Agent.Incidents.Ledger.{
  Ledger, Fits, Step, gains, begins, links_of, Once, Balanced, changed, changed-id, get-update,
  any-update,
}

-- The links after an event is linked, or is known.
module _ (incident_id event_id : String) where
  links_of-link :
      (id : String) (ls : List Link)
      → links_of id (link_event_to_incident incident_id event_id ls).0
        ≡ links_of id ls
          + (if str_eq incident_id id
              then (if (link_event_to_incident incident_id event_id ls).1 then 1 else 0)
              else 0)
  unfolding link_event_to_incident
  links_of-link id ls = ground arith

  Once-link : (ls : List Link) → Once ls → Once (link_event_to_incident incident_id event_id ls).0
  unfolding link_event_to_incident
  Once-link ls h = elim (Bool-cases (any (has_event event_id) ls)) [
    | inl old ↦ rw old h
    | inr new ↦ rw new (new, h)
  ]

  placed-link :
      (rows : List IncidentRow) (ls : List Link)
      → any (has_incident_id incident_id) rows ≡ true
      → All (λ l. any (has_incident_id l.incident_id) rows ≡ true) ls
      → All
          (λ l. any (has_incident_id l.incident_id) rows ≡ true)
          (link_event_to_incident incident_id event_id ls).0
  unfolding link_event_to_incident
  placed-link rows ls there h = elim (Bool-cases (any (has_event event_id) ls)) [
    | inl old ↦ rw old h
    | inr new ↦ rw new (there, h)
  ]

-- Updates keep each incident under its id.
Indexed-changed :
    (id : String) (v : IncidentUpdate) (full rows : List IncidentRow)
    → All (λ r. get_incident r.id full ≡ some r) rows
    → All (λ r. get_incident r.id (update_incident id v full) ≡ some r) (update_incident id v rows)
unfolding update_incident
Indexed-changed id v full [] h = tt
Indexed-changed id v full (r ∷ rows) (e, h) = (
  subst (λ i. get_incident i (update_incident id v full) ≡ some (changed id v r))
      (sym (changed-id id v r)) (get-update id v full r.id r e),
  Indexed-changed id v full rows h,
)

counted-changed :
    (r : IncidentRow) (event_id : String) (v : IncidentUpdate) (full rows : List IncidentRow)
    (ls : List Link)
    → get_incident r.id full ≡ some r
    → Fits r v (link_event_to_incident r.id event_id ls).1
    → All (λ x. get_incident x.id full ≡ some x) rows
    → All (λ x. x.event_count ≡ links_of x.id ls) rows
    → All
        (λ x. x.event_count ≡ links_of x.id (link_event_to_incident r.id event_id ls).0)
        (update_incident r.id v rows)
unfolding update_incident
counted-changed r event_id v full [] ls e fits _ _ = tt
counted-changed r event_id v full (x ∷ rows) ls e fits (ix, is) (cx, cs) = (
  if_cases {A = IncidentRow}
      (λ y. y.event_count ≡ links_of y.id (link_event_to_incident r.id event_id ls).0)
      (has_incident_id r.id x)
      (λ hit.
        let same : x.id ≡ r.id = (eq_iff x.id r.id).0 hit in
        let there : get_incident r.id full ≡ some x =
          subst (λ i. get_incident i full ≡ some x) same ix in
        let one : x ≡ r = cc in
        let cr : r.event_count ≡ links_of r.id ls =
          subst (λ (y : IncidentRow). y.event_count ≡ links_of y.id ls) one cx in
        let grown = links_of-link r.id event_id r.id ls in
        let self : str_eq r.id r.id ≡ true = eq_refl r.id in
        subst (λ i. v.event_count ≡ links_of i (link_event_to_incident r.id event_id ls).0)
          (sym same) (ground (arith, fits.counts)))
      (λ miss.
        let other : str_eq r.id x.id ≡ false = ground (arith, eq_iff x.id r.id, eq_iff r.id x.id) in
        let grown = links_of-link r.id event_id x.id ls in ground arith),
  counted-changed r event_id v full rows ls e fits is cs,
)

placed-changed :
    (id : String) (v : IncidentUpdate) (rows : List IncidentRow) (ls : List Link)
    → All (λ l. any (has_incident_id l.incident_id) rows ≡ true) ls
    → All (λ l. any (has_incident_id l.incident_id) (update_incident id v rows) ≡ true) ls
placed-changed id v rows ls h = All-map _ _ ls (λ l p. any-update id v rows l.incident_id ∙ p) h

pub get-any :
    (id : String) (rows : List IncidentRow) {r : IncidentRow}
    → get_incident id rows ≡ some r
    → any (has_incident_id id) rows ≡ true
get-any id rows e =
    let (m, h) = find-Memᴰ (has_incident_id id) rows e in Memᴰ-any (has_incident_id id) m h

-- A new incident.
Indexed-new :
    (n : IncidentRow) (full rows : List IncidentRow)
    → any (has_incident_id n.id) rows ≡ false
    → All (λ r. get_incident r.id full ≡ some r) rows
    → All (λ r. get_incident r.id (n ∷ full) ≡ some r) rows
Indexed-new n full [] fresh h = tt
Indexed-new n full (r ∷ rows) fresh (e, h) = (
  let apart : str_eq n.id r.id ≡ false = ground (arith, eq_iff n.id r.id, eq_iff r.id n.id) in
      rw apart e,
  Indexed-new n full rows (ground arith) h,
)

links_of_unknown :
    (id : String) (rows : List IncidentRow) (ls : List Link)
    → any (has_incident_id id) rows ≡ false
    → All (λ l. any (has_incident_id l.incident_id) rows ≡ true) ls
    → links_of id ls ≡ 0
links_of_unknown id rows [] fresh h = refl
links_of_unknown id rows (l ∷ ls) fresh (there, h) =
    let apart : str_eq l.incident_id id ≡ false = elim (Bool-cases (str_eq l.incident_id id)) [
      | inl hit ↦
          let e : any (has_incident_id id) rows ≡ true =
            subst (λ i. any (has_incident_id i) rows ≡ true) ((eq_iff l.incident_id id).0 hit)
              there in
          cc
      | inr miss ↦ miss
    ] in
    ground (arith, links_of_unknown id rows ls fresh h)

counted-new :
    (n : IncidentRow) (event_id : String) (rows : List IncidentRow) (ls : List Link)
    → any (has_incident_id n.id) rows ≡ false
    → All (λ r. r.event_count ≡ links_of r.id ls) rows
    → All
        (λ r.
          r.event_count ≡ links_of r.id (record { incident_id = n.id; event_id = event_id } ∷ ls))
        rows
counted-new n event_id [] ls fresh h = tt
counted-new n event_id (r ∷ rows) ls fresh (e, h) = (
  let apart : str_eq n.id r.id ≡ false = ground (arith, eq_iff n.id r.id, eq_iff r.id n.id) in
      ground arith,
  counted-new n event_id rows ls (ground arith) h,
)

placed-new :
    (n : IncidentRow) (rows : List IncidentRow) (ls : List Link)
    → All (λ l. any (has_incident_id l.incident_id) rows ≡ true) ls
    → All (λ l. any (has_incident_id l.incident_id) (n ∷ rows) ≡ true) ls
placed-new n rows ls h = All-map _ _ ls (λ l p. ground arith) h

-- A step keeps the ledger balanced.
pub Step-Balanced : {s u : Ledger} → Step s u → Balanced s → Balanced u
Step-Balanced {s} (gains r event_id v e _ fits same) b = subst Balanced (sym same) (record {
  indexed = Indexed-changed r.id v s.incidents s.incidents b.indexed;
  counted = counted-changed r event_id v s.incidents s.incidents s.links e fits b.indexed b.counted;
  placed =
      placed-changed r.id v s.incidents _
        (placed-link r.id event_id s.incidents s.links (get-any r.id s.incidents e) b.placed);
  once = Once-link r.id event_id s.links b.once;
})
Step-Balanced {s} (begins n event_id fresh unlinked count _ same) b =
    subst Balanced (sym same) (record {
      indexed =
          (ground (arith, eq_refl n.id), Indexed-new n s.incidents s.incidents fresh b.indexed);
      counted = (
        ground (arith, eq_refl n.id, links_of_unknown n.id s.incidents s.links fresh b.placed),
        counted-new n event_id s.incidents s.links fresh b.counted,
      );
      placed = (ground (arith, eq_refl n.id), placed-new n s.incidents s.links b.placed);
      once = (unlinked, b.once);
    })
