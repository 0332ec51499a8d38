-- ===== src/Agent/Incidents/Again.antt =====
-- An event that was handled is linked, and is not handled twice.
use pi_ops.Base.{
  ℕ, String, eq_refl, Bool, true, false, any, find, Option, none, some, List, ◌∷◌, All, All-Memᴰ,
  ◌≡◌, refl, sym, ap, subst, if_cases, arith,
}
use Prim.Native.String.{◌++◌ as text_append}
use pi_ops.Agent.Incidents.History.{Reach-Balanced}
use pi_ops.Base.Search.{find-Memᴰ, any-Memᴰ, Memᴰ-find, Memᴰ-any}
use pi_ops.Protocol.{OpsEvent}
use pi_ops.Agent.Jobs.{EvidenceJob, insert_evidence_job}
use pi_ops.Agent.Fingerprint.{is_mapped, recovery_type}
use pi_ops.Agent.Incidents.{
  IncidentRow, Link, Tables, has_incident_id, get_incident, insert_incident, incident_of, has_event,
  link_event_to_incident, find_incident_by_event_id,
}
use pi_ops.Agent.Incidents.Engine.{
  fingerprint_of, Env, IncidentConfig, IncidentResult, ignored, handled, recover_incident,
  apply_found, apply_recovery, reconcile_fingerprint, maybe_persist_jfr, evaluate_notification,
}
use pi_ops.Agent.Incidents.Arrivals.{
  add_event, process_known, process_recovery, new_incident, with_evidence_job, with_link,
  with_incident, create_incident_from_event, finish_new, process_new, existing_for,
  process_existing, process_unless, process_event, schedule_reasoning,
}
use pi_ops.Agent.Incidents.Ledger.{Ledger, Step, gains, begins, Reach, here, next, Balanced}
use pi_ops.Agent.Incidents.Moves.{
  OptionAll, OptionAll-map, ledger_of, IsOpen, IsOpen-Reach, Takes-IsOpen,
  reconcile_fingerprint-Reach, Takes,
}
use pi_ops.Agent.Incidents.Process.{
  existing_for-Takes, process_event-Reach, process_known_rest-Reach, create-Reach, added_to-ledger,
}

abbrev pub IsLinked : String → List Link → Type 0
IsLinked event_id links = any (has_event event_id) links ≡ true

link-IsLinked :
    (incident_id event_id : String) (links : List Link)
    → IsLinked event_id (link_event_to_incident incident_id event_id links).0
unfolding link_event_to_incident
link-IsLinked incident_id event_id links = ground (arith, eq_refl event_id)

link_keeps :
    (incident_id other event_id : String) (links : List Link)
    → IsLinked event_id links
    → IsLinked event_id (link_event_to_incident incident_id other links).0
unfolding link_event_to_incident
link_keeps incident_id other event_id links h = ground arith

Step-IsLinked :
    {s u : Ledger} (event_id : String)
    → Step s u
    → IsLinked event_id s.links
    → IsLinked event_id u.links
Step-IsLinked {s} event_id (gains r other v _ _ _ same) h =
    subst (λ (l : Ledger). IsLinked event_id l.links) (sym same)
      (link_keeps r.id other event_id s.links h)
Step-IsLinked {s} event_id (begins r other _ _ _ _ same) h =
    subst (λ (l : Ledger). IsLinked event_id l.links) (sym same) (ground arith)

Reach-IsLinked :
    {s u : Ledger} (event_id : String)
    → Reach s u
    → IsLinked event_id s.links
    → IsLinked event_id u.links
Reach-IsLinked event_id here h = h
Reach-IsLinked event_id (next reach step) h =
    Step-IsLinked event_id step (Reach-IsLinked event_id reach h)

-- A link leads to an incident of a balanced ledger.
incident_of_link :
    (event_id : String) (rows : List IncidentRow) (links : List Link)
    → All (λ l. any (has_incident_id l.incident_id) rows ≡ true) links
    → IsLinked event_id links
    → (r : IncidentRow) × (find_incident_by_event_id event_id rows links ≡ some r)
unfolding find_incident_by_event_id
incident_of_link event_id rows links placed h = by_link (find (has_event event_id) links) refl
  where
    by_incident :
        (id : String) (o : Option IncidentRow)
        → get_incident id rows ≡ o
        → any (has_incident_id id) rows ≡ true
        → (r : IncidentRow) × (o ≡ some r)
    by_incident id (some r) e a = (r, refl)
    by_incident id none e a =
        let (x, m, hit) = any-Memᴰ (has_incident_id id) rows a in
        absurd (Memᴰ-find (has_incident_id id) m hit e)

    by_link :
        (o : Option Link)
        → find (has_event event_id) links ≡ o
        → (r : IncidentRow) × (incident_of rows o ≡ some r)
    by_link none e =
        let (x, m, hit) = any-Memᴰ (has_event event_id) links h in
        absurd (Memᴰ-find (has_event event_id) m hit e)
    by_link (some l) e =
        by_incident l.incident_id (get_incident l.incident_id rows) refl
          (All-Memᴰ _ links placed (find-Memᴰ (has_event event_id) links e).0)

found-IsLinked :
    (event_id : String) (rows : List IncidentRow) (links : List Link) (o : Option Link)
    → find (has_event event_id) links ≡ o
    → (r : IncidentRow) → incident_of rows o ≡ some r
    → IsLinked event_id links
found-IsLinked event_id rows links none e r f = cc
found-IsLinked event_id rows links (some l) e r f =
    let (m, hit) = find-Memᴰ (has_event event_id) links e in Memᴰ-any (has_event event_id) m hit

abbrev pub IsHandled : IncidentResult → Type 0
IsHandled ignored = ⊥
IsHandled (handled _ _ _ _) = Unit

module _ {ℓ} {N : Type ℓ} (env : Env N) where
  recover-IsLinked :
      (r : IncidentRow) (recovery : OpsEvent) (now : String) (t : Tables N)
      → IsLinked recovery.id
          (recover_incident env r recovery now
            (link_event_to_incident r.id recovery.id t.links)
            t).0.links
  unfolding recover_incident evaluate_notification link_event_to_incident
  recover-IsLinked r recovery now t = ground (arith, eq_refl recovery.id)

  apply-IsLinked :
      (id : String) (recovery : OpsEvent) (now : String) (t : Tables N)
      → IsOpen id t.incidents
      → IsLinked recovery.id (apply_recovery env id recovery now t).0.links
  unfolding apply_recovery
  apply-IsLinked id recovery now t (r, e, _) =
      subst (λ o. IsLinked recovery.id (apply_found env o recovery now t).0.links) (sym e)
        (recover-IsLinked r recovery now t)

  module _ (config : IncidentConfig) where
    known-IsLinked :
        (r : IncidentRow) (event : OpsEvent) (timestamp fingerprint now : String) (t : Tables N)
        → Balanced (ledger_of t)
        → Takes t.incidents r
        → IsLinked event.id (process_known env config r event timestamp fingerprint now t).0.links
    unfolding add_event
    known-IsLinked r event timestamp fingerprint now t b takes =
        Reach-IsLinked event.id
          (process_known_rest-Reach env config r event timestamp fingerprint now t b takes)
          (subst (λ (l : Ledger). IsLinked event.id l.links)
            (sym (added_to-ledger env config r event timestamp now t))
            (link-IsLinked r.id event.id t.links))

    recovery-IsLinked :
        (r : IncidentRow) (event : OpsEvent) (fingerprint now : String) (t : Tables N)
        → Balanced (ledger_of t)
        → Takes t.incidents r
        → IsLinked event.id (process_recovery env config r event fingerprint now t).0.links
    unfolding process_recovery
    recovery-IsLinked r event fingerprint now t b takes =
        let (e, h) = Takes-IsOpen r b takes in
        apply-IsLinked r.id event now (reconcile_fingerprint env fingerprint now t)
          (IsOpen-Reach r.id (reconcile_fingerprint-Reach env fingerprint now t b) (r, e, h))

    scheduled-links :
        (event_id id now : String) (t : Tables N)
        → IsLinked event_id t.links
        → IsLinked event_id (schedule_reasoning env config config.reasoning id now t).links
    scheduled-links event_id id now t h =
        elim config.reasoning
          as (λ o. IsLinked event_id (schedule_reasoning env config o id now t).links) [
            | none ↦ h
            | some r ↦ h
          ]

    with_evidence_job-IsLinked :
        (event_id id now : String) (t : Tables N) (jobs : Option (List (EvidenceJob OpsEvent)))
        → IsLinked event_id t.links
        → OptionAll (λ u. IsLinked event_id u.links) (with_evidence_job env config id now t jobs)
    unfolding evaluate_notification
    with_evidence_job-IsLinked event_id id now t none h = tt
    with_evidence_job-IsLinked event_id id now t (some jobs) h =
        scheduled-links event_id id now (record t { evidence_jobs = jobs }) h

    create-IsLinked :
        (r : IncidentRow) (event : OpsEvent) (now : String) (t : Tables N)
        → OptionAll
            (λ u. IsLinked event.id u.links)
            (create_incident_from_event env config r event now t)
    unfolding create_incident_from_event insert_incident link_event_to_incident
    create-IsLinked r event now t =
        if_cases
          (λ o.
            OptionAll (λ (u : Tables N). IsLinked event.id u.links)
              (with_incident env config r event now t o))
          (any (has_incident_id r.id) t.incidents) (λ _. tt)
          (λ _.
            if_cases
              (λ (p : List Link × Bool).
                OptionAll (λ (u : Tables N). IsLinked event.id u.links)
                  (with_link env config r event now (record t { incidents = r ∷ t.incidents }) p))
              (any (has_event event.id) t.links) (λ _. tt)
              (λ _.
                with_evidence_job-IsLinked event.id r.id now
                  (record t {
                    incidents = r ∷ t.incidents;
                    links = record { incident_id = r.id; event_id = event.id } ∷ t.links;
                  })
                  (insert_evidence_job (text_append "job-" r.id) r.id event now t.evidence_jobs)
                  (ground (arith, eq_refl event.id))))

    finish_new-IsLinked :
        (event_id : String) (r : IncidentRow) (event : OpsEvent) (now : String) (s : Ledger)
        (o : Option (Tables N))
        → Balanced s
        → OptionAll (λ u. Reach s (ledger_of u)) o
        → OptionAll (λ u. IsLinked event_id u.links) o
        → OptionAll (λ p. IsLinked event_id p.0.links) (finish_new env config r event now o)
    unfolding maybe_persist_jfr evaluate_notification
    finish_new-IsLinked event_id r event now s none b reach h = tt
    finish_new-IsLinked event_id r event now s (some t) b reach h =
        Reach-IsLinked event_id
          (reconcile_fingerprint-Reach env r.fingerprint now t (Reach-Balanced b reach)) h

    module _ (id : String) (event : OpsEvent) (timestamp now : String) (t : Tables N) where
      abbrev IsRecorded : Option (Tables N × IncidentResult) → Type 0
      IsRecorded o = OptionAll (λ p. IsHandled p.1 → IsLinked event.id p.0.links) o

      existing-IsRecorded :
          (fingerprint : String) (o : Option IncidentRow)
          → Balanced (ledger_of t)
          → OptionAll (Takes t.incidents) o
          → IsRecorded (process_existing env config id event timestamp fingerprint now t o)
      unfolding process_new
      existing-IsRecorded fingerprint (some r) b takes =
          if_cases IsRecorded (is_mapped (recovery_type event.type))
            (λ _ _. recovery-IsLinked r event fingerprint now t b takes)
            (λ _ _. known-IsLinked r event timestamp fingerprint now t b takes)
      existing-IsRecorded fingerprint none b takes =
          let r = new_incident env config id event timestamp fingerprint in
          if_cases IsRecorded (is_mapped (recovery_type event.type)) (λ _ h. absurd h)
            (λ _.
              OptionAll-map _ _
                (finish_new env config r event now
                  (create_incident_from_event env config r event now t))
                (λ p h _. h)
                (finish_new-IsLinked event.id r event now (ledger_of t)
                  (create_incident_from_event env config r event now t) b
                  (create-Reach env config r event now t refl refl)
                  (create-IsLinked r event now t)))

      unless-IsRecorded :
          (o : Option IncidentRow)
          → Balanced (ledger_of t)
          → find_incident_by_event_id event.id t.incidents t.links ≡ o
          → IsRecorded (process_unless env config id event timestamp now t o)
      unfolding maybe_persist_jfr find_incident_by_event_id
      unless-IsRecorded (some r) b e = λ _.
          found-IsLinked event.id t.incidents t.links (find (has_event event.id) t.links) refl r e
      unless-IsRecorded none b e =
          existing-IsRecorded (fingerprint_of env event)
            (existing_for env config event timestamp (fingerprint_of env event) t) b
            (existing_for-Takes env config event timestamp (fingerprint_of env event) t)

      process_event-IsRecorded :
          Balanced (ledger_of t) → IsRecorded (process_event env config id event timestamp now t)
      unfolding process_event
      process_event-IsRecorded b =
          unless-IsRecorded (find_incident_by_event_id event.id t.incidents t.links) b refl

      -- An event that was handled, and is sent again at any time, belongs to an incident: it makes no new one,
      -- it is not counted again, and nothing changes but its evidence and what is decided from it.
      pub process_event-again :
          (later_id later_timestamp later : String) (u : Tables N) (incident_id : String)
          (is_new is_recovery : Bool) (n : ℕ)
          → Balanced (ledger_of t)
          → process_event env config id event timestamp now t
            ≡ some (u, handled incident_id is_new is_recovery n)
          → (r : IncidentRow) × (process_event env config later_id event later_timestamp later u
              ≡ some (maybe_persist_jfr env r event u, handled r.id false false r.event_count))
      unfolding process_event
      process_event-again later_id later_timestamp later u incident_id is_new is_recovery n b e =
          let linked = subst IsRecorded e (process_event-IsRecorded b) tt in
          let balanced = Reach-Balanced b (
            subst
              (OptionAll (λ (p : Tables N × IncidentResult). Reach (ledger_of t) (ledger_of p.0))) e
              (process_event-Reach env config id event timestamp now t b)) in
          let (r, found) = incident_of_link event.id u.incidents u.links balanced.placed linked in
          (r, ap (process_unless env config later_id event later_timestamp later u) found)
