-- ===== src/Agent/Incidents/Interface.antt =====
-- What the incident engine keeps of the rest of the database, which it reaches through `Env` only.
use pi_ops.Agent.Fingerprint.{is_mapped, recovery_type}
use pi_ops.Base.{
  ℕ, zero, suc, String, Bool, true, false, not, ◌&&◌, Option, none, some, List, [], ◌∷◌, map,
  length, if_cases,
}
use pi_ops.Protocol.{OpsEvent}
use Prim.Native.String.{◌++◌ as text_append}
use pi_ops.Agent.Events.{mark_event_processed}
use pi_ops.Agent.Jobs.{EvidenceJob, insert_evidence_job}
use pi_ops.Agent.Incidents.{
  IncidentRow, Link, Tables, update_incident, remove_pending_recovery, get_incident,
  list_pending_recoveries, link_event_to_incident, insert_incident, find_incident_by_event_id,
  add_pending_recovery,
}
use pi_ops.Agent.Incidents.Engine.{
  Env, IncidentConfig, IncidentResult, Reasoner, evaluate_notification, maybe_persist_jfr,
  recover_incident, recovery_update, is_incident, apply_found, apply_recovery, match_of,
  apply_matches, reconcile_round, reconcile_from, reconcile_fingerprint, fingerprint_of, ignored,
}
use pi_ops.Agent.Incidents.Arrivals.{
  maybe_collect_evidence, add_event, process_known, process_recovery, schedule_reasoning,
  with_evidence_job, with_incident, create_incident_from_event, finish_new, process_new,
  process_existing, process_unless, process_event, existing_for, new_incident,
}
use pi_ops.Agent.Incidents.Moves.{OptionAll}
use pi_ops.Agent.Incidents.Laws.{Arrival, or_before, process_arrival, process_each}

-- The property is kept by every operation of the interface.
pub record Keeps {ℓ κ} {N : Type ℓ} (env : Env N) (P : N → Type κ) : Type (ℓ ⊔ κ) where
  pub evaluates : (id now : String) (t : Tables N) → P t.notifications → P (env.evaluate id now t)
  pub decides : (id now : String) (n : N) → P n → P (env.record_decision id now n)
  pub persists :
      (r : IncidentRow) (event : OpsEvent) (t : Tables N)
      → P t.notifications
      → P (env.persist_jfr r event t)

module _ {ℓ κ} {N : Type ℓ} (env : Env N) (P : N → Type κ) (keeps : Keeps env P) where
  abbrev At : Tables N → Type κ
  At t = P t.notifications

  recover_incident-At :
      (r : IncidentRow) (recovery : OpsEvent) (now : String) (l : List Link × Bool) (t : Tables N)
      → At t
      → At (recover_incident env r recovery now l t).0
  unfolding recover_incident evaluate_notification
  recover_incident-At r recovery now (links, linked) t h =
      let u : Tables N = record t {
        links = links;
        incidents = update_incident r.id (recovery_update env r recovery linked) t.incidents;
        pending_recoveries = remove_pending_recovery recovery.id t.pending_recoveries;
        marks = (mark_event_processed recovery.id recovery.time t.marks).0;
      } in
      if_cases {A = Tables N × Bool} (λ p. At p.0)
        (not linked
          && not (is_incident env r.id (find_incident_by_event_id recovery.id t.incidents t.links)))
        {x = (t, false)} {y = (evaluate_notification env r.id now u, true)} (λ _. h)
        (λ _. keeps.evaluates r.id now u h)

  apply_recovery-At :
      (id : String) (recovery : OpsEvent) (now : String) (t : Tables N)
      → At t
      → At (apply_recovery env id recovery now t).0
  unfolding apply_recovery
  apply_recovery-At id recovery now t h = found (get_incident id t.incidents)
    where
      found : (o : Option IncidentRow) → At (apply_found env o recovery now t).0
      found none = h
      found (some r) = recover_incident-At r recovery now _ t h

  apply_matches-At :
      (matches : List (OpsEvent × Option IncidentRow)) (now : String) (t : Tables N)
      → At t
      → At (apply_matches env matches now t).0
  unfolding apply_matches
  apply_matches-At [] now t h = h
  apply_matches-At ((recovery, none) ∷ rest) now t h = apply_matches-At rest now t h
  apply_matches-At ((recovery, some r) ∷ rest) now t h =
      apply_matches-At rest now (apply_recovery env r.id recovery now t).0
        (apply_recovery-At r.id recovery now t h)

  reconcile_round-At :
      (fingerprint now : String) (t : Tables N)
      → At t
      → At (reconcile_round env fingerprint now t).0
  unfolding reconcile_round
  reconcile_round-At fingerprint now t h =
      apply_matches-At
        (map (λ recovery. (recovery, match_of env fingerprint t recovery))
          (list_pending_recoveries env.time_of fingerprint t.pending_recoveries))
        now t h

  reconcile_from-At :
      (fuel : ℕ) (fingerprint now : String) (t : Tables N)
      → At t
      → At (reconcile_from env fuel fingerprint now t)
  unfolding reconcile_from
  reconcile_from-At zero fingerprint now t h = h
  reconcile_from-At (suc fuel) fingerprint now t h =
      let round = reconcile_round env fingerprint now t in
      let kept = reconcile_round-At fingerprint now t h in
      if_cases {A = Tables N} At round.1 (λ _. reconcile_from-At fuel fingerprint now round.0 kept)
        (λ _. kept)

  reconcile-At :
      (fingerprint now : String) (t : Tables N)
      → At t
      → At (reconcile_fingerprint env fingerprint now t)
  unfolding reconcile_fingerprint
  reconcile-At fingerprint now t h =
      reconcile_from-At (suc (length t.pending_recoveries)) fingerprint now t h

  module _ (config : IncidentConfig) where
    abbrev Done : Tables N × IncidentResult → Type κ
    Done p = At p.0

    collect-At :
        (r : IncidentRow) (event : OpsEvent) (now : String) (t : Tables N)
        → At t
        → At (maybe_collect_evidence env config r.id event r.severity now t)
    unfolding maybe_collect_evidence
    collect-At r event now t h = if_cases {A = Tables N} At _ (λ _. h) (λ _. h)

    process_known-At :
        (r : IncidentRow) (event : OpsEvent) (timestamp fingerprint now : String) (t : Tables N)
        → At t
        → Done (process_known env config r event timestamp fingerprint now t)
    unfolding process_known add_event maybe_persist_jfr evaluate_notification
    process_known-At r event timestamp fingerprint now t h =
        let added =
          add_event env config r event timestamp (link_event_to_incident r.id event.id t.links) t in
        let collected = maybe_collect_evidence env config r.id event r.severity now added in
        keeps.evaluates r.id now _ (
          reconcile-At fingerprint now _
            (keeps.persists r event collected (collect-At r event now added h)))

    with_evidence_job-At :
        (r : IncidentRow) (now : String) (t : Tables N)
        (jobs : Option (List (EvidenceJob OpsEvent)))
        → At t
        → OptionAll At (with_evidence_job env config r.id now t jobs)
    unfolding evaluate_notification
    with_evidence_job-At r now t none h = tt
    with_evidence_job-At r now t (some jobs) h = keeps.evaluates r.id now _ (
        keeps.decides r.id now _ (scheduled config.reasoning (record t { evidence_jobs = jobs }) h))
      where
        scheduled :
            (reasoner : Option Reasoner) (u : Tables N)
            → At u
            → At (schedule_reasoning env config reasoner r.id now u)
        scheduled none u k = k
        scheduled (some _) u k = k

    create-At :
        (r : IncidentRow) (event : OpsEvent) (now : String) (t : Tables N)
        → At t
        → OptionAll At (create_incident_from_event env config r event now t)
    unfolding create_incident_from_event
    create-At r event now t h = inserted (insert_incident r t.incidents)
      where
        inserted :
            (o : Option (List IncidentRow))
            → OptionAll At (with_incident env config r event now t o)
        inserted none = tt
        inserted (some incidents) =
            let (links, linked) = link_event_to_incident r.id event.id t.links in
            let u : Tables N = record t { incidents = incidents; links = links } in
            let jobs =
              insert_evidence_job (text_append "job-" r.id) r.id event now t.evidence_jobs in
            if_cases {A = Option (Tables N)} (OptionAll At) linked
              {x = with_evidence_job env config r.id now u jobs} {y = none}
              (λ _. with_evidence_job-At r now u jobs h) (λ _. tt)

    finish_new-At :
        (r : IncidentRow) (event : OpsEvent) (now : String) (o : Option (Tables N))
        → OptionAll At o
        → OptionAll Done (finish_new env config r event now o)
    unfolding maybe_persist_jfr evaluate_notification
    finish_new-At r event now none h = tt
    finish_new-At r event now (some t) h =
        keeps.evaluates r.id now _ (keeps.persists r event _ (reconcile-At r.fingerprint now t h))

    process_existing-At :
        (id : String) (event : OpsEvent) (timestamp fingerprint now : String) (t : Tables N)
        (o : Option IncidentRow)
        → At t
        → OptionAll Done (process_existing env config id event timestamp fingerprint now t o)
    unfolding process_recovery process_new
    process_existing-At id event timestamp fingerprint now t (some r) h =
        if_cases {A = Option (Tables N × IncidentResult)} (OptionAll Done)
          (is_mapped (recovery_type event.type))
          {x = some (process_recovery env config r event fingerprint now t)}
          {y = some (process_known env config r event timestamp fingerprint now t)}
          (λ _.
            apply_recovery-At r.id event now (reconcile_fingerprint env fingerprint now t)
              (reconcile-At fingerprint now t h))
          (λ _. process_known-At r event timestamp fingerprint now t h)
    process_existing-At id event timestamp fingerprint now t none h =
        let u : Tables N = record t {
          pending_recoveries = add_pending_recovery event fingerprint t.pending_recoveries;
        } in
        let r = new_incident env config id event timestamp fingerprint in
        if_cases {A = Option (Tables N × IncidentResult)} (OptionAll Done)
          (is_mapped (recovery_type event.type)) {x = some (u, ignored)}
          {y = process_new env config id event timestamp fingerprint now t} (λ _. h)
          (λ _.
            finish_new-At r event now (create_incident_from_event env config r event now t)
              (create-At r event now t h))

    process_unless-At :
        (id : String) (event : OpsEvent) (timestamp now : String) (t : Tables N)
        (o : Option IncidentRow)
        → At t
        → OptionAll Done (process_unless env config id event timestamp now t o)
    unfolding maybe_persist_jfr
    process_unless-At id event timestamp now t (some r) h = keeps.persists r event t h
    process_unless-At id event timestamp now t none h =
        process_existing-At id event timestamp (fingerprint_of env event) now t
          (existing_for env config event timestamp (fingerprint_of env event) t) h

    or_before-At :
        (t : Tables N) (o : Option (Tables N × IncidentResult))
        → At t
        → OptionAll Done o
        → At (or_before env config t o)
    or_before-At t none h k = h
    or_before-At t (some p) h k = k

    -- What every operation of the interface keeps, the engine keeps over any events.
    pub process_each-At :
        (arrivals : List Arrival) (t : Tables N) → At t → At (process_each env config arrivals t)
    unfolding process_each process_arrival process_event
    process_each-At [] t h = h
    process_each-At (a ∷ rest) t h = process_each-At rest (process_arrival env config a t) (
        or_before-At t (process_event env config a.new_id a.event a.timestamp a.now t) h (
          process_unless-At a.new_id a.event a.timestamp a.now t
            (find_incident_by_event_id a.event.id t.incidents t.links) h))
