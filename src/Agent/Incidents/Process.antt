-- ===== src/Agent/Incidents/Process.antt =====
-- The incident engine, by steps of the ledger, and what it keeps.
use pi_ops.Base.{
  ℕ, ◌≤◌, String, str_eq, Bool, true, false, leb, any, Option, none, some, List, [], ◌∷◌, ◌++◌,
  filter, All, Memᴰ-All, ◌≡◌, refl, sym, subst, if_cases, if◌then◌else◌, arith,
}
use mathlib.Core.List.{Memᴰ}
use Prim.Native.String.{◌++◌ as text_append}
use pi_ops.Base.Search.{filter-Memᴰ}
use pi_ops.Base.Order.{sort_by, sort_by-All}
use pi_ops.Protocol.{OpsEvent, OpsEventSeverity}
use pi_ops.Agent.Jobs.{EvidenceJob, insert_evidence_job}
use pi_ops.Agent.Fingerprint.{is_mapped, recovery_type}
use pi_ops.Agent.Incidents.{
  IncidentState, is_closed, is_recovered, recovered, IncidentRow, Link, Tables, has_incident_id,
  insert_incident, first, find_incident_for_event, may_take, nearer, refingerprinted, is_unclaimed,
  has_event, link_event_to_incident,
}
use pi_ops.Agent.Incidents.Engine.{
  fingerprint_of, Env, IncidentConfig, IncidentResult, max_severity, severity_rank,
  reconcile_fingerprint, maybe_persist_jfr, evaluate_notification,
}
use pi_ops.Agent.Incidents.Arrivals.{
  event_update, add_event, maybe_collect_evidence, process_known, process_recovery, new_incident,
  with_evidence_job, with_link, with_incident, create_incident_from_event, finish_new, process_new,
  existing_for, process_existing, process_unless, process_event, schedule_reasoning,
}
use pi_ops.Agent.Incidents.Ledger.{
  Ledger, Fits, gains, begins, Reach, here, next, Reach-trans, Balanced,
}
use pi_ops.Agent.Incidents.History.{Reach-Balanced}
use pi_ops.Agent.Incidents.Moves.{
  OptionAll, or_else-OptionAll, ledger_of, IsOpen-Reach, Takes, Takes-IsOpen, find_recovery-Takes,
  apply_recovery-Reach, reconcile_fingerprint-Reach,
}

first-All {ℓ κ} : {A : Type ℓ} (P : A → Type κ) (xs : List A) → All P xs → OptionAll P (first xs)
first-All P [] h = tt
first-All P (x ∷ xs) h = h.0

append-Memᴰ {ℓ} :
    {A : Type ℓ} (xs ys zs : List A) {x : A}
    → ((y : A) → Memᴰ y xs → Memᴰ y zs)
    → ((y : A) → Memᴰ y ys → Memᴰ y zs)
    → Memᴰ x (xs ++ ys)
    → Memᴰ x zs
append-Memᴰ [] ys zs {x} f g m = g x m
append-Memᴰ (x ∷ xs) ys zs f g (Memᴰ.head e) = f _ (Memᴰ.head e)
append-Memᴰ (x ∷ xs) ys zs f g (Memᴰ.tail m) = append-Memᴰ xs ys zs (λ y n. f y (Memᴰ.tail n)) g m

-- The incident found for an event is in the table, and not closed.
find_for_event-Takes :
    (time_of : String → ℕ) (fingerprint_of : OpsEvent → String)
    (stored_event : String → Option OpsEvent) (is_bound : String → Bool)
    (fingerprint timestamp : String) (window : ℕ) (rows : List IncidentRow) (links : List Link)
    → OptionAll (Takes rows) (
        find_incident_for_event time_of fingerprint_of stored_event is_bound fingerprint timestamp
          window rows links)
unfolding find_incident_for_event may_take refingerprinted
find_for_event-Takes time_of fingerprint_of stored_event is_bound fingerprint timestamp window rows
      links =
    let known = filter (λ (r : IncidentRow). str_eq r.fingerprint fingerprint) rows in
    let again =
      refingerprinted time_of fingerprint_of stored_event is_bound fingerprint rows links in
    let found = if is_unclaimed time_of timestamp known then known ++ again else known in
    let known-in = λ (y : IncidentRow) (m : Memᴰ y known).
      (filter-Memᴰ (λ (r : IncidentRow). str_eq r.fingerprint fingerprint) rows m).0 in
    let found-in : (y : IncidentRow) → Memᴰ y found → Memᴰ y rows = λ y m.
      if_cases (λ xs. Memᴰ y xs → Memᴰ y rows) (is_unclaimed time_of timestamp known)
        (λ _. append-Memᴰ known again rows known-in (λ z n. (filter-Memᴰ _ rows n).0))
        (λ _. known-in y) m in
    let open_ =
      filter (λ (r : IncidentRow). may_take time_of (is_bound r.id) timestamp window r) found in
    first-All (Takes rows) (sort_by (nearer time_of timestamp) open_) (
      sort_by-All (nearer time_of timestamp) (Takes rows) open_ (
        Memᴰ-All (Takes rows) open_ (λ y m.
          let (n, h) =
            filter-Memᴰ (λ (r : IncidentRow). may_take time_of (is_bound r.id) timestamp window r)
              found m in
          (found-in y n, ground arith))))

recovered-eq : (s : IncidentState) → is_recovered s ≡ true → s ≡ recovered
recovered-eq IncidentState.recovered h = refl
recovered-eq IncidentState.opened h = cc
recovered-eq IncidentState.investigating h = cc
recovered-eq IncidentState.notified h = cc
recovered-eq IncidentState.closed h = cc

max_severity-le : (a b : OpsEventSeverity) → severity_rank a ≤ severity_rank (max_severity a b)
max_severity-le a b =
    if_cases (λ s. severity_rank a ≤ severity_rank s) (leb (severity_rank b) (severity_rank a))
      (λ _. omega arith) (λ h. ground arith)

module _ {ℓ} {N : Type ℓ} (env : Env N) (config : IncidentConfig) where
  event-Fits :
      (r : IncidentRow) (event : OpsEvent) (timestamp : String) (linked : Bool)
      → is_closed r.state ≡ false
      → Fits r (event_update env config r event timestamp linked) linked
  event-Fits r event timestamp linked h = record {
    counts = refl;
    stays_recovered = recovered-eq r.state;
    not_closed = h;
    no_milder = max_severity-le r.severity event.severity;
  }

  pub collect-ledger :
      (id : String) (event : OpsEvent) (previous : OpsEventSeverity) (now : String) (t : Tables N)
      → ledger_of (maybe_collect_evidence env config id event previous now t) ≡ ledger_of t
  unfolding maybe_collect_evidence
  collect-ledger id event previous now t =
      if_cases {A = Tables N} (λ u. ledger_of u ≡ ledger_of t) _ (λ _. refl) (λ _. refl)

  -- The tables when the event is added, and before recoveries are reconciled.
  abbrev pub added_to : IncidentRow → OpsEvent → (timestamp now : String) → Tables N → Tables N
  added_to r event timestamp now t = maybe_persist_jfr env r event (
      maybe_collect_evidence env config r.id event r.severity now
        (add_event env config r event timestamp (link_event_to_incident r.id event.id t.links) t))

  pub added_to-ledger :
      (r : IncidentRow) (event : OpsEvent) (timestamp now : String) (t : Tables N)
      → ledger_of (added_to r event timestamp now t)
        ≡ ledger_of (
            add_event env config r event timestamp (link_event_to_incident r.id event.id t.links) t)
  unfolding maybe_persist_jfr
  added_to-ledger r event timestamp now t = collect-ledger r.id event r.severity now _

  pub added_to-Reach :
      (r : IncidentRow) (event : OpsEvent) (timestamp now : String) (t : Tables N)
      → Balanced (ledger_of t)
      → Takes t.incidents r
      → Reach (ledger_of t) (ledger_of (added_to r event timestamp now t))
  unfolding add_event
  added_to-Reach r event timestamp now t b takes =
      let (e, h) = Takes-IsOpen r b takes in
      subst (Reach (ledger_of t)) (sym (added_to-ledger r event timestamp now t)) (
        next here (
          gains r event.id
            (event_update env config r event timestamp
              (link_event_to_incident r.id event.id t.links).1)
            e h (event-Fits r event timestamp _ h) refl))

  pub process_known_rest-Reach :
      (r : IncidentRow) (event : OpsEvent) (timestamp fingerprint now : String) (t : Tables N)
      → Balanced (ledger_of t)
      → Takes t.incidents r
      → Reach
          (ledger_of (added_to r event timestamp now t))
          (ledger_of (process_known env config r event timestamp fingerprint now t).0)
  unfolding process_known evaluate_notification
  process_known_rest-Reach r event timestamp fingerprint now t b takes =
      reconcile_fingerprint-Reach env fingerprint now (added_to r event timestamp now t)
        (Reach-Balanced b (added_to-Reach r event timestamp now t b takes))

  process_known-Reach :
      (r : IncidentRow) (event : OpsEvent) (timestamp fingerprint now : String) (t : Tables N)
      → Balanced (ledger_of t)
      → Takes t.incidents r
      → Reach
          (ledger_of t)
          (ledger_of (process_known env config r event timestamp fingerprint now t).0)
  process_known-Reach r event timestamp fingerprint now t b takes =
      Reach-trans (added_to-Reach r event timestamp now t b takes)
        (process_known_rest-Reach r event timestamp fingerprint now t b takes)

  process_recovery-Reach :
      (r : IncidentRow) (event : OpsEvent) (fingerprint now : String) (t : Tables N)
      → Balanced (ledger_of t)
      → Takes t.incidents r
      → Reach (ledger_of t) (ledger_of (process_recovery env config r event fingerprint now t).0)
  unfolding process_recovery
  process_recovery-Reach r event fingerprint now t b takes =
      let one = reconcile_fingerprint-Reach env fingerprint now t b in
      let (e, h) = Takes-IsOpen r b takes in
      Reach-trans one (
        apply_recovery-Reach env r.id event now (reconcile_fingerprint env fingerprint now t)
          (IsOpen-Reach r.id one (r, e, h)))

  scheduled-ledger :
      (id now : String) (t : Tables N)
      → ledger_of (schedule_reasoning env config config.reasoning id now t) ≡ ledger_of t
  scheduled-ledger id now t =
      elim config.reasoning
        as (λ o. ledger_of (schedule_reasoning env config o id now t) ≡ ledger_of t) [
          | none ↦ refl
          | some r ↦ refl
        ]

  pub with_evidence_job-Reach :
      (s : Ledger) (id now : String) (t : Tables N) (jobs : Option (List (EvidenceJob OpsEvent)))
      → Reach s (ledger_of t)
      → OptionAll (λ u. Reach s (ledger_of u)) (with_evidence_job env config id now t jobs)
  unfolding evaluate_notification
  with_evidence_job-Reach s id now t none h = tt
  with_evidence_job-Reach s id now t (some jobs) h =
      subst (Reach s) (sym (scheduled-ledger id now (record t { evidence_jobs = jobs }))) h

  pub create-Reach :
      (r : IncidentRow) (event : OpsEvent) (now : String) (t : Tables N)
      → r.event_count ≡ 1
      → is_closed r.state ≡ false
      → OptionAll
          (λ u. Reach (ledger_of t) (ledger_of u))
          (create_incident_from_event env config r event now t)
  unfolding create_incident_from_event insert_incident link_event_to_incident
  create-Reach r event now t count h =
      if_cases
        (λ o.
          OptionAll (λ u. Reach (ledger_of t) (ledger_of u))
            (with_incident env config r event now t o))
        (any (has_incident_id r.id) t.incidents) (λ _. tt)
        (λ fresh.
          if_cases
            (λ (p : List Link × Bool).
              OptionAll (λ u. Reach (ledger_of t) (ledger_of u))
                (with_link env config r event now (record t { incidents = r ∷ t.incidents }) p))
            (any (has_event event.id) t.links) (λ _. tt)
            (λ unlinked.
              with_evidence_job-Reach (ledger_of t) r.id now
                (record t {
                  incidents = r ∷ t.incidents;
                  links = record { incident_id = r.id; event_id = event.id } ∷ t.links;
                })
                (insert_evidence_job (text_append "job-" r.id) r.id event now t.evidence_jobs)
                (next here (begins r event.id fresh unlinked count h refl))))

  finish_new-Reach :
      (s : Ledger) (r : IncidentRow) (event : OpsEvent) (now : String) (o : Option (Tables N))
      → Balanced s
      → OptionAll (λ u. Reach s (ledger_of u)) o
      → OptionAll (λ p. Reach s (ledger_of p.0)) (finish_new env config r event now o)
  unfolding maybe_persist_jfr evaluate_notification
  finish_new-Reach s r event now none b h = tt
  finish_new-Reach s r event now (some t) b h =
      Reach-trans h (reconcile_fingerprint-Reach env r.fingerprint now t (Reach-Balanced b h))

  pub existing_for-Takes :
      (event : OpsEvent) (timestamp fingerprint : String) (t : Tables N)
      → OptionAll (Takes t.incidents) (existing_for env config event timestamp fingerprint t)
  unfolding existing_for
  existing_for-Takes event timestamp fingerprint t =
      if_cases (OptionAll (Takes t.incidents)) (is_mapped (recovery_type event.type))
        (λ _.
          or_else-OptionAll (Takes t.incidents) _ _
            (find_recovery-Takes env.time_of fingerprint timestamp t.incidents)
            (find_recovery-Takes env.time_of _ timestamp t.incidents))
        (λ _.
          or_else-OptionAll (Takes t.incidents) _ _
            (find_for_event-Takes env.time_of (fingerprint_of env) env.stored_event _ fingerprint
              timestamp _ t.incidents t.links)
            (find_for_event-Takes env.time_of (fingerprint_of env) env.stored_event _ _ timestamp _
              t.incidents t.links))

  module _ (id : String) (event : OpsEvent) (timestamp now : String) (t : Tables N) where
    abbrev Reached : Option (Tables N × IncidentResult) → Type 0
    Reached o = OptionAll (λ p. Reach (ledger_of t) (ledger_of p.0)) o

    process_existing-Reach :
        (fingerprint : String) (o : Option IncidentRow)
        → Balanced (ledger_of t)
        → OptionAll (Takes t.incidents) o
        → Reached (process_existing env config id event timestamp fingerprint now t o)
    unfolding process_new
    process_existing-Reach fingerprint (some r) b takes =
        if_cases Reached (is_mapped (recovery_type event.type))
          (λ _. process_recovery-Reach r event fingerprint now t b takes)
          (λ _. process_known-Reach r event timestamp fingerprint now t b takes)
    process_existing-Reach fingerprint none b takes =
        let r = new_incident env config id event timestamp fingerprint in
        if_cases Reached (is_mapped (recovery_type event.type)) (λ _. here)
          (λ _.
            finish_new-Reach (ledger_of t) r event now _ b (create-Reach r event now t refl refl))

    process_unless-Reach :
        (o : Option IncidentRow)
        → Balanced (ledger_of t)
        → Reached (process_unless env config id event timestamp now t o)
    unfolding maybe_persist_jfr
    process_unless-Reach (some r) b = here
    process_unless-Reach none b =
        process_existing-Reach (fingerprint_of env event) _ b
          (existing_for-Takes event timestamp (fingerprint_of env event) t)

    pub process_event-Reach :
        Balanced (ledger_of t) → Reached (process_event env config id event timestamp now t)
    unfolding process_event
    process_event-Reach b = process_unless-Reach _ b
