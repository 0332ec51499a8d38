-- ===== src/Agent/Notifications/Reaches.antt =====
-- That the statements which evaluate change the rows by steps, once they have marked a job.
use pi_ops.Base.{
  String, Bool, true, false, Option, none, some, List, [], ◌∷◌, sym, subst, if_cases, if◌then◌else◌,
}
use pi_ops.Agent.Incidents.{IncidentRow, get_incident}
use pi_ops.Agent.NotificationPayload.{NotificationJob}
use pi_ops.Agent.Notifications.{
  Notifications, Attempt, throws, returns, StoredNotificationDecision, get_notification_decision,
  get_notification_job, list_notification_jobs,
}
use pi_ops.Agent.Notifications.Decision.{World, Settings}
use pi_ops.Agent.Notifications.Updates.{
  evaluate_facts, evaluate_known, evaluate_incident, try_evaluate,
}
use pi_ops.Agent.Notifications.Statements.{
  caught, is_there, failed_value, evaluate_notification, needs_evaluation, reconcile_each,
  reconcile_notifications, evaluate_of, evaluate_if, evaluate_each,
}
use pi_ops.Agent.Notifications.Worker.{Request, serve_all}
use pi_ops.Agent.Notifications.Ledger.{Reach, here, Reach-trans}
use pi_ops.Agent.Notifications.Moves.{Returned, and_then-Returned, jobs-save}
use pi_ops.Agent.Notifications.Evaluates.{evaluate_facts-Reach}

module _ (settings : Settings) (world : World) (now : String) where
  anything {ℓ} : {A : Type ℓ} (a : Attempt A) → Returned (λ _. Unit {0}) a
  anything (throws m) = tt
  anything (returns a) = tt

  abbrev Reached : Notifications → Option StoredNotificationDecision × Notifications → Type 0
  Reached s (d, t) = Reach s.jobs t.jobs

  evaluate_known-Reach :
      (r : IncidentRow) (previous : Option StoredNotificationDecision) (s : Notifications)
      → Returned (Reached s) (evaluate_known settings world now r previous s)
  evaluate_known-Reach r none s = here
  evaluate_known-Reach r (some previous) s =
      and_then-Returned (λ _. Unit {0}) (Reached s) (world.facts_of r.id now) _
        (anything (world.facts_of r.id now))
        (λ facts _.
          and_then-Returned (λ (value, t). Reach s.jobs t.jobs) (Reached s)
            (evaluate_facts settings world now r previous facts s) _
            (evaluate_facts-Reach settings world now r previous facts s) (λ (value, t) h. h))

  evaluate_incident-Reach :
      (id : String) (incident : Option IncidentRow) (s : Notifications)
      → Returned (Reached s) (evaluate_incident settings world now id incident s)
  evaluate_incident-Reach id none s = tt
  evaluate_incident-Reach id (some r) s =
      evaluate_known-Reach r (get_notification_decision r.id s) s

  caught-Reach :
      (id : String) (s : Notifications)
      (a : Attempt (Option StoredNotificationDecision × Notifications))
      → Returned (Reached s) a
      → Reach s.jobs (caught settings world now id s a).jobs
  caught-Reach id s (returns (d, t)) h = h
  caught-Reach id s (throws m) h =
      let saved = failed_value settings world now m (get_notification_decision id s) in
      if_cases {A = Notifications} (λ t. Reach s.jobs t.jobs)
        (is_there settings world now (get_incident id world.incidents))
        (λ _. subst (Reach s.jobs) (sym (jobs-save id saved s)) here) (λ _. here)

  pub evaluate-Reach :
      (id : String) (s : Notifications)
      → Reach s.jobs (evaluate_notification settings world now id s).jobs
  unfolding evaluate_notification try_evaluate
  evaluate-Reach id s =
      caught-Reach id s (try_evaluate settings world now id s)
        (evaluate_incident-Reach id (get_incident id world.incidents) s)

  reconcile_each-Reach :
      (rs : List IncidentRow) (s : Notifications)
      → Reach s.jobs (reconcile_each settings world now rs s).jobs
  unfolding reconcile_each
  reconcile_each-Reach [] s = here
  reconcile_each-Reach (r ∷ rs) s =
      let needed =
        needs_evaluation settings world now r (get_notification_decision r.id s)
          (list_notification_jobs r.id s.jobs) in
      Reach-trans
        (if_cases {A = Notifications} (λ t. Reach s.jobs t.jobs) needed (λ _. evaluate-Reach r.id s)
          (λ _. here))
        (reconcile_each-Reach rs
          (if needed then evaluate_notification settings world now r.id s else s))

  pub reconcile-Reach :
      (s : Notifications) → Reach s.jobs (reconcile_notifications settings world now s).jobs
  unfolding reconcile_notifications
  reconcile-Reach s = reconcile_each-Reach world.incidents s

  evaluate_of-Reach :
      (job : Option NotificationJob) (s : Notifications)
      → Reach s.jobs (evaluate_of settings world now job s).jobs
  evaluate_of-Reach none s = here
  evaluate_of-Reach (some job) s = evaluate-Reach job.incident_id s

  pub evaluate_if-Reach :
      (id : String) (changed : Bool) (s : Notifications)
      → Reach s.jobs (evaluate_if settings world now id changed s).jobs
  evaluate_if-Reach id true s = evaluate_of-Reach (get_notification_job id s.jobs) s
  evaluate_if-Reach id false s = here

  pub evaluate_each-Reach :
      (ids : List String) (s : Notifications)
      → Reach s.jobs (evaluate_each settings world now ids s).jobs
  evaluate_each-Reach [] s = here
  evaluate_each-Reach (id ∷ ids) s =
      Reach-trans (evaluate-Reach id s)
        (evaluate_each-Reach ids (evaluate_notification settings world now id s))

pub serve_all-Reach :
    (settings : Settings) (requests : List Request) (s : Notifications)
    → Reach s.jobs (serve_all settings requests s).jobs
unfolding serve_all
serve_all-Reach settings [] s = here
serve_all-Reach settings (r ∷ rs) s =
    Reach-trans (evaluate-Reach settings r.world r.now r.incident_id s)
      (serve_all-Reach settings rs (evaluate_notification settings r.world r.now r.incident_id s))
