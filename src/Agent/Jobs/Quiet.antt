-- ===== src/Agent/Jobs/Quiet.antt =====
-- What a drain leaves running.
use pi_ops.Base.{
  not, leb, Bool-cases, inl, inr, ◌||◌, none, some, String, str_eq, eq_iff, List, [], ◌∷◌, any, All,
  ◌≡◌, ◌≢◌, arith, if_cases, Option,
}
use pi_ops.Agent.Jobs.{
  has_id, pending_with, final_of, begun, done, requeued, retried, retryable_failures, thrown,
  no_longer_exists, get_evidence_job, EvidenceJob, running, mark_evidence_job_running,
  mark_evidence_job_completed, mark_evidence_job_retry, insert_evidence_job, requeue_evidence_job,
  ErrorMessage, list_pending_evidence_jobs, some,
}
use pi_ops.Agent.Jobs.Worker.{
  attempts_of, Config, Request, Answer, Collection, Progress, serve, serve_all, retry_or_fail,
  settle, attempt, work, drain_from, drain,
}
use pi_ops.Agent.Jobs.Keys.{All-update_where}

module _ {ℓ} {E : Type ℓ} where
  -- No row is running.
  abbrev pub Quiet : List (EvidenceJob E) → Type 0
  Quiet js = All (λ j. j.state ≢ running) js

  -- At most the rows with this id are running.
  abbrev QuietBut : String → List (EvidenceJob E) → Type 0
  QuietBut id js = All (λ j. j.state ≡ running → j.id ≡ id) js

  mark-QuietBut :
      (id now : String) (js : List (EvidenceJob E))
      → Quiet js
      → QuietBut id (mark_evidence_job_running id now js).0
  unfolding mark_evidence_job_running
  mark-QuietBut id now js q =
      All-update_where (λ j. j.state ≢ running) (λ j. j.state ≡ running → j.id ≡ id)
        (pending_with id) (begun now) js (λ j _ hit _. ground (arith, eq_iff j.id id))
        (λ j ne _ e. absurd (ne e)) q

  serve-QuietBut :
      (id : String) (r : Request E) (js : List (EvidenceJob E))
      → QuietBut id js
      → QuietBut id (serve r js)
  unfolding serve insert_evidence_job requeue_evidence_job
  serve-QuietBut id (Request.creates new incident event now) js q =
      elim (Bool-cases (any (λ j. str_eq j.id new || str_eq j.incident_id incident) js)) [
        | inl taken ↦ rw taken q
        | inr free ↦ rw free ((λ e. cc), q)
      ]
  serve-QuietBut id (Request.requeues incident event now) js q =
      All-update_where (λ j. j.state ≡ running → j.id ≡ id) (λ j. j.state ≡ running → j.id ≡ id)
        (final_of incident) (requeued event now) js (λ j _ _ e. cc) (λ j h _. h) q

  serve_all-QuietBut :
      (id : String) (rs : List (Request E)) (js : List (EvidenceJob E))
      → QuietBut id js
      → QuietBut id (serve_all rs js)
  unfolding serve_all
  serve_all-QuietBut id [] js q = q
  serve_all-QuietBut id (r ∷ rs) js q =
      serve_all-QuietBut id rs (serve r js) (serve-QuietBut id r js q)

  completed-Quiet :
      (id now : String) (js : List (EvidenceJob E))
      → QuietBut id js
      → Quiet (mark_evidence_job_completed id now js)
  unfolding mark_evidence_job_completed
  completed-Quiet id now js q =
      All-update_where (λ j. j.state ≡ running → j.id ≡ id) (λ j. j.state ≢ running) (has_id id)
        (done now) js (λ j _ _ e. cc)
        (λ j h miss e. let same = h e in ground (arith, eq_iff j.id id)) q

  retry-Quiet :
      (config : Config) (job : EvidenceJob E) (error : ErrorMessage) (now : String)
      (js : List (EvidenceJob E))
      → QuietBut job.id js
      → Quiet (retry_or_fail config job error now js)
  unfolding retry_or_fail mark_evidence_job_retry
  retry-Quiet config job error now js q =
      let failed =
        leb config.evidence_job_max_attempts (attempts_of (get_evidence_job job.id js) job) in
      All-update_where (λ j. j.state ≡ running → j.id ≡ job.id) (λ j. j.state ≢ running)
        (has_id job.id) (retried error failed now) js (λ j _ _ e. ground arith)
        (λ j h miss e. let same = h e in ground (arith, eq_iff j.id job.id)) q

  settle-Quiet :
      (config : Config) (job : EvidenceJob E) (answer : Answer) (now : String)
      (js : List (EvidenceJob E))
      → QuietBut job.id js
      → Quiet (settle config job answer now js).jobs
  unfolding settle
  settle-Quiet config job (Answer.summary n) now js q =
      if_cases {A = Progress E} (λ p. Quiet p.jobs) _
        (λ _. retry-Quiet config job (retryable_failures n) now js q)
        (λ _. completed-Quiet job.id now js q)
  settle-Quiet config job (Answer.throws message) now js q =
      retry-Quiet config job (thrown message) now js q

module _ {ℓ κ} {E : Type ℓ} {I : Type κ} (config : Config) (get_incident : String → Option I)
    (collect_for_incident : I → E → String → Collection E) where
  attempt-Quiet :
      (incident : Option I) (job : EvidenceJob E) (now : String) (js : List (EvidenceJob E))
      → QuietBut job.id js
      → Quiet (attempt config get_incident collect_for_incident incident job now js).jobs
  unfolding attempt
  attempt-Quiet none job now js q =
      retry-Quiet config job (no_longer_exists job.incident_id) now js q
  attempt-Quiet (some incident) job now js q =
      let c = collect_for_incident incident job.triggering_event job.id in
      settle-Quiet config job c.answer c.ended_at (serve_all c.requests js)
        (serve_all-QuietBut job.id c.requests js q)

  work-Quiet :
      (job : EvidenceJob E) (now : String) (js : List (EvidenceJob E))
      → Quiet js
      → Quiet (work config get_incident collect_for_incident job now js).jobs
  unfolding work
  work-Quiet job now js q =
      let marked = mark_evidence_job_running job.id now js in
      if_cases {A = Progress E} (λ p. Quiet p.jobs) (not marked.1)
        {x = record { jobs = js; completed = []; now = now }}
        {y = attempt config get_incident collect_for_incident (get_incident job.incident_id) job now
          marked.0}
        (λ _. q)
        (λ _.
          attempt-Quiet (get_incident job.incident_id) job now marked.0
            (mark-QuietBut job.id now js q))

  drain_from-Quiet :
      (listed : List (EvidenceJob E)) (now : String) (js : List (EvidenceJob E))
      → Quiet js
      → Quiet (drain_from config get_incident collect_for_incident listed now js).jobs
  unfolding drain_from
  drain_from-Quiet [] now js q = q
  drain_from-Quiet (job ∷ rest) now js q =
      let p = work config get_incident collect_for_incident job now js in
      drain_from-Quiet rest p.now p.jobs (work-Quiet job now js q)

  -- If no evidence job is running before a drain, none is running after it: whatever the
  -- orchestrator answers, each job that the drain took up is completed, failed or pending again.
  pub drain-Quiet :
      (now : String) (js : List (EvidenceJob E))
      → Quiet js
      → Quiet (drain config get_incident collect_for_incident now js).jobs
  unfolding drain
  drain-Quiet now js q =
      drain_from-Quiet (list_pending_evidence_jobs config.evidence_job_batch_size js) now js q
