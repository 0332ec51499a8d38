-- ===== src/Agent/Jobs/Good.antt =====
-- That the table keeps its keys and the bounds of its attempts, statement by statement.
use pi_ops.Base.{
  ℕ, ◌+◌, ◌<◌, ◌≤◌, String, str_eq, eq_iff, List, [], ◌∷◌, any, All, ◌≢◌, arith, if_cases, Option,
  none, some, inl, inr, Bool-cases, ltb, not, ◌||◌, refl,
}
use pi_ops.Agent.Jobs.{
  EvidenceJob, mark_evidence_job_running, mark_evidence_job_completed, mark_evidence_job_retry,
  insert_evidence_job, requeue_evidence_job, reset_running_evidence_jobs, is_running, ErrorMessage,
  list_pending_evidence_jobs, has_id, pending_with, final_of, begun, done, requeued, retried,
  put_back, retryable_failures, thrown, no_longer_exists,
}
use pi_ops.Agent.Jobs.Worker.{
  Config, Request, Answer, Collection, Progress, serve, serve_all, retry_or_fail, settle, attempt,
  work, drain_from, drain,
}
use pi_ops.Base.Search.{All-map, any-All}
use pi_ops.Agent.Jobs.Keys.{Keyed, Keyed-update_where}
use pi_ops.Agent.Jobs.Attempts.{
  Fair, mark-Fair, serve-Fair, completed-Fair, put_back-Fair, retry-Fair, is_given_up,
}

module _ {ℓ} {E : Type ℓ} (config : Config) (top : ℕ) where
  -- The rows are keyed, and none has more than `top` attempts.
  abbrev pub Good : List (EvidenceJob E) → Type ℓ
  Good js = Keyed js × All (Fair config.evidence_job_max_attempts top) js

  mark-Keyed :
      (id now : String) (js : List (EvidenceJob E))
      → Keyed js
      → Keyed (mark_evidence_job_running id now js).0
  unfolding mark_evidence_job_running
  mark-Keyed id now js keyed = Keyed-update_where (pending_with id) (begun now) js (λ j. refl) keyed

  mark-Good :
      (id now : String) (js : List (EvidenceJob E))
      → Good js
      → Good (mark_evidence_job_running id now js).0
  mark-Good id now js (keyed, fair) =
      (mark-Keyed id now js keyed, mark-Fair config.evidence_job_max_attempts top id now js fair)

  serve-Keyed : (r : Request E) (js : List (EvidenceJob E)) → Keyed js → Keyed (serve r js)
  unfolding serve insert_evidence_job requeue_evidence_job
  serve-Keyed (Request.creates new incident event now) js keyed =
      elim (Bool-cases (any (λ j. str_eq j.id new || str_eq j.incident_id incident) js)) [
        | inl taken ↦ rw taken keyed
        | inr free ↦ rw free (
          All-map _ (λ k. k.id ≢ new) js (λ k no e. ground (arith, eq_iff k.id new))
              (any-All (λ j. str_eq j.id new || str_eq j.incident_id incident) js free),
          keyed,
        )
      ]
  serve-Keyed (Request.requeues incident event now) js keyed =
      Keyed-update_where (final_of incident) (requeued event now) js (λ j. refl) keyed

  pub serve-Good :
      (r : Request E) (js : List (EvidenceJob E)) → 0 < top → Good js → Good (serve r js)
  serve-Good r js pos (keyed, fair) =
      (serve-Keyed r js keyed, serve-Fair config.evidence_job_max_attempts top r js pos fair)

  serve_all-Good :
      (rs : List (Request E)) (js : List (EvidenceJob E))
      → 0 < top
      → Good js
      → Good (serve_all rs js)
  unfolding serve_all
  serve_all-Good [] js pos good = good
  serve_all-Good (r ∷ rs) js pos good =
      serve_all-Good rs (serve r js) pos (serve-Good r js pos good)

  completed-Good :
      (id now : String) (js : List (EvidenceJob E))
      → Good js
      → Good (mark_evidence_job_completed id now js)
  unfolding mark_evidence_job_completed
  completed-Good id now js (keyed, fair) = (
    Keyed-update_where (has_id id) (done now) js (λ j. refl) keyed,
    completed-Fair config.evidence_job_max_attempts top id now js fair,
  )

  retry-Keyed :
      (job : EvidenceJob E) (error : ErrorMessage) (now : String) (js : List (EvidenceJob E))
      → Keyed js
      → Keyed (retry_or_fail config job error now js)
  unfolding retry_or_fail mark_evidence_job_retry
  retry-Keyed job error now js keyed =
      Keyed-update_where (has_id job.id) (retried error (is_given_up config job js) now) js
        (λ j. refl) keyed

  retry-Good :
      (job : EvidenceJob E) (error : ErrorMessage) (now : String) (js : List (EvidenceJob E))
      → config.evidence_job_max_attempts ≤ top
      → Good js
      → Good (retry_or_fail config job error now js)
  retry-Good job error now js le (keyed, fair) =
      (retry-Keyed job error now js keyed, retry-Fair config job js top error now le keyed fair)

  settle-Good :
      (job : EvidenceJob E) (answer : Answer) (now : String) (js : List (EvidenceJob E))
      → config.evidence_job_max_attempts ≤ top
      → Good js
      → Good (settle config job answer now js).jobs
  unfolding settle
  settle-Good job (Answer.summary n) now js le good =
      if_cases {A = Progress E} (λ p. Good p.jobs) (ltb 0 n)
        {x = record {
          jobs = retry_or_fail config job (retryable_failures n) now js;
          completed = [];
          now = now;
        }}
        {y = record {
          jobs = mark_evidence_job_completed job.id now js;
          completed = job.incident_id ∷ [];
          now = now;
        }}
        (λ _. retry-Good job (retryable_failures n) now js le good)
        (λ _. completed-Good job.id now js good)
  settle-Good job (Answer.throws message) now js le good =
      retry-Good job (thrown message) now js le good

module _ {ℓ} {E I : Type ℓ} (config : Config) (top : ℕ) (get_incident : String → Option I)
    (collect : I → E → String → Collection E) (pos : 0 < top)
    (le : config.evidence_job_max_attempts ≤ top) where
  attempt-Good :
      (incident : Option I) (job : EvidenceJob E) (now : String) (js : List (EvidenceJob E))
      → Good config top js
      → Good config top (attempt config get_incident collect incident job now js).jobs
  unfolding attempt
  attempt-Good none job now js good =
      retry-Good config top job (no_longer_exists job.incident_id) now js le good
  attempt-Good (some incident) job now js good =
      let c = collect incident job.triggering_event job.id in
      settle-Good config top job c.answer c.ended_at (serve_all c.requests js) le
        (serve_all-Good config top c.requests js pos good)

  pub work-Good :
      (job : EvidenceJob E) (now : String) (js : List (EvidenceJob E))
      → Good config top js
      → Good config top (work config get_incident collect job now js).jobs
  unfolding work
  work-Good job now js good =
      let marked = mark_evidence_job_running job.id now js in
      if_cases {A = Progress E} (λ p. Good config top p.jobs) (not marked.1)
        {x = record { jobs = js; completed = []; now = now }}
        {y = attempt config get_incident collect (get_incident job.incident_id) job now marked.0}
        (λ _. good)
        (λ _.
          attempt-Good (get_incident job.incident_id) job now marked.0
            (mark-Good config top job.id now js good))

  drain_from-Good :
      (listed : List (EvidenceJob E)) (now : String) (js : List (EvidenceJob E))
      → Good config top js
      → Good config top (drain_from config get_incident collect listed now js).jobs
  unfolding drain_from
  drain_from-Good [] now js good = good
  drain_from-Good (job ∷ rest) now js good =
      let p = work config get_incident collect job now js in
      drain_from-Good rest p.now p.jobs (work-Good job now js good)

  pub drain-Good :
      (now : String) (js : List (EvidenceJob E))
      → Good config top js
      → Good config top (drain config get_incident collect now js).jobs
  unfolding drain
  drain-Good now js good =
      drain_from-Good (list_pending_evidence_jobs config.evidence_job_batch_size js) now js good

module _ {ℓ} {E : Type ℓ} (config : Config) where
  reset-Keyed :
      (now : String) (js : List (EvidenceJob E))
      → Keyed js
      → Keyed (reset_running_evidence_jobs now js)
  unfolding reset_running_evidence_jobs
  reset-Keyed now js keyed =
      Keyed-update_where (λ j. is_running j.state) (put_back now) js (λ j. refl) keyed

  pub reset-Good :
      (top : ℕ) (now : String) (js : List (EvidenceJob E))
      → Good config top js
      → Good config (top + 1) (reset_running_evidence_jobs now js)
  reset-Good top now js (keyed, fair) =
      (reset-Keyed now js keyed, put_back-Fair config.evidence_job_max_attempts top now js fair)
