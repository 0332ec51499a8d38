-- ===== src/Agent/Jobs/Loop.antt =====
-- What the loop of a drain leaves due, and how many rows.
use pi_ops.Base.{
  ℕ, ◌<◌, ◌≤◌, String, Bool, not, List, [], ◌∷◌, All, filter, length, ◌≡◌, arith, refl, if_cases,
  ltb, Option, none, some, ◌∙◌,
}
use pi_ops.Agent.Jobs.{
  EvidenceJob, mark_evidence_job_running, mark_evidence_job_completed, mark_evidence_job_retry,
  ErrorMessage, has_id, pending_with, begun, done, retried, retryable_failures, thrown,
  no_longer_exists, update_where,
}
use pi_ops.Agent.Jobs.Worker.{
  Config, Answer, Collection, Progress, serve_all, retry_or_fail, settle, attempt, work, drain_from,
}
use pi_ops.Agent.Jobs.Attempts.{is_given_up}
use pi_ops.Agent.Jobs.Good.{Good, work-Good}
use pi_ops.Agent.Jobs.Due.{Due, AtWork, mark-AtWork, skip-Due, retry-Due, settle-Due}

length-update_where {ℓ} :
    {A : Type ℓ} (p : A → Bool) (f : A → A) (xs : List A)
    → length (update_where p f xs).0 ≡ length xs
length-update_where p f [] = refl
length-update_where p f (x ∷ xs) = omega (arith, length-update_where p f xs)

pub length-filter {ℓ} : {A : Type ℓ} (p : A → Bool) (xs : List A) → length (filter p xs) ≤ length xs
length-filter p [] = omega arith
length-filter p (x ∷ xs) = ground (arith, length-filter p xs)

module _ {ℓ} {E : Type ℓ} (config : Config) where
  length-retry_or_fail :
      (job : EvidenceJob E) (error : ErrorMessage) (now : String) (js : List (EvidenceJob E))
      → length (retry_or_fail config job error now js) ≡ length js
  unfolding retry_or_fail mark_evidence_job_retry
  length-retry_or_fail job error now js =
      length-update_where (has_id job.id) (retried error (is_given_up config job js) now) js

  length-settle :
      (job : EvidenceJob E) (answer : Answer) (now : String) (js : List (EvidenceJob E))
      → length (settle config job answer now js).jobs ≡ length js
  unfolding settle mark_evidence_job_completed
  length-settle job (Answer.summary n) now js =
      if_cases {A = Progress E} (λ p. length p.jobs ≡ length js) (ltb 0 n)
        {x = record {
          jobs = retry_or_fail config job (retryable_failures n) now js;
          completed = [];
          now = now;
        }}
        {y = record {
          jobs = mark_evidence_job_completed job.id now js;
          completed = job.incident_id ∷ [];
          now = now;
        }}
        (λ _. length-retry_or_fail job (retryable_failures n) now js)
        (λ _. length-update_where (has_id job.id) (done now) js)
  length-settle job (Answer.throws message) now js =
      length-retry_or_fail job (thrown message) now js

-- The worker alone: the orchestrator's answers come without requests in between.
module _ {ℓ} {E I : Type ℓ} (config : Config) (get_incident : String → Option I)
    (collect : I → E → String → Collection E)
    (alone : (i : I) (e : E) (id : String) → (collect i e id).requests ≡ []) where
  length-attempt :
      (incident : Option I) (job : EvidenceJob E) (now : String) (js : List (EvidenceJob E))
      → length (attempt config get_incident collect incident job now js).jobs ≡ length js
  unfolding attempt serve_all
  length-attempt none job now js =
      length-retry_or_fail config job (no_longer_exists job.incident_id) now js
  length-attempt (some incident) job now js =
      let c = collect incident job.triggering_event job.id in
      rw (alone incident job.triggering_event job.id)
        (length-settle config job c.answer c.ended_at js)

  length-work :
      (job : EvidenceJob E) (now : String) (js : List (EvidenceJob E))
      → length (work config get_incident collect job now js).jobs ≡ length js
  unfolding work mark_evidence_job_running
  length-work job now js =
      let marked = mark_evidence_job_running job.id now js in
      if_cases {A = Progress E} (λ p. length p.jobs ≡ length js) (not marked.1)
        {x = record { jobs = js; completed = []; now = now }}
        {y = attempt config get_incident collect (get_incident job.incident_id) job now marked.0}
        (λ _. refl)
        (λ _.
          length-attempt (get_incident job.incident_id) job now marked.0
          ∙ length-update_where (pending_with job.id) (begun now) js)

  pub length-drain_from :
      (listed : List (EvidenceJob E)) (now : String) (js : List (EvidenceJob E))
      → length (drain_from config get_incident collect listed now js).jobs ≡ length js
  unfolding drain_from
  length-drain_from [] now js = refl
  length-drain_from (job ∷ rest) now js =
      let p = work config get_incident collect job now js in
      length-drain_from rest p.now p.jobs ∙ length-work job now js

  attempt-Due :
      (k : ℕ) (rest : List (EvidenceJob E)) (incident : Option I) (job : EvidenceJob E)
      (now : String) (js : List (EvidenceJob E))
      → All (AtWork k job rest) js
      → All (Due k rest) (attempt config get_incident collect incident job now js).jobs
  unfolding attempt serve_all
  attempt-Due k rest none job now js w =
      retry-Due k config job rest (no_longer_exists job.incident_id) now js w
  attempt-Due k rest (some incident) job now js w =
      let c = collect incident job.triggering_event job.id in
      rw (alone incident job.triggering_event job.id)
        (settle-Due k config job rest c.answer c.ended_at js w)

  work-Due :
      (k : ℕ) (rest : List (EvidenceJob E)) (job : EvidenceJob E) (now : String)
      (js : List (EvidenceJob E))
      → Good config config.evidence_job_max_attempts js
      → All (Due k (job ∷ rest)) js
      → All (Due k rest) (work config get_incident collect job now js).jobs
  unfolding work
  work-Due k rest job now js (keyed, _) due =
      let marked = mark_evidence_job_running job.id now js in
      if_cases {A = Progress E} (λ p. All (Due k rest) p.jobs) (not marked.1)
        {x = record { jobs = js; completed = []; now = now }}
        {y = attempt config get_incident collect (get_incident job.incident_id) job now marked.0}
        (λ h. skip-Due k job rest now js due (ground arith))
        (λ h.
          attempt-Due k rest (get_incident job.incident_id) job now marked.0
            (mark-AtWork k job rest now js keyed due (ground arith)))

  pub drain_from-Due :
      (k : ℕ) (listed : List (EvidenceJob E)) (now : String) (js : List (EvidenceJob E))
      → 0 < config.evidence_job_max_attempts
      → Good config config.evidence_job_max_attempts js
      → All (Due k listed) js
      → All (Due k []) (drain_from config get_incident collect listed now js).jobs
  unfolding drain_from
  drain_from-Due k [] now js pos good due = due
  drain_from-Due k (job ∷ rest) now js pos good due =
      let p = work config get_incident collect job now js in
      drain_from-Due k rest p.now p.jobs pos
        (work-Good config config.evidence_job_max_attempts get_incident collect pos (omega arith)
          job now js good)
        (work-Due k rest job now js good due)
