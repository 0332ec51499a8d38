-- ===== src/Agent/Jobs/Attempts.antt =====
-- How often a job is attempted, over drains, requests and restarts.
use pi_ops.Base.{
  ℕ, ◌+◌, ◌<◌, ◌≤◌, String, str_eq, eq_iff, Bool, false, List, any, All, ◌≡◌, ◌≢◌, arith, Option,
  none, inl, inr, Bool-cases, Option-cases, leb, ◌||◌, find,
}
use pi_ops.Base.Search.{find-Memᴰ}
use pi_ops.Agent.Jobs.{
  EvidenceJob, EvidenceJobState, pending, running, completed, failed, mark_evidence_job_running,
  mark_evidence_job_completed, mark_evidence_job_retry, insert_evidence_job, requeue_evidence_job,
  reset_running_evidence_jobs, is_running, ErrorMessage, has_id, pending_with, final_of, begun,
  done, requeued, retried, put_back, get_evidence_job,
}
use pi_ops.Agent.Jobs.Worker.{Config, Request, serve, retry_or_fail, attempts_of}
use pi_ops.Base.Search.{All-map, All-zip, find-All}
use pi_ops.Agent.Jobs.Keys.{All-update_where, Keyed, Keyed-Memᴰ}

-- The attempts of a job by its state: fewer than `top` before an attempt, at most `top` after it,
-- and at least `bottom` when the job is given up, which leaves an error.
abbrev pub Counted : (bottom top : ℕ) → EvidenceJobState → ℕ → Option ErrorMessage → Type 0
Counted bottom top pending attempts error = attempts < top
Counted bottom top running attempts error = attempts ≤ top
Counted bottom top completed attempts error = (attempts ≤ top) × (error ≡ none)
Counted bottom top failed attempts error = (bottom ≤ attempts) × (attempts ≤ top) × (error ≢ none)

module _ {ℓ} {E : Type ℓ} (bottom top : ℕ) where
  abbrev pub Fair : EvidenceJob E → Type 0
  Fair j = Counted bottom top j.state j.attempts j.last_error

  pub mark-Fair :
      (id now : String) (js : List (EvidenceJob E))
      → All Fair js
      → All Fair (mark_evidence_job_running id now js).0
  unfolding mark_evidence_job_running
  mark-Fair id now js fair =
      All-update_where Fair Fair (pending_with id) (begun now) js (λ k f hit. ground arith)
        (λ k f miss. f) fair

  pub serve-Fair :
      (r : Request E) (js : List (EvidenceJob E)) → 0 < top → All Fair js → All Fair (serve r js)
  unfolding serve insert_evidence_job requeue_evidence_job
  serve-Fair (Request.creates new incident event now) js pos fair =
      elim (Bool-cases (any (λ j. str_eq j.id new || str_eq j.incident_id incident) js)) [
        | inl taken ↦ rw taken fair
        | inr free ↦ rw free (pos, fair)
      ]
  serve-Fair (Request.requeues incident event now) js pos fair =
      All-update_where Fair Fair (final_of incident) (requeued event now) js (λ k f hit. pos)
        (λ k f miss. f) fair

  done-Fair : (now : String) (j : EvidenceJob E) → Fair j → Fair (done now j)
  done-Fair now j f = ground arith

  pub completed-Fair :
      (id now : String) (js : List (EvidenceJob E))
      → All Fair js
      → All Fair (mark_evidence_job_completed id now js)
  unfolding mark_evidence_job_completed
  completed-Fair id now js fair =
      All-update_where Fair Fair (has_id id) (done now) js (λ k f hit. done-Fair now k f)
        (λ k f miss. f) fair

  pub put_back-Fair :
      (now : String) (js : List (EvidenceJob E))
      → All Fair js
      → All
          (λ j. Counted bottom (top + 1) j.state j.attempts j.last_error)
          (reset_running_evidence_jobs now js)
  unfolding reset_running_evidence_jobs
  put_back-Fair now js fair =
      All-update_where Fair (λ j. Counted bottom (top + 1) j.state j.attempts j.last_error)
        (λ j. is_running j.state) (put_back now) js (λ k f hit. ground arith)
        (λ k f miss. ground arith) fair

-- The rows with the id of a job whose last attempt failed: whether it is given up is the same for
-- all of them, since there is only one.
module _ {ℓ} {E : Type ℓ} (config : Config) (job : EvidenceJob E) (js : List (EvidenceJob E)) where
  abbrev pub is_given_up : Bool
  is_given_up = leb config.evidence_job_max_attempts (attempts_of (get_evidence_job job.id js) job)

  given_up-All :
      Keyed js
      → All (λ k. k.id ≡ job.id → leb config.evidence_job_max_attempts k.attempts ≡ is_given_up) js
  unfolding get_evidence_job attempts_of
  given_up-All keyed = elim (Option-cases (find (has_id job.id) js)) [
    | inl nothing ↦
        All-map (λ k. has_id job.id k ≡ false) _ js
          (λ k no e. absurd (ground (arith, eq_iff k.id job.id)))
          (find-All (has_id job.id) js nothing)
    | inr (c, found) ↦
        let (m, h) = find-Memᴰ (has_id job.id) js found in
        Keyed-Memᴰ (λ k. leb config.evidence_job_max_attempts k.attempts ≡ is_given_up) job.id js
          keyed m (ground (arith, eq_iff c.id job.id)) (ground arith)
  ]

  pub retry-Fair :
      (top : ℕ) (error : ErrorMessage) (now : String)
      → config.evidence_job_max_attempts ≤ top
      → Keyed js
      → All (Fair config.evidence_job_max_attempts top) js
      → All (Fair config.evidence_job_max_attempts top) (retry_or_fail config job error now js)
  unfolding retry_or_fail mark_evidence_job_retry
  retry-Fair top error now le keyed fair =
      let max = config.evidence_job_max_attempts in
      All-update_where (λ k. Fair max top k × (k.id ≡ job.id → leb max k.attempts ≡ is_given_up))
        (Fair max top) (has_id job.id) (retried error is_given_up now) js
        (λ k (f, g) hit. let same = g (ground (arith, eq_iff k.id job.id)) in ground arith)
        (λ k (f, g) miss. f)
        (All-zip (Fair max top) (λ k. k.id ≡ job.id → leb max k.attempts ≡ is_given_up) js fair
          (given_up-All keyed))
