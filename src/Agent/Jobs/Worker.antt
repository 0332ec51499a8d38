-- ===== src/Agent/Jobs/Worker.antt =====
-- apps/agent/src/evidence-worker.ts: one drain of the pending evidence jobs.
--
-- The orchestrator and the lookup of an incident are the worker's arguments. While the worker awaits
-- the orchestrator, the engine may serve requests: they stand with the orchestrator's answer.
use pi_ops.Base.{ℕ, ◌+◌, String, Option, none, some, List, [], ◌∷◌, ◌++◌, leb, ltb, if◌then◌else◌}
use pi_ops.Agent.Jobs.{
  EvidenceJob, ErrorMessage, retryable_failures, no_longer_exists, thrown, insert_evidence_job,
  requeue_evidence_job, list_pending_evidence_jobs, mark_evidence_job_running,
  mark_evidence_job_completed, mark_evidence_job_retry, get_evidence_job, not,
}

pub data Request {ℓ} (E : Type ℓ) : Type ℓ where
  creates : (id incident_id : String) → E → (now : String) → Request E
  requeues : (incident_id : String) → E → (now : String) → Request E

pub data Answer : Type 0 where
  summary : (retryable : ℕ) → Answer
  throws : (message : String) → Answer

pub record Collection {ℓ} (E : Type ℓ) : Type ℓ where
  pub answer : Answer
  pub requests : List (Request E)
  pub ended_at : String

pub record Config : Type 0 where
  pub evidence_job_batch_size : ℕ
  pub evidence_job_max_attempts : ℕ

-- The table, the incidents whose collection completed, and the time.
pub record Progress {ℓ} (E : Type ℓ) : Type ℓ where
  pub jobs : List (EvidenceJob E)
  pub completed : List String
  pub now : String

abbrev or_same {κ} : {A : Type κ} → Option A → A → A
or_same none a = a
or_same (some b) a = b

module _ {ℓ} {E : Type ℓ} where
  unfoldable pub serve : Request E → List (EvidenceJob E) → List (EvidenceJob E)
  serve (creates id incident_id event now) jobs =
      or_same (insert_evidence_job id incident_id event now jobs) jobs
  serve (requeues incident_id event now) jobs = (requeue_evidence_job incident_id event now jobs).0

  unfoldable pub serve_all : List (Request E) → List (EvidenceJob E) → List (EvidenceJob E)
  serve_all [] jobs = jobs
  serve_all (r ∷ rs) jobs = serve_all rs (serve r jobs)

  unfoldable pub attempts_of : Option (EvidenceJob E) → EvidenceJob E → ℕ
  attempts_of none job = job.attempts + 1
  attempts_of (some current) job = current.attempts

  -- What the worker does with a failure: try again, or give up at the last attempt.
  unfoldable pub retry_or_fail :
      Config
      → EvidenceJob E
      → ErrorMessage
      → (now : String) → List (EvidenceJob E)
      → List (EvidenceJob E)
  retry_or_fail config job error now jobs =
      let failed =
        leb config.evidence_job_max_attempts (attempts_of (get_evidence_job job.id jobs) job) in
      mark_evidence_job_retry job.id error failed now jobs

  unfoldable pub settle :
      Config → EvidenceJob E → Answer → (now : String) → List (EvidenceJob E) → Progress E
  settle config job (summary retryable) now jobs =
      if ltb 0 retryable
      then record {
        jobs = retry_or_fail config job (retryable_failures retryable) now jobs;
        completed = [];
        now = now;
      }
      else record {
        jobs = mark_evidence_job_completed job.id now jobs;
        completed = job.incident_id ∷ [];
        now = now;
      }
  settle config job (throws message) now jobs = record {
    jobs = retry_or_fail config job (thrown message) now jobs;
    completed = [];
    now = now;
  }

module _ {ℓ κ} {E : Type ℓ} {I : Type κ} (config : Config) (get_incident : String → Option I)
    (collect_for_incident : I → E → String → Collection E) where
  -- The body of the loop once the job is marked.
  unfoldable pub attempt :
      Option I → EvidenceJob E → (now : String) → List (EvidenceJob E) → Progress E
  attempt none job now jobs = record {
    jobs = retry_or_fail config job (no_longer_exists job.incident_id) now jobs;
    completed = [];
    now = now;
  }
  attempt (some incident) job now jobs =
      let c = collect_for_incident incident job.triggering_event job.id in
      settle config job c.answer c.ended_at (serve_all c.requests jobs)

  unfoldable pub work : EvidenceJob E → (now : String) → List (EvidenceJob E) → Progress E
  work job now jobs =
      let (marked, changed) = mark_evidence_job_running job.id now jobs in
      if not changed
      then record { jobs = jobs; completed = []; now = now }
      else attempt (get_incident job.incident_id) job now marked

  -- The loop over the listed jobs.
  unfoldable pub drain_from :
      List (EvidenceJob E) → (now : String) → List (EvidenceJob E) → Progress E
  drain_from [] now jobs = record { jobs = jobs; completed = []; now = now }
  drain_from (job ∷ rest) now jobs =
      let p = work job now jobs in
      let q = drain_from rest p.now p.jobs in record q { completed = p.completed ++ q.completed }

  unfoldable pub drain : (now : String) → List (EvidenceJob E) → Progress E
  drain now jobs =
      drain_from (list_pending_evidence_jobs config.evidence_job_batch_size jobs) now jobs
