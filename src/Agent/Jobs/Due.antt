-- ===== src/Agent/Jobs/Due.antt =====
-- What one attempt does for the jobs that are due.
use pi_ops.Base.{
  ℕ, ◌<◌, ◌≤◌, String, eq_iff, true, false, List, [], ◌∷◌, All, ◌≡◌, ◌≢◌, ◌⊎◌, inl, inr, arith, sym,
  if_cases, ltb, ◌∙◌, ap,
}
use pi_ops.Base.Search.{any-Memᴰ}
use mathlib.Core.List.{Memᴰ}
use pi_ops.Agent.Jobs.{
  EvidenceJob, pending, mark_evidence_job_running, mark_evidence_job_completed,
  mark_evidence_job_retry, ErrorMessage, has_id, pending_with, begun, done, retried,
  retryable_failures, thrown,
}
use pi_ops.Agent.Jobs.Worker.{Config, Answer, Progress, retry_or_fail, settle, work}
use pi_ops.Base.Search.{All-map, All-zip, any-All}
use pi_ops.Agent.Jobs.Keys.{All-update_where, Keyed, Keyed-Memᴰ}
use pi_ops.Agent.Jobs.Attempts.{is_given_up}

module _ {ℓ} {E : Type ℓ} (k : ℕ) where
  -- A pending row has been attempted since, or is still to be.
  abbrev pub Due : List (EvidenceJob E) → EvidenceJob E → Type ℓ
  Due rest j =
      j.state ≡ pending
      → (k < j.attempts)
        ⊎ ((k ≤ j.attempts) × ((job : EvidenceJob E) × Memᴰ job rest × (job.id ≡ j.id)))

  -- The rows of the job at work have one more attempt.
  abbrev pub AtWork : EvidenceJob E → List (EvidenceJob E) → EvidenceJob E → Type ℓ
  AtWork job rest j = (j.id ≡ job.id → k < j.attempts) × (j.id ≢ job.id → Due rest j)

  Memᴰ-other :
      (job : EvidenceJob E) (rest : List (EvidenceJob E)) (j : EvidenceJob E) {i : EvidenceJob E}
      → j.id ≢ job.id
      → Memᴰ i (job ∷ rest)
      → i.id ≡ j.id
      → Memᴰ i rest
  Memᴰ-other job rest j ne (Memᴰ.head e) same = absurd (ne (sym same ∙ ap (λ x. x.id) e))
  Memᴰ-other job rest j ne (Memᴰ.tail m) same = m

  Due-tail :
      (job : EvidenceJob E) (rest : List (EvidenceJob E)) (j : EvidenceJob E)
      → (j.state ≡ pending → j.id ≢ job.id)
      → Due (job ∷ rest) j
      → Due rest j
  Due-tail job rest j other due e = elim (due e) [
    | inl more ↦ inl more
    | inr (le, (i, m, same)) ↦ inr (le, (i, Memᴰ-other job rest j (other e) m same, same))
  ]

  begun-AtWork :
      (job : EvidenceJob E) (rest : List (EvidenceJob E)) (now : String) (j : EvidenceJob E)
      → Due (job ∷ rest) j
      → pending_with job.id j ≡ true
      → AtWork job rest (begun now j)
  begun-AtWork job rest now j due hit =
      let e : j.state ≡ pending = ground arith in
      let same : j.id ≡ job.id = ground (arith, eq_iff j.id job.id) in
      (
        λ _. elim (due e) [ inl more ↦ omega arith | inr (le, _) ↦ omega arith ],
        λ ne. absurd (ne same),
      )

  pub mark-AtWork :
      (job : EvidenceJob E) (rest : List (EvidenceJob E)) (now : String) (js : List (EvidenceJob E))
      → Keyed js
      → All (Due (job ∷ rest)) js
      → (mark_evidence_job_running job.id now js).1 ≡ true
      → All (AtWork job rest) (mark_evidence_job_running job.id now js).0
  unfolding mark_evidence_job_running
  mark-AtWork job rest now js keyed due changed =
      let (j, m, h) = any-Memᴰ (pending_with job.id) js changed in
      let found =
        Keyed-Memᴰ (λ r. r.state ≡ pending) job.id js keyed m (ground (arith, eq_iff j.id job.id))
          (ground arith) in
      All-update_where (λ r. Due (job ∷ rest) r × (r.id ≡ job.id → r.state ≡ pending))
        (AtWork job rest) (pending_with job.id) (begun now) js
        (λ r (d, p) hit. begun-AtWork job rest now r d hit)
        (λ r (d, p) miss. (
          λ e. absurd (ground (arith, p e, eq_iff r.id job.id)),
          λ ne. Due-tail job rest r (λ _. ne) d,
        ))
        (All-zip (Due (job ∷ rest)) (λ r. r.id ≡ job.id → r.state ≡ pending) js due found)

  pub skip-Due :
      (job : EvidenceJob E) (rest : List (EvidenceJob E)) (now : String) (js : List (EvidenceJob E))
      → All (Due (job ∷ rest)) js
      → (mark_evidence_job_running job.id now js).1 ≡ false
      → All (Due rest) js
  unfolding mark_evidence_job_running
  skip-Due job rest now js due unchanged =
      All-map (λ r. Due (job ∷ rest) r × (pending_with job.id r ≡ false)) (Due rest) js
        (λ r (d, miss). Due-tail job rest r (λ e same. ground (arith, eq_iff r.id job.id)) d)
        (All-zip (Due (job ∷ rest)) (λ r. pending_with job.id r ≡ false) js due
          (any-All (pending_with job.id) js unchanged))

  completed-Due :
      (job : EvidenceJob E) (rest : List (EvidenceJob E)) (now : String) (js : List (EvidenceJob E))
      → All (AtWork job rest) js
      → All (Due rest) (mark_evidence_job_completed job.id now js)
  unfolding mark_evidence_job_completed
  completed-Due job rest now js work =
      All-update_where (AtWork job rest) (Due rest) (has_id job.id) (done now) js
        (λ r (w, d) hit e. cc) (λ r (w, d) miss. d (λ e. ground (arith, eq_iff r.id job.id))) work

  pub retry-Due :
      (config : Config) (job : EvidenceJob E) (rest : List (EvidenceJob E)) (error : ErrorMessage)
      (now : String) (js : List (EvidenceJob E))
      → All (AtWork job rest) js
      → All (Due rest) (retry_or_fail config job error now js)
  unfolding retry_or_fail mark_evidence_job_retry
  retry-Due config job rest error now js work =
      All-update_where (AtWork job rest) (Due rest) (has_id job.id)
        (retried error (is_given_up config job js) now) js
        (λ r (w, d) hit e. inl (w (ground (arith, eq_iff r.id job.id))))
        (λ r (w, d) miss. d (λ e. ground (arith, eq_iff r.id job.id))) work

  pub settle-Due :
      (config : Config) (job : EvidenceJob E) (rest : List (EvidenceJob E)) (answer : Answer)
      (now : String) (js : List (EvidenceJob E))
      → All (AtWork job rest) js
      → All (Due rest) (settle config job answer now js).jobs
  unfolding settle
  settle-Due config job rest (Answer.summary n) now js work =
      if_cases {A = Progress E} (λ p. All (Due rest) p.jobs) (ltb 0 n)
        {x = record {
          jobs = retry_or_fail config job (retryable_failures n) now js;
          completed = [];
          now = now;
        }}
        {y = record {
          jobs = mark_evidence_job_completed job.id now js;
          completed = job.incident_id ∷ [];
          now = now;
        }}
        (λ _. retry-Due config job rest (retryable_failures n) now js work)
        (λ _. completed-Due job rest now js work)
  settle-Due config job rest (Answer.throws message) now js work =
      retry-Due config job rest (thrown message) now js work
