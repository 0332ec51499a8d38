-- ===== src/Agent/Jobs/Tests.antt =====
-- Drains of concrete tables.
use pi_ops.Base.{ℕ, String, List, [], ◌∷◌, ◌≡◌, refl, Option, none, some, All}
use pi_ops.Base.Order.{sort_by, text_leb}
use pi_ops.Agent.Jobs.{
  EvidenceJob, pending, failed, listed_before, list_pending_evidence_jobs,
  mark_evidence_job_running, mark_evidence_job_retry, get_evidence_job,
}
use pi_ops.Agent.Jobs.Worker.{
  Config, Collection, Answer, Request, drain, drain_from, work, attempt, settle, retry_or_fail,
  serve_all, attempts_of,
}
use pi_ops.Agent.Jobs.Good.{Good}
use pi_ops.Agent.Jobs.Quiet.{Quiet, drain-Quiet}
use pi_ops.Agent.Jobs.History.{Round}
use pi_ops.Agent.Jobs.Completion.{drain_each}

abbrev config : Config
config = record { evidence_job_batch_size = 10; evidence_job_max_attempts = 2 }

abbrev job : String → String → EvidenceJob ℕ
job id at = record {
  id = id;
  incident_id = id;
  triggering_event = 7;
  state = pending;
  attempts = 0;
  generation = 1;
  last_error = none;
  created_at = at;
  updated_at = at;
}

abbrev table : List (EvidenceJob ℕ)
table = job "b" "2026-01-02" ∷ job "a" "2026-01-01" ∷ []

abbrev known_incident : String → Option ℕ
known_incident id = some 1

-- Every collection fails in a way that may be tried again.
abbrev failing : ℕ → ℕ → String → Collection ℕ
failing incident event id = record {
  answer = Answer.summary 1;
  requests = [];
  ended_at = "2026-01-03";
}

abbrev rounds : List (Round ℕ ℕ)
rounds =
    Round.serves (Request.creates "a" "i" 7 "2026-01-01")
    ∷ Round.drains known_incident failing "2026-01-02"
    ∷ Round.restarts "2026-01-04"
    ∷ Round.serves (Request.requeues "i" 8 "2026-01-05")
    ∷ []

one_drain :
    let js = (drain config known_incident failing "2026-01-03" table).jobs in
    All (λ j. (j.state ≡ pending) × (j.attempts ≡ 1)) js
unfolding drain drain_from work attempt settle retry_or_fail serve_all attempts_of
    list_pending_evidence_jobs mark_evidence_job_running mark_evidence_job_retry get_evidence_job
    sort_by listed_before text_leb
one_drain = ((refl, refl), ((refl, refl), tt))

two_drains :
    let js = drain_each config known_incident failing ("2026-01-03" ∷ "2026-01-04" ∷ []) table in
    All (λ j. (j.state ≡ failed) × (j.attempts ≡ 2)) js
unfolding drain_each drain drain_from work attempt settle retry_or_fail serve_all attempts_of
    list_pending_evidence_jobs mark_evidence_job_running mark_evidence_job_retry get_evidence_job
    sort_by listed_before text_leb
two_drains = ((refl, refl), ((refl, refl), tt))

table-Quiet : Quiet table
table-Quiet = ((λ e. cc), ((λ e. cc), tt))

drain-Quiet_example : Quiet (drain config known_incident failing "2026-01-03" table).jobs
drain-Quiet_example = drain-Quiet config known_incident failing "2026-01-03" table table-Quiet
