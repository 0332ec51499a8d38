-- ===== src/Agent/Reasoning.antt =====
-- apps/agent/src/store.ts: the table of reasoning jobs, and the statements that change it.
use pi_ops.Base.{
  ℕ, ◌+◌, String, str_eq, Bool, true, false, not, ◌&&◌, ◌||◌, Option, none, some, List, ◌∷◌, take,
  any, find, filter, if◌then◌else◌,
}
use pi_ops.Base.Order.{text_leb, sort_by}
use pi_ops.Agent.Jobs.{update_where}

pub data ReasoningJobStatus : Type 0 where
  pending running completed failed waiting_delegation : ReasoningJobStatus

pub record ReasoningJob : Type 0 where
  pub id : String
  pub incident_id : String
  pub reasoner_type : String
  pub reasoner_version : String
  pub status : ReasoningJobStatus
  pub attempts : ℕ
  pub last_error : Option String
  pub created_at : String
  pub updated_at : String

abbrev pub is_pending : ReasoningJobStatus → Bool
is_pending pending = true
is_pending _ = false

abbrev pub is_running : ReasoningJobStatus → Bool
is_running running = true
is_running _ = false

abbrev pub has_id : String → ReasoningJob → Bool
has_id id j = str_eq j.id id

-- INSERT OR IGNORE, on a new id only.
unfoldable pub create_reasoning_job :
    (id incident_id reasoner_type reasoner_version created_at : String)
    → List ReasoningJob
    → List ReasoningJob
create_reasoning_job id incident_id reasoner_type reasoner_version created_at jobs =
    if any (has_id id) jobs
    then jobs
    else record {
      id = id;
      incident_id = incident_id;
      reasoner_type = reasoner_type;
      reasoner_version = reasoner_version;
      status = pending;
      attempts = 0;
      last_error = none;
      created_at = created_at;
      updated_at = created_at;
    }
      ∷ jobs

-- ORDER BY created_at, id.
unfoldable pub listed_before : ReasoningJob → ReasoningJob → Bool
listed_before a b =
    text_leb a.created_at b.created_at
    && (not (str_eq a.created_at b.created_at) || text_leb a.id b.id)

unfoldable pub list_pending_reasoning_jobs : (limit : ℕ) → List ReasoningJob → List ReasoningJob
list_pending_reasoning_jobs limit jobs =
    take limit (sort_by listed_before (filter (λ j. is_pending j.status) jobs))

abbrev pub pending_with : String → ReasoningJob → Bool
pending_with id j = str_eq j.id id && is_pending j.status

abbrev pub begun : (now : String) → ReasoningJob → ReasoningJob
begun now j = record j { status = running; attempts = j.attempts + 1; updated_at = now }

unfoldable pub mark_reasoning_job_running :
    (id now : String) → List ReasoningJob → List ReasoningJob × Bool
mark_reasoning_job_running id now = update_where (pending_with id) (begun now)

abbrev pub done : (now : String) → ReasoningJob → ReasoningJob
done now j = record j { status = completed; last_error = none; updated_at = now }

unfoldable pub mark_reasoning_job_completed :
    (id now : String) → List ReasoningJob → List ReasoningJob
mark_reasoning_job_completed id now jobs = (update_where (has_id id) (done now) jobs).0

abbrev pub gone_wrong : (error now : String) → ReasoningJob → ReasoningJob
gone_wrong error now j = record j { status = failed; last_error = some error; updated_at = now }

unfoldable pub mark_reasoning_job_failed :
    (id error now : String) → List ReasoningJob → List ReasoningJob
mark_reasoning_job_failed id error now jobs =
    (update_where (has_id id) (gone_wrong error now) jobs).0

abbrev pub put_back : (now : String) → ReasoningJob → ReasoningJob
put_back now j = record j { status = pending; updated_at = now }

unfoldable pub reset_running_reasoning_jobs : (now : String) → List ReasoningJob → List ReasoningJob
reset_running_reasoning_jobs now jobs =
    (update_where (λ j. is_running j.status) (put_back now) jobs).0

abbrev pub get_reasoning_job : (id : String) → List ReasoningJob → Option ReasoningJob
get_reasoning_job id = find (has_id id)
