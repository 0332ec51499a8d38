-- ===== src/Agent/Jobs.antt =====
-- apps/agent/src/store.ts: the table of evidence jobs, and the statements that change it.
--
-- A table is a list of its rows. A row keeps the event where the source keeps its JSON text, and the
-- message of the last error as data.
pub mod Worker
pub mod Keys
pub mod Attempts
pub mod Quiet
pub mod Good
pub mod History
pub mod Listing
pub mod Due
pub mod Loop
pub mod Completion
mod Tests
use mathlib.Core.Option
use pi_ops.Base.{
  not, ℕ, ◌+◌, String, str_eq, Bool, true, false, ◌&&◌, ◌||◌, Option, none, some, List, [], ◌∷◌,
  map, take, any, find, filter, if◌then◌else◌,
}
use pi_ops.Base.Order.{text_leb, sort_by}

pub data EvidenceJobState : Type 0 where
  pending running completed failed : EvidenceJobState

pub data ErrorMessage : Type 0 where
  retryable_failures : ℕ → ErrorMessage
  no_longer_exists thrown : String → ErrorMessage

pub record EvidenceJob {ℓ} (E : Type ℓ) : Type ℓ where
  pub id : String
  pub incident_id : String
  pub triggering_event : E
  pub state : EvidenceJobState
  pub attempts : ℕ
  pub generation : ℕ
  pub last_error : Option ErrorMessage
  pub created_at : String
  pub updated_at : String

abbrev pub is_pending : EvidenceJobState → Bool
is_pending pending = true
is_pending _ = false

abbrev pub is_running : EvidenceJobState → Bool
is_running running = true
is_running _ = false

abbrev pub is_final : EvidenceJobState → Bool
is_final completed = true
is_final failed = true
is_final _ = false

-- UPDATE ... WHERE: the table after it, and whether a row was changed.
abbrev pub update_where {ℓ} : {A : Type ℓ} → (A → Bool) → (A → A) → List A → List A × Bool
update_where p f rows = (map (λ r. if p r then f r else r) rows, any p rows)

module _ {ℓ} {E : Type ℓ} where
  -- INSERT, which fails on a key that is taken: the id, or the incident.
  unfoldable pub insert_evidence_job :
      (id incident_id : String)
      → E
      → (now : String) → List (EvidenceJob E)
      → Option (List (EvidenceJob E))
  insert_evidence_job id incident_id event now jobs =
      if any (λ j. str_eq j.id id || str_eq j.incident_id incident_id) jobs
      then none
      else some (
          record {
            id = id;
            incident_id = incident_id;
            triggering_event = event;
            state = pending;
            attempts = 0;
            generation = 1;
            last_error = none;
            created_at = now;
            updated_at = now;
          }
          ∷ jobs)

  -- The conditions of the updates, and what they set.
  abbrev pub has_id : String → EvidenceJob E → Bool
  has_id id j = str_eq j.id id

  abbrev pub pending_with : String → EvidenceJob E → Bool
  pending_with id j = str_eq j.id id && is_pending j.state

  abbrev pub final_of : String → EvidenceJob E → Bool
  final_of incident_id j = str_eq j.incident_id incident_id && is_final j.state

  abbrev pub requeued : E → (now : String) → EvidenceJob E → EvidenceJob E
  requeued event now j = record j {
    state = pending;
    triggering_event = event;
    attempts = 0;
    generation = j.generation + 1;
    last_error = none;
    updated_at = now;
  }

  abbrev pub begun : (now : String) → EvidenceJob E → EvidenceJob E
  begun now j = record j { state = running; attempts = j.attempts + 1; updated_at = now }

  abbrev pub done : (now : String) → EvidenceJob E → EvidenceJob E
  done now j = record j { state = completed; last_error = none; updated_at = now }

  abbrev pub retried :
      ErrorMessage → (is_failed : Bool) → (now : String) → EvidenceJob E → EvidenceJob E
  retried error is_failed now j = record j {
    state = (if is_failed then failed else pending);
    last_error = some error;
    updated_at = now;
  }

  abbrev pub put_back : (now : String) → EvidenceJob E → EvidenceJob E
  put_back now j = record j { state = pending; updated_at = now }

  unfoldable pub requeue_evidence_job :
      (incident_id : String)
      → E
      → (now : String) → List (EvidenceJob E)
      → List (EvidenceJob E) × Bool
  requeue_evidence_job incident_id event now =
      update_where (final_of incident_id) (requeued event now)

  -- ORDER BY created_at, id.
  unfoldable pub listed_before : EvidenceJob E → EvidenceJob E → Bool
  listed_before a b =
      text_leb a.created_at b.created_at
      && (not (str_eq a.created_at b.created_at) || text_leb a.id b.id)

  unfoldable pub list_pending_evidence_jobs : ℕ → List (EvidenceJob E) → List (EvidenceJob E)
  list_pending_evidence_jobs limit jobs =
      take limit (sort_by listed_before (filter (λ j. is_pending j.state) jobs))

  unfoldable pub mark_evidence_job_running :
      (id now : String) → List (EvidenceJob E) → List (EvidenceJob E) × Bool
  mark_evidence_job_running id now = update_where (pending_with id) (begun now)

  unfoldable pub mark_evidence_job_completed :
      (id now : String) → List (EvidenceJob E) → List (EvidenceJob E)
  mark_evidence_job_completed id now jobs = (update_where (has_id id) (done now) jobs).0

  unfoldable pub mark_evidence_job_retry :
      (id : String) (error : ErrorMessage) (is_failed : Bool) (now : String)
      → List (EvidenceJob E)
      → List (EvidenceJob E)
  mark_evidence_job_retry id error is_failed now jobs =
      (update_where (has_id id) (retried error is_failed now) jobs).0

  unfoldable pub reset_running_evidence_jobs :
      (now : String) → List (EvidenceJob E) → List (EvidenceJob E)
  reset_running_evidence_jobs now jobs =
      (update_where (λ j. is_running j.state) (put_back now) jobs).0

  unfoldable pub get_evidence_job : (id : String) → List (EvidenceJob E) → Option (EvidenceJob E)
  get_evidence_job id = find (has_id id)
