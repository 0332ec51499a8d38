-- ===== src/Agent/Memory.antt =====
-- apps/agent/src/memory-governance.ts, with the statements of store.ts on its two tables.
--
-- The calls run one after the other outside a transaction, so an operation that throws keeps what
-- it wrote before: each returns the tables with its result. A confidence is held as its JSON text.
pub mod Laws
pub mod Again
mod Tests
use pi_ops.Base.{
  String, str_eq, Bool, true, false, ◌||◌, Option, none, some, List, [], ◌∷◌, map, any, find,
  if◌then◌else◌,
}
use pi_ops.Base.Text.{template}

pub data MemoryCandidateStatus : Type 0 where
  pending approved rejected : MemoryCandidateStatus

pub data MemoryEntryStatus : Type 0 where
  active disabled : MemoryEntryStatus

pub record MemoryCandidate : Type 0 where
  pub id : String
  pub source_reasoning_result_id : String
  pub source_evaluation_id : String
  pub incident_type : String
  pub pattern : String
  pub evidence_summary : String
  pub conclusion : String
  pub resolution : String
  pub confidence : String
  pub status : MemoryCandidateStatus
  pub created_at : String

pub record MemoryEntry : Type 0 where
  pub id : String
  pub source_memory_candidate_id : String
  pub source_evaluation_id : String
  pub pattern : String
  pub evidence_summary : String
  pub conclusion : String
  pub resolution : String
  pub confidence : String
  pub status : MemoryEntryStatus
  pub created_at : String
  pub approved_at : String

pub record Memory : Type 0 where
  pub candidates : List MemoryCandidate
  pub entries : List MemoryEntry

pub data Answer {ℓ} (A : Type ℓ) : Type ℓ where
  returns : A → Answer A
  no_candidate no_entry is_rejected has_entry key_taken : (id : String) → Answer A

unfoldable pub get_memory_candidate : String → List MemoryCandidate → Option MemoryCandidate
get_memory_candidate id = find (λ c. str_eq c.id id)

abbrev pub with_status : String → MemoryCandidateStatus → MemoryCandidate → MemoryCandidate
with_status id status c = if str_eq c.id id then record c { status = status } else c

unfoldable pub update_memory_candidate_status :
    String → MemoryCandidateStatus → List MemoryCandidate → List MemoryCandidate
update_memory_candidate_status id status = map (with_status id status)

unfoldable pub get_memory_entry : String → List MemoryEntry → Option MemoryEntry
get_memory_entry id = find (λ e. str_eq e.id id)

unfoldable pub get_memory_entry_by_candidate_id : String → List MemoryEntry → Option MemoryEntry
get_memory_entry_by_candidate_id id = find (λ e. str_eq e.source_memory_candidate_id id)

-- INSERT, which fails on a key that is taken: the id, or the candidate.
unfoldable pub insert_memory_entry : MemoryEntry → List MemoryEntry → Option (List MemoryEntry)
insert_memory_entry entry entries =
    if any
      (λ e.
        str_eq e.id entry.id
        || str_eq e.source_memory_candidate_id entry.source_memory_candidate_id)
      entries
    then none
    else some (entry ∷ entries)

abbrev pub entry_with_status : String → MemoryEntryStatus → MemoryEntry → MemoryEntry
entry_with_status id status e = if str_eq e.id id then record e { status = status } else e

unfoldable pub update_memory_entry_status :
    String → MemoryEntryStatus → List MemoryEntry → List MemoryEntry
update_memory_entry_status id status = map (entry_with_status id status)

unfoldable pub entry_of : (approved_at : String) → MemoryCandidate → MemoryEntry
entry_of approved_at candidate = record {
  id = template ("mentry-" ∷ candidate.id ∷ []);
  source_memory_candidate_id = candidate.id;
  source_evaluation_id = candidate.source_evaluation_id;
  pattern = candidate.pattern;
  evidence_summary = candidate.evidence_summary;
  conclusion = candidate.conclusion;
  resolution = candidate.resolution;
  confidence = candidate.confidence;
  status = active;
  created_at = candidate.created_at;
  approved_at = approved_at;
}

-- The steps of `approve`, from the last to the first.
unfoldable pub inserted :
    MemoryEntry → Memory → Option (List MemoryEntry) → Memory × Answer MemoryEntry
inserted entry m none = (m, key_taken entry.id)
inserted entry m (some entries) = (record m { entries = entries }, returns entry)

unfoldable pub approve_new : (now : String) → MemoryCandidate → Memory → Memory × Answer MemoryEntry
approve_new now candidate m =
    let marked = record m {
      candidates = update_memory_candidate_status candidate.id approved m.candidates;
    } in
    let entry = entry_of now candidate in
    inserted entry marked (insert_memory_entry entry marked.entries)

unfoldable pub approve_unless :
    (now : String) → MemoryCandidate → Memory → Option MemoryEntry → Memory × Answer MemoryEntry
approve_unless now candidate m (some existing) = (m, returns existing)
approve_unless now candidate m none = approve_new now candidate m

unfoldable pub approve_candidate :
    (now : String) → MemoryCandidate → Memory → MemoryCandidateStatus → Memory × Answer MemoryEntry
approve_candidate now candidate m rejected = (m, is_rejected candidate.id)
approve_candidate now candidate m _ =
    approve_unless now candidate m (get_memory_entry_by_candidate_id candidate.id m.entries)

-- `requireCandidate` before the rest.
unfoldable pub required :
    {A : Type 0}
    → (id : String) → Memory
    → Option MemoryCandidate
    → (MemoryCandidate → Memory × Answer A)
    → Memory × Answer A
required id m none f = (m, no_candidate id)
required id m (some candidate) f = f candidate

unfoldable pub approve : (now candidate_id : String) → Memory → Memory × Answer MemoryEntry
approve now candidate_id m =
    required candidate_id m (get_memory_candidate candidate_id m.candidates)
      (λ c. approve_candidate now c m c.status)

-- `getMemoryCandidate(id)!` and `getMemoryEntry(id)!`, whose row was there before the update.
abbrev or_default {ℓ} : {A : Type ℓ} → Option A → A → A
or_default none a = a
or_default (some b) a = b

unfoldable pub reject_unless :
    MemoryCandidate → Memory → Option MemoryEntry → Memory × Answer MemoryCandidate
reject_unless candidate m (some entry) = (m, has_entry candidate.id)
reject_unless candidate m none =
    let candidates = update_memory_candidate_status candidate.id rejected m.candidates in
    (
      record m { candidates = candidates },
      returns (or_default (get_memory_candidate candidate.id candidates) candidate),
    )

unfoldable pub reject : (candidate_id : String) → Memory → Memory × Answer MemoryCandidate
reject candidate_id m =
    required candidate_id m (get_memory_candidate candidate_id m.candidates)
      (λ c. reject_unless c m (get_memory_entry_by_candidate_id c.id m.entries))

unfoldable pub disable_found : String → Memory → Option MemoryEntry → Memory × Answer MemoryEntry
disable_found entry_id m none = (m, no_entry entry_id)
disable_found entry_id m (some entry) =
    let entries = update_memory_entry_status entry.id disabled m.entries in
    (record m { entries = entries }, returns (or_default (get_memory_entry entry.id entries) entry))

unfoldable pub disable : (entry_id : String) → Memory → Memory × Answer MemoryEntry
disable entry_id m = disable_found entry_id m (get_memory_entry entry_id m.entries)
