-- ===== src/Agent/Memory/Tests.antt =====
-- The life of a concrete candidate.
use pi_ops.Base.{[], ◌∷◌, ◌≡◌, refl}
use pi_ops.Agent.Memory.{
  Memory, MemoryCandidate, MemoryEntry, MemoryCandidateStatus, returns, has_entry,
  get_memory_candidate, update_memory_candidate_status, get_memory_entry_by_candidate_id,
  insert_memory_entry, entry_of, inserted, approve_new, approve_unless, approve_candidate, required,
  approve, reject, reject_unless,
}
use pi_ops.Agent.Memory.Laws.{Governed, Operation, operate_each, operate_each-Governed}
use pi_ops.Agent.Memory.Again.{approve-again}

abbrev candidate : MemoryCandidateStatus → MemoryCandidate
candidate status = record {
  id = "c1";
  source_reasoning_result_id = "r1";
  source_evaluation_id = "v1";
  incident_type = "jvm.oom";
  pattern = "heap";
  evidence_summary = "logs";
  conclusion = "leak";
  resolution = "restart";
  confidence = "0.9";
  status = status;
  created_at = "2026-01-01";
}

abbrev before : Memory
before = record { candidates = candidate MemoryCandidateStatus.pending ∷ []; entries = [] }

abbrev entry : MemoryEntry
entry = entry_of "2026-01-02" (candidate MemoryCandidateStatus.pending)

abbrev after : Memory
after = record { candidates = candidate MemoryCandidateStatus.approved ∷ []; entries = entry ∷ [] }

approves_once : approve "2026-01-02" "c1" before ≡ (after, returns entry)
unfolding approve required get_memory_candidate approve_candidate approve_unless approve_new
    get_memory_entry_by_candidate_id insert_memory_entry inserted update_memory_candidate_status
approves_once = refl

rejects_no_more : (reject "c1" after).1 ≡ has_entry "c1"
unfolding reject required get_memory_candidate reject_unless get_memory_entry_by_candidate_id
    entry_of
rejects_no_more = refl

operate_each-Governed_example :
    Governed
      (operate_each (Operation.approves "2026-01-02" "c1" ∷ Operation.rejects "c1" ∷ []) before)
operate_each-Governed_example =
    operate_each-Governed (Operation.approves "2026-01-02" "c1" ∷ Operation.rejects "c1" ∷ [])
      before tt

approve-again_example : approve "2026-01-03" "c1" after ≡ (after, returns entry)
approve-again_example =
    approve-again "2026-01-02" "2026-01-03" "c1" before after entry approves_once
