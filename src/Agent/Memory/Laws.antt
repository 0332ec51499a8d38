-- ===== src/Agent/Memory/Laws.antt =====
-- What approval promises: no entry without an approved candidate, and one entry for each.
use pi_ops.Base.{
  String, str_eq, eq_iff, false, Option, none, some, List, [], ◌∷◌, All, ◌≡◌, ◌≢◌, refl, sym, subst,
  ◌∙◌, arith, if_cases,
}
use pi_ops.Base.Search.{All-map, All-zip, find-All}
use pi_ops.Agent.Memory.{
  Memory, MemoryCandidate, MemoryEntry, MemoryCandidateStatus, approved, rejected, pending,
  disabled, Answer, get_memory_candidate, update_memory_candidate_status, get_memory_entry,
  get_memory_entry_by_candidate_id, insert_memory_entry, update_memory_entry_status, entry_of,
  inserted, approve_new, approve_unless, approve_candidate, required, approve, reject_unless,
  reject, disable_found, disable,
}

-- Every candidate row with this id is approved.
abbrev pub Backed : String → List MemoryCandidate → Type 0
Backed id cs = All (λ c. c.id ≡ id → c.status ≡ approved) cs

-- Every entry has an approved candidate.
abbrev pub Governed : Memory → Type 0
Governed m = All (λ e. Backed e.source_memory_candidate_id m.candidates) m.entries

approve-Backed :
    (id other : String) (cs : List MemoryCandidate)
    → Backed other cs
    → Backed other (update_memory_candidate_status id approved cs)
unfolding update_memory_candidate_status
approve-Backed id other [] h = tt
approve-Backed id other (c ∷ cs) (h, hs) = (
  if_cases {A = MemoryCandidate} (λ d. d.id ≡ other → d.status ≡ approved) (str_eq c.id id)
      {x = record c { status = approved }} {y = c} (λ _ _. refl) (λ _. h),
  approve-Backed id other cs hs,
)

approve-Backed_own :
    (id : String) (cs : List MemoryCandidate)
    → Backed id (update_memory_candidate_status id approved cs)
unfolding update_memory_candidate_status
approve-Backed_own id [] = tt
approve-Backed_own id (c ∷ cs) = (
  if_cases {A = MemoryCandidate} (λ d. d.id ≡ id → d.status ≡ approved) (str_eq c.id id)
      {x = record c { status = approved }} {y = c} (λ _ _. refl)
      (λ miss e. absurd (ground (arith, eq_iff c.id id))),
  approve-Backed_own id cs,
)

reject-Backed :
    (id other : String) (cs : List MemoryCandidate)
    → id ≢ other
    → Backed other cs
    → Backed other (update_memory_candidate_status id rejected cs)
unfolding update_memory_candidate_status
reject-Backed id other [] ne h = tt
reject-Backed id other (c ∷ cs) ne (h, hs) = (
  if_cases {A = MemoryCandidate} (λ d. d.id ≡ other → d.status ≡ approved) (str_eq c.id id)
      {x = record c { status = rejected }} {y = c}
      (λ hit e. absurd (ne (sym ((eq_iff c.id id).0 hit) ∙ e))) (λ _. h),
  reject-Backed id other cs ne hs,
)

pub insert-some :
    (entry : MemoryEntry) (es es' : List MemoryEntry)
    → insert_memory_entry entry es ≡ some es'
    → es' ≡ entry ∷ es
unfolding insert_memory_entry
insert-some entry es es' e = ground arith

inserted-Governed :
    (entry : MemoryEntry) (m : Memory) (o : Option (List MemoryEntry))
    → insert_memory_entry entry m.entries ≡ o
    → Backed entry.source_memory_candidate_id m.candidates
    → Governed m
    → Governed (inserted entry m o).0
unfolding inserted
inserted-Governed entry m none e own g = g
inserted-Governed entry m (some entries) e own g =
    subst (λ es. Governed (record m { entries = es })) (sym (insert-some entry m.entries entries e))
      (own, g)

approve_new-Governed :
    (now : String) (c : MemoryCandidate) (m : Memory)
    → Governed m
    → Governed (approve_new now c m).0
unfolding approve_new entry_of
approve_new-Governed now c m g =
    let marked = record m {
      candidates = update_memory_candidate_status c.id approved m.candidates;
    } in
    inserted-Governed (entry_of now c) marked (insert_memory_entry (entry_of now c) marked.entries)
      refl (approve-Backed_own c.id m.candidates)
      (All-map (λ e. Backed e.source_memory_candidate_id m.candidates)
        (λ e. Backed e.source_memory_candidate_id marked.candidates) m.entries
        (λ e h. approve-Backed c.id e.source_memory_candidate_id m.candidates h) g)

approve_unless-Governed :
    (now : String) (c : MemoryCandidate) (m : Memory) (o : Option MemoryEntry)
    → Governed m
    → Governed (approve_unless now c m o).0
unfolding approve_unless
approve_unless-Governed now c m none g = approve_new-Governed now c m g
approve_unless-Governed now c m (some e) g = g

approve_candidate-Governed :
    (now : String) (c : MemoryCandidate) (m : Memory) (s : MemoryCandidateStatus)
    → Governed m
    → Governed (approve_candidate now c m s).0
unfolding approve_candidate
approve_candidate-Governed now c m rejected g = g
approve_candidate-Governed now c m pending g = approve_unless-Governed now c m _ g
approve_candidate-Governed now c m approved g = approve_unless-Governed now c m _ g

required-Governed :
    {A : Type 0} (id : String) (m : Memory) (o : Option MemoryCandidate)
    (f : MemoryCandidate → Memory × Answer A)
    → Governed m
    → ((c : MemoryCandidate) → Governed (f c).0)
    → Governed (required id m o f).0
unfolding required
required-Governed id m none f g h = g
required-Governed id m (some c) f g h = h c

reject_unless-Governed :
    (c : MemoryCandidate) (m : Memory) (o : Option MemoryEntry)
    → get_memory_entry_by_candidate_id c.id m.entries ≡ o
    → Governed m
    → Governed (reject_unless c m o).0
unfolding reject_unless get_memory_entry_by_candidate_id
reject_unless-Governed c m (some e) h g = g
reject_unless-Governed c m none h g =
    let unused = find-All (λ e. str_eq e.source_memory_candidate_id c.id) m.entries h in
    All-map
      (λ e.
        Backed e.source_memory_candidate_id m.candidates
        × (str_eq e.source_memory_candidate_id c.id ≡ false))
      (λ e.
        Backed e.source_memory_candidate_id
          (update_memory_candidate_status c.id rejected m.candidates))
      m.entries
      (λ e (b, miss).
        reject-Backed c.id e.source_memory_candidate_id m.candidates
          (λ same. ground (arith, eq_iff e.source_memory_candidate_id c.id)) b)
      (All-zip _ _ m.entries g unused)

disable-Backed :
    (id : String) (cs : List MemoryCandidate) (es : List MemoryEntry)
    → All (λ e. Backed e.source_memory_candidate_id cs) es
    → All (λ e. Backed e.source_memory_candidate_id cs) (update_memory_entry_status id disabled es)
unfolding update_memory_entry_status
disable-Backed id cs [] g = tt
disable-Backed id cs (e ∷ es) (h, hs) = (
  if_cases {A = MemoryEntry} (λ d. Backed d.source_memory_candidate_id cs) (str_eq e.id id)
      {x = record e { status = disabled }} {y = e} (λ _. h) (λ _. h),
  disable-Backed id cs es hs,
)

disable_found-Governed :
    (id : String) (m : Memory) (o : Option MemoryEntry)
    → Governed m
    → Governed (disable_found id m o).0
unfolding disable_found
disable_found-Governed id m none g = g
disable_found-Governed id m (some e) g = disable-Backed e.id m.candidates m.entries g

-- The operations of the service.
pub data Operation : Type 0 where
  approves : (now id : String) → Operation
  rejects disables : (id : String) → Operation

unfoldable pub operate : Operation → Memory → Memory
operate (approves now id) m = (approve now id m).0
operate (rejects id) m = (reject id m).0
operate (disables id) m = (disable id m).0

unfoldable pub operate_each : List Operation → Memory → Memory
operate_each [] m = m
operate_each (o ∷ os) m = operate_each os (operate o m)

operate-Governed : (o : Operation) (m : Memory) → Governed m → Governed (operate o m)
unfolding operate approve reject disable
operate-Governed (approves now id) m g =
    required-Governed id m (get_memory_candidate id m.candidates) _ g
      (λ c. approve_candidate-Governed now c m c.status g)
operate-Governed (rejects id) m g =
    required-Governed id m (get_memory_candidate id m.candidates) _ g
      (λ c. reject_unless-Governed c m (get_memory_entry_by_candidate_id c.id m.entries) refl g)
operate-Governed (disables id) m g = disable_found-Governed id m (get_memory_entry id m.entries) g

-- Whatever is approved, rejected and disabled, in any order and with every error on the way: if each
-- memory entry's candidate is approved at first, so it is at the end.
pub operate_each-Governed :
    (os : List Operation) (m : Memory) → Governed m → Governed (operate_each os m)
unfolding operate_each
operate_each-Governed [] m g = g
operate_each-Governed (o ∷ os) m g = operate_each-Governed os (operate o m) (operate-Governed o m g)
