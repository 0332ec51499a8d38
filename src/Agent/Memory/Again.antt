-- ===== src/Agent/Memory/Again.antt =====
-- That approving twice is approving once.
use pi_ops.Base.{
  String, str_eq, eq_iff, true, Option, none, some, List, [], ◌∷◌, find, ◌≡◌, ◌≢◌, refl, sym, ap,
  subst, ◌∙◌, arith, Bool-cases, inl, inr,
}
use pi_ops.Base.Search.{find-Memᴰ}
use pi_ops.Agent.Memory.{
  Memory, MemoryCandidate, MemoryEntry, MemoryCandidateStatus, approved, rejected, pending, returns,
  get_memory_candidate, update_memory_candidate_status, get_memory_entry_by_candidate_id,
  insert_memory_entry, entry_of, inserted, approve_new, approve_unless, approve_candidate, required,
  approve,
}
use pi_ops.Agent.Memory.Laws.{insert-some}

-- The candidate that the id leads to is approved, and has this entry.
abbrev Settled : String → Memory → MemoryEntry → Type 0
Settled id m entry =
    (c : MemoryCandidate) × (get_memory_candidate id m.candidates ≡ some c)
    × (c.status ≢ rejected)
    × (get_memory_entry_by_candidate_id c.id m.entries ≡ some entry)

Settled-status :
    (later : String) (c : MemoryCandidate) (m : Memory) (entry : MemoryEntry)
    (s : MemoryCandidateStatus)
    → s ≢ rejected
    → get_memory_entry_by_candidate_id c.id m.entries ≡ some entry
    → approve_candidate later c m s ≡ (m, returns entry)
unfolding approve_candidate approve_unless
Settled-status later c m entry rejected fine e = absurd (fine refl)
Settled-status later c m entry pending fine e = rw e refl
Settled-status later c m entry approved fine e = rw e refl

Settled-approve :
    (later id : String) (m : Memory) (entry : MemoryEntry)
    → Settled id m entry
    → approve later id m ≡ (m, returns entry)
unfolding approve required
Settled-approve later id m entry (c, found, fine, has) =
    rw found (Settled-status later c m entry c.status fine has)

get-approved :
    (id : String) (cs : List MemoryCandidate) (c : MemoryCandidate)
    → get_memory_candidate id cs ≡ some c
    → (d : MemoryCandidate) × (get_memory_candidate id
          (update_memory_candidate_status id approved cs)
        ≡ some d)
      × (d.id ≡ id)
      × (d.status ≡ approved)
unfolding get_memory_candidate update_memory_candidate_status
get-approved id [] c e = cc
get-approved id (b ∷ cs) c e = elim (Bool-cases (str_eq b.id id)) [
  | inl hit ↦ (record b { status = approved }, rw hit (rw hit refl), (eq_iff b.id id).0 hit, refl)
  | inr miss ↦
      let (d, found, same, ok) = get-approved id cs c (ground arith) in
      (d, rw miss (rw miss found), same, ok)
]

inserted-Settled :
    (c : MemoryCandidate) (entry : MemoryEntry) (m : Memory) (o : Option (List MemoryEntry))
    (m' : Memory) (e : MemoryEntry)
    → insert_memory_entry entry m.entries ≡ o
    → entry.source_memory_candidate_id ≡ c.id
    → inserted entry m o ≡ (m', returns e)
    → (m'.candidates ≡ m.candidates) × (get_memory_entry_by_candidate_id c.id m'.entries ≡ some e)
unfolding inserted get_memory_entry_by_candidate_id
inserted-Settled c entry m none m' e h own k = cc
inserted-Settled c entry m (some es) m' e h own k =
    let new : es ≡ entry ∷ m.entries = insert-some entry m.entries es h in
    let kept : m.candidates ≡ m'.candidates = cc k in
    let table : es ≡ m'.entries = cc k in
    let same : entry ≡ e = cc k in
    let hit : str_eq entry.source_memory_candidate_id c.id ≡ true = (eq_iff _ _).1 own in
    (
      sym kept,
      subst (λ x. find (λ y. str_eq y.source_memory_candidate_id c.id) x ≡ some e) (sym new ∙ table)
          (rw hit (ap some same)),
    )

found_as :
    (now id : String) (c : MemoryCandidate) (m : Memory)
    → get_memory_candidate id m.candidates ≡ some c
    → find (λ c. str_eq c.id id) m.candidates ≡ some c
unfolding get_memory_candidate
found_as now id c m e = e

source_of_entry :
    (now : String) (c : MemoryCandidate) → (entry_of now c).source_memory_candidate_id ≡ c.id
unfolding entry_of
source_of_entry now c = refl

approve_new-Settled :
    (now id : String) (c : MemoryCandidate) (m m' : Memory) (e : MemoryEntry)
    → get_memory_candidate id m.candidates ≡ some c
    → approve_new now c m ≡ (m', returns e)
    → Settled id m' e
unfolding approve_new
approve_new-Settled now id c m m' e found k =
    let (_, hit) = find-Memᴰ (λ c. str_eq c.id id) m.candidates (found_as now id c m found) in
    let own : c.id ≡ id = (eq_iff c.id id).0 hit in
    let (d, there, same, ok) = get-approved id m.candidates c found in
    let marked = record m {
      candidates = update_memory_candidate_status c.id approved m.candidates;
    } in
    let (kept, has) =
      inserted-Settled c (entry_of now c) marked
        (insert_memory_entry (entry_of now c) marked.entries) m' e refl (source_of_entry now c) k in
    (
      d,
      subst (λ cs. get_memory_candidate id cs ≡ some d)
          (ap (λ x. update_memory_candidate_status x approved m.candidates) (sym own) ∙ sym kept)
          there,
      (λ bad. cc (ok, bad)),
      subst (λ x. get_memory_entry_by_candidate_id x m'.entries ≡ some e) (own ∙ sym same) has,
    )

approve_unless-Settled :
    (now id : String) (c : MemoryCandidate) (m : Memory) (o : Option MemoryEntry) (m' : Memory)
    (e : MemoryEntry)
    → get_memory_candidate id m.candidates ≡ some c
    → c.status ≢ rejected
    → get_memory_entry_by_candidate_id c.id m.entries ≡ o
    → approve_unless now c m o ≡ (m', returns e)
    → Settled id m' e
unfolding approve_unless
approve_unless-Settled now id c m none m' e found fine none_yet k =
    approve_new-Settled now id c m m' e found k
approve_unless-Settled now id c m (some old) m' e found fine there k =
    let same : m ≡ m' = cc k in
    let entry : old ≡ e = cc k in
    (
      c,
      subst (λ x. get_memory_candidate id x.candidates ≡ some c) same found,
      fine,
      subst (λ x. get_memory_entry_by_candidate_id c.id x.entries ≡ some e) same
          (there ∙ ap some entry),
    )

approve_candidate-Settled :
    (now id : String) (c : MemoryCandidate) (m : Memory) (s : MemoryCandidateStatus) (m' : Memory)
    (e : MemoryEntry)
    → get_memory_candidate id m.candidates ≡ some c
    → c.status ≡ s
    → approve_candidate now c m s ≡ (m', returns e)
    → Settled id m' e
unfolding approve_candidate
approve_candidate-Settled now id c m rejected m' e found is k = cc k
approve_candidate-Settled now id c m pending m' e found is k =
    approve_unless-Settled now id c m _ m' e found (λ bad. cc (is, bad)) refl k
approve_candidate-Settled now id c m approved m' e found is k =
    approve_unless-Settled now id c m _ m' e found (λ bad. cc (is, bad)) refl k

required-Settled :
    (now id : String) (m : Memory) (o : Option MemoryCandidate) (m' : Memory) (e : MemoryEntry)
    → get_memory_candidate id m.candidates ≡ o
    → required id m o (λ c. approve_candidate now c m c.status) ≡ (m', returns e)
    → Settled id m' e
unfolding required
required-Settled now id m none m' e found k = cc k
required-Settled now id m (some c) m' e found k =
    approve_candidate-Settled now id c m c.status m' e found refl k

approve-Settled :
    (now id : String) (m m' : Memory) (entry : MemoryEntry)
    → approve now id m ≡ (m', returns entry)
    → Settled id m' entry
unfolding approve
approve-Settled now id m m' entry k =
    required-Settled now id m (get_memory_candidate id m.candidates) m' entry refl k

-- If a candidate's approval returns an entry, then approving it again, at any later time, changes
-- nothing and returns the same entry.
pub approve-again :
    (now later id : String) (m m' : Memory) (entry : MemoryEntry)
    → approve now id m ≡ (m', returns entry)
    → approve later id m' ≡ (m', returns entry)
approve-again now later id m m' entry k =
    Settled-approve later id m' entry (approve-Settled now id m m' entry k)
