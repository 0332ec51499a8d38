-- ===== src/Agent/Events/Marks.antt =====
-- What `processBatch` marks as processed, event by event.
use pi_ops.Base.{
  ◌+◌, ◌≤◌, String, eq_refl, Bool, true, false, List, [], ◌∷◌, ◌≡◌, refl, sym, arith, All,
  Bool-cases, inl, inr, subst, length, ◌∙◌, if◌then◌else◌,
}
use pi_ops.Agent.Events.{
  OpsEvent, Mark, Counts, Outcome, ok, then_do, is_processed, mark_event_processed, one_if,
  process_one, process_all, finish_event,
}
use pi_ops.Agent.Events.Rows.{then_do-ok, ok_inj}

-- The event is marked.
abbrev pub Processed : List Mark → OpsEvent → Type 0
Processed marks event = is_processed event.id marks ≡ true

abbrev mark_of : String → String → Mark
mark_of id now = record { event_id = id; incident_processed_at = now }

mark_new :
    (id now : String) (marks : List Mark)
    → is_processed id marks ≡ false
    → mark_event_processed id now marks ≡ (mark_of id now ∷ marks, true)
unfolding mark_event_processed
mark_new id now marks new = rw new refl

mark_of-Processed :
    (event : OpsEvent) (now : String) (marks : List Mark)
    → Processed (mark_of event.id now ∷ marks) event
unfolding is_processed
mark_of-Processed event now marks = rw (eq_refl event.id) refl

mark_of-keeps :
    (id now : String) (marks : List Mark) (e : OpsEvent)
    → Processed marks e
    → Processed (mark_of id now ∷ marks) e
unfolding is_processed
mark_of-keeps id now marks e h = ground arith

one_if_le : (b : Bool) → one_if b ≤ 1
one_if_le b = ground arith

module _ {ℓ} {S : Type ℓ} (process_event : OpsEvent → S → Outcome (S × Bool)) (now : String) where
  -- The marks that are kept, and how many are added.
  abbrev pub Kept : List Mark → (S × List Mark) × Counts → Type 0
  Kept marks ((s, marks'), counts) =
      ((e : OpsEvent) → Processed marks e → Processed marks' e)
      × ((length marks' ≡ length marks + counts.processed)
          × (counts.created_incidents ≤ counts.processed))

  finish-ok :
      (event : OpsEvent) (marks : List Mark) (s : S) (is_new : Bool)
      → is_processed event.id marks ≡ false
      → finish_event now event marks (s, is_new)
        ≡ ok (
          (s, mark_of event.id now ∷ marks),
          record { processed = 1; created_incidents = one_if is_new },
        )
  unfolding finish_event
  finish-ok event marks s is_new new = rw (mark_new event.id now marks new) refl

  -- An event that is taken up: marked once, the marks kept.
  finish-Kept :
      (event : OpsEvent) (marks : List Mark) (r : S × Bool) (result : (S × List Mark) × Counts)
      → is_processed event.id marks ≡ false
      → finish_event now event marks r ≡ ok result
      → Processed result.0.1 event × Kept marks result
  finish-Kept event marks (s, is_new) result new h =
      subst (λ r. Processed r.0.1 event × Kept marks r)
        (ok_inj (sym (finish-ok event marks s is_new new) ∙ h))
        (
          mark_of-Processed event now marks,
          (mark_of-keeps event.id now marks, (omega arith, one_if_le is_new)),
        )

  one-Kept :
      (event : OpsEvent) (state : S × List Mark) (result : (S × List Mark) × Counts)
      → process_one process_event now event state ≡ ok result
      → Processed result.0.1 event × Kept state.1 result
  unfolding process_one
  one-Kept event (s, marks) result h = elim (Bool-cases (is_processed event.id marks)) [
    | inl known ↦
        subst (λ r. Processed r.0.1 event × Kept marks r) (ok_inj (branch true known h))
          (known, ((λ e k. k), (omega arith, omega arith)))
    | inr new ↦
        let (r, e, k) =
          then_do-ok (process_event event s) (finish_event now event marks) (branch false new h) in
        finish-Kept event marks r result new k
  ]
    where
      branch :
          (b : Bool)
          → is_processed event.id marks ≡ b
          → process_one process_event now event (s, marks) ≡ ok result
          → (if◌then◌else◌ {A = Outcome ((S × List Mark) × Counts)} b
              (ok ((s, marks), record { processed = 0; created_incidents = 0 }))
              (then_do (process_event event s) (finish_event now event marks)))
            ≡ ok result
      branch b same h =
          subst
            (λ b.
              (if◌then◌else◌ {A = Outcome ((S × List Mark) × Counts)} b
                (ok ((s, marks), record { processed = 0; created_incidents = 0 }))
                (then_do (process_event event s) (finish_event now event marks)))
              ≡ ok result)
            same h

  Processed-one :
      (event : OpsEvent) (state : S × List Mark)
      → Processed state.1 event
      → process_one process_event now event state
        ≡ ok (state, record { processed = 0; created_incidents = 0 })
  unfolding process_one
  Processed-one event (s, marks) known = rw known refl

  -- Over a list of events.
  Kept-trans :
      (marks : List Mark) (first later : (S × List Mark) × Counts)
      → Kept marks first
      → Kept first.0.1 later
      → Kept marks (
        later.0,
        record {
          processed = first.1.processed + later.1.processed;
          created_incidents = first.1.created_incidents + later.1.created_incidents;
        },
      )
  Kept-trans marks first later (keep, (added, fewer)) (keep', (added', fewer')) =
      ((λ e h. keep' e (keep e h)), (omega arith, omega arith))

  pub process_all-Kept :
      (events : List OpsEvent) (state : S × List Mark) (result : (S × List Mark) × Counts)
      → process_all process_event now events state ≡ ok result
      → All (Processed result.0.1) events × Kept state.1 result
  unfolding process_all
  process_all-Kept [] state result h =
      subst (λ r. Unit {0} × Kept state.1 r) (ok_inj h)
        (tt, ((λ e k. k), (omega arith, omega arith)))
  process_all-Kept (event ∷ events) state result h =
      let (first, e, k) = then_do-ok _ _ h in
      let (later, f, l) = then_do-ok _ _ k in
      let (here, kept) = one-Kept event state first e in
      let (there, kept') = process_all-Kept events first.0 later f in
      subst (λ r. All (Processed r.0.1) (event ∷ events) × Kept state.1 r) (ok_inj l)
        ((kept'.0 event here, there), Kept-trans state.1 first later kept kept')

  pub Processed-process_all :
      (events : List OpsEvent) (state : S × List Mark)
      → All (Processed state.1) events
      → process_all process_event now events state
        ≡ ok (state, record { processed = 0; created_incidents = 0 })
  unfolding process_all
  Processed-process_all [] state known = refl
  Processed-process_all (event ∷ events) state (k, ks) =
      rw (Processed-one event state k) (rw (Processed-process_all events state ks) refl)
