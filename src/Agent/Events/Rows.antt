-- ===== src/Agent/Events/Rows.antt =====
-- What `insertOrValidateEventRow` keeps and leaves, over a batch.
use pi_ops.Base.{
  ◌⊎◌, ℕ, ◌+◌, String, str_eq, eq_iff, eq_refl, Bool, true, false, ◌==◌, Option, none, some, List,
  [], ◌∷◌, ◌≡◌, ◌≢◌, refl, sym, arith, All, Bool-cases, inl, inr, subst, length, if◌then◌else◌,
}
use pi_ops.Protocol.JsonValue.{plain, deep_equal_refl}
use mathlib.Core.List.{Memᴰ}
use pi_ops.Agent.Events.{
  validate_stored, source_text, severity_text, OpsEvent, Producer, StoredEvent, Outcome, ok,
  conflict, then_do, row_of, stored_event_matches, get_event, insert_or_validate_event_row,
  insert_event_rows, one_if, optional_equal,
}

-- What a computation that went well did on the way.
pub then_do-ok {ℓ κ} :
    {A : Type ℓ} {B : Type κ} (o : Outcome A) (f : A → Outcome B) {b : B}
    → then_do o f ≡ ok b
    → (a : A) × (o ≡ ok a) × (f a ≡ ok b)
then_do-ok (ok a) f e = (a, refl, e)
then_do-ok (conflict id) f e = cc
then_do-ok (Outcome.unmarked id) f e = cc
then_do-ok (Outcome.threw m) f e = cc

pub ok_inj {ℓ} : {A : Type ℓ} {a b : A} → ok a ≡ ok b → a ≡ b
ok_inj e = cc e

optional_equal_refl : (o : Option String) → optional_equal o o ≡ true
optional_equal_refl none = refl
optional_equal_refl (some a) = eq_refl a

same_number : (n : ℕ) → (n == n) ≡ true
same_number n = ground arith

module _ (producer : Producer) (receive_time : String) where
  row_of-matches :
      (event : OpsEvent)
      → plain event.attributes ≡ true
      → stored_event_matches producer event (row_of producer receive_time event) ≡ true
  unfolding stored_event_matches row_of
  row_of-matches event p =
      rw
        (
          same_number event.schema_version,
          eq_refl event.time,
          eq_refl producer.id,
          eq_refl producer.type,
          eq_refl (source_text event.source),
          eq_refl event.node_id,
          eq_refl event.service,
          eq_refl event.type,
          eq_refl (severity_text event.severity),
          optional_equal_refl event.fingerprint,
          optional_equal_refl event.trace_id,
          eq_refl event.message,
          deep_equal_refl event.attributes p,
        )
        refl

  -- The table holds a row that matches the event.
  abbrev pub Stored : List StoredEvent → OpsEvent → Type 0
  Stored rows event =
      (r : StoredEvent) × (get_event event.id rows ≡ some r)
      × (stored_event_matches producer event r ≡ true)

  -- The rows that a validated event leaves: a new one in front, or the same.
  abbrev Inserted : OpsEvent → List StoredEvent → List StoredEvent × Bool → Type 0
  Inserted event rows (rows', inserted) =
      ((get_event event.id rows ≡ none)
        × ((rows' ≡ row_of producer receive_time event ∷ rows) × (inserted ≡ true)))
      ⊎ (Stored rows event × ((rows' ≡ rows) × (inserted ≡ false)))

  stored-Inserted :
      (event : OpsEvent) (rows : List StoredEvent) (o : Option StoredEvent)
      (result : List StoredEvent × Bool)
      → get_event event.id rows ≡ o
      → validate_stored producer receive_time event rows o ≡ ok result
      → Inserted event rows result
  unfolding validate_stored
  stored-Inserted event rows none (rows', inserted) e h = inl (e, (cc h, cc h))
  stored-Inserted event rows (some r) (rows', inserted) e h =
      elim (Bool-cases (stored_event_matches producer event r)) [
        | inl hit ↦ let same = settled true hit in inr ((r, e, hit), (cc same, cc same))
        | inr miss ↦ let same = settled false miss in absurd (cc same)
      ]
    where
      settled :
          (b : Bool)
          → stored_event_matches producer event r ≡ b
          → (if◌then◌else◌ {A = Outcome (List StoredEvent × Bool)} b
              (ok (rows, false))
              (conflict event.id))
            ≡ ok (rows', inserted)
      settled b hit =
          subst
            (λ b.
              (if◌then◌else◌ {A = Outcome (List StoredEvent × Bool)} b (ok (rows, false))
                (conflict event.id))
              ≡ ok (rows', inserted))
            hit h

  pub insert-Inserted :
      (event : OpsEvent) (rows : List StoredEvent) (result : List StoredEvent × Bool)
      → insert_or_validate_event_row producer receive_time event rows ≡ ok result
      → Inserted event rows result
  unfolding insert_or_validate_event_row
  insert-Inserted event rows result h =
      stored-Inserted event rows (get_event event.id rows) result refl h

  Stored-insert :
      (event : OpsEvent) (rows : List StoredEvent)
      → Stored rows event
      → insert_or_validate_event_row producer receive_time event rows ≡ ok (rows, false)
  unfolding insert_or_validate_event_row validate_stored
  Stored-insert event rows (r, e, hit) = rw e (rw hit refl)

  get-row_of :
      (event : OpsEvent) (rows : List StoredEvent) (id : String) (r : StoredEvent)
      → get_event event.id rows ≡ none
      → get_event id rows ≡ some r
      → get_event id (row_of producer receive_time event ∷ rows) ≡ some r
  unfolding get_event row_of
  get-row_of event rows id r fresh found = elim (Bool-cases (str_eq event.id id)) [
    | inl same ↦
        let e = (eq_iff event.id id).0 same in
        let gone : get_event id rows ≡ none = subst (λ x. get_event x rows ≡ none) e fresh in
        absurd (cc (found, gone))
    | inr other ↦ rw other found
  ]

  get-row_of_self :
      (event : OpsEvent) (rows : List StoredEvent)
      → get_event event.id (row_of producer receive_time event ∷ rows)
        ≡ some (row_of producer receive_time event)
  unfolding get_event row_of
  get-row_of_self event rows = rw (eq_refl event.id) refl

  -- A row, once stored, stays what its id leads to.
  insert-get :
      (event : OpsEvent) (rows : List StoredEvent) (result : List StoredEvent × Bool) (id : String)
      (r : StoredEvent)
      → insert_or_validate_event_row producer receive_time event rows ≡ ok result
      → get_event id rows ≡ some r
      → get_event id result.0 ≡ some r
  unfolding get_event row_of
  insert-get event rows (rows', inserted) id r h found =
      elim (insert-Inserted event rows (rows', inserted) h) [
        | inl (fresh, (new, _)) ↦
            subst (λ rs. get_event id rs ≡ some r) (sym new)
              (get-row_of event rows id r fresh found)
        | inr (_, (same, _)) ↦ subst (λ rs. get_event id rs ≡ some r) (sym same) found
      ]

  Stored-insert_keeps :
      (event : OpsEvent) (rows : List StoredEvent) (result : List StoredEvent × Bool)
      (earlier : OpsEvent)
      → insert_or_validate_event_row producer receive_time event rows ≡ ok result
      → Stored rows earlier
      → Stored result.0 earlier
  Stored-insert_keeps event rows result earlier h (r, found, hit) =
      (r, insert-get event rows result earlier.id r h found, hit)

  insert-Stored :
      (event : OpsEvent) (rows : List StoredEvent) (result : List StoredEvent × Bool)
      → plain event.attributes ≡ true
      → insert_or_validate_event_row producer receive_time event rows ≡ ok result
      → Stored result.0 event
  insert-Stored event rows (rows', inserted) p h =
      elim (insert-Inserted event rows (rows', inserted) h) [
        | inl (fresh, (new, _)) ↦
            subst (λ rs. Stored rs event) (sym new)
              (
                row_of producer receive_time event,
                get-row_of_self event rows,
                row_of-matches event p,
              )
        | inr (stored, (same, _)) ↦ subst (λ rs. Stored rs event) (sym same) stored
      ]

  -- The row under the id of a validated event matches it.
  row_matches :
      (event : OpsEvent) (rows : List StoredEvent) (result : List StoredEvent × Bool)
      (r : StoredEvent)
      → insert_or_validate_event_row producer receive_time event rows ≡ ok result
      → get_event event.id rows ≡ some r
      → stored_event_matches producer event r ≡ true
  row_matches event rows (rows', inserted) r h found =
      elim (insert-Inserted event rows (rows', inserted) h) [
        | inl (fresh, _) ↦ absurd (cc (fresh, found))
        | inr ((s, there, hit), _) ↦
            let e : s ≡ r = cc (there, found) in
            subst (λ x. stored_event_matches producer event x ≡ true) e hit
      ]

  -- Over a batch.
  rows-Stored_keeps :
      (events : List OpsEvent) (rows : List StoredEvent) (result : List StoredEvent × ℕ)
      (earlier : OpsEvent)
      → insert_event_rows producer receive_time events rows ≡ ok result
      → Stored rows earlier
      → Stored result.0 earlier
  unfolding insert_event_rows
  rows-Stored_keeps [] rows result earlier h stored =
      subst (λ r. Stored r.0 earlier) (ok_inj {a = (rows, 0)} h) stored
  rows-Stored_keeps (event ∷ events) rows result earlier h stored =
      let (first, e, k) = then_do-ok _ _ h in
      let (later, f, l) = then_do-ok _ _ k in
      let kept = Stored-insert_keeps event rows first earlier e stored in
      subst (λ r. Stored r.0 earlier) (ok_inj l)
        (rows-Stored_keeps events first.0 later earlier f kept)

  -- After a batch went in, each of its events is stored as it is.
  pub rows-Stored :
      (events : List OpsEvent) (rows : List StoredEvent) (result : List StoredEvent × ℕ)
      → All (λ e. plain e.attributes ≡ true) events
      → insert_event_rows producer receive_time events rows ≡ ok result
      → All (Stored result.0) events
  unfolding insert_event_rows
  rows-Stored [] rows result ps h = tt
  rows-Stored (event ∷ events) rows result (p, ps) h =
      let (first, e, k) = then_do-ok _ _ h in
      let (later, f, l) = then_do-ok _ _ k in
      let here =
        rows-Stored_keeps events first.0 later event f (insert-Stored event rows first p e) in
      subst (λ r. All (Stored r.0) (event ∷ events)) (ok_inj l)
        (here, rows-Stored events first.0 later ps f)

  length-insert :
      (event : OpsEvent) (rows : List StoredEvent) (result : List StoredEvent × Bool)
      → insert_or_validate_event_row producer receive_time event rows ≡ ok result
      → length result.0 ≡ length rows + one_if result.1
  length-insert event rows (rows', inserted) h =
      elim (insert-Inserted event rows (rows', inserted) h) [
        | inl (_, (new, fresh)) ↦ rw (new, fresh) (omega arith)
        | inr (_, (same, old)) ↦ rw (same, old) (omega arith)
      ]

  length-rows_step :
      (event : OpsEvent) (rows : List StoredEvent) (first : List StoredEvent × Bool)
      (later : List StoredEvent × ℕ)
      → insert_or_validate_event_row producer receive_time event rows ≡ ok first
      → length later.0 ≡ length first.0 + later.1
      → length later.0 ≡ length rows + (one_if first.1 + later.1)
  length-rows_step event rows first later e ih = omega (arith, length-insert event rows first e, ih)

  pub length-rows :
      (events : List OpsEvent) (rows : List StoredEvent) (result : List StoredEvent × ℕ)
      → insert_event_rows producer receive_time events rows ≡ ok result
      → length result.0 ≡ length rows + result.1
  unfolding insert_event_rows
  length-rows [] rows result h =
      subst (λ r. length r.0 ≡ length rows + r.1) (ok_inj {a = (rows, 0)} h) (omega arith)
  length-rows (event ∷ events) rows result h =
      let (first, e, k) = then_do-ok _ _ h in
      let (later, f, l) = then_do-ok _ _ k in
      subst (λ r. length r.0 ≡ length rows + r.1) (ok_inj l)
        (length-rows_step event rows first later e (length-rows events first.0 later f))

  -- A batch whose events are all stored changes no row.
  pub Stored-rows :
      (events : List OpsEvent) (rows : List StoredEvent)
      → All (Stored rows) events
      → insert_event_rows producer receive_time events rows ≡ ok (rows, 0)
  unfolding insert_event_rows
  Stored-rows [] rows stored = refl
  Stored-rows (event ∷ events) rows (s, ss) =
      rw (Stored-insert event rows s) (rw (Stored-rows events rows ss) refl)

  -- A batch with an event that contradicts the row under its id does not go in.
  pub rows-conflict :
      (events : List OpsEvent) (rows : List StoredEvent) (result : List StoredEvent × ℕ)
      (event : OpsEvent) (r : StoredEvent)
      → Memᴰ event events
      → get_event event.id rows ≡ some r
      → stored_event_matches producer event r ≡ false
      → insert_event_rows producer receive_time events rows ≢ ok result
  unfolding insert_event_rows
  rows-conflict [] rows result event r m found miss h = elim m [ ]
  rows-conflict (first ∷ events) rows result event r (Memᴰ.head same) found miss h =
      let (step, e, k) = then_do-ok _ _ h in
      let hit =
        row_matches first rows step r e (subst (λ x. get_event x.id rows ≡ some r) same found) in
      let other = subst (λ x. stored_event_matches producer x r ≡ false) same miss in
      cc (hit, other)
  rows-conflict (first ∷ events) rows result event r (Memᴰ.tail m) found miss h =
      let (step, e, k) = then_do-ok _ _ h in
      let (later, f, l) = then_do-ok _ _ k in
      rows-conflict events step.0 later event r m (insert-get first rows step event.id r e found)
        miss f
