-- ===== src/Agent/Events/Laws.antt =====
-- What `processBatch` promises: once for each event, and all or nothing.
use pi_ops.Base.{ℕ, String, Bool, true, List, [], ◌≡◌, refl, All, subst}
use pi_ops.Protocol.JsonValue.{plain}
use pi_ops.Agent.Events.{
  OpsEvent, EventBatch, StoredEvent, Mark, Counts, Outcome, ok, insert_event_rows, pending_from,
  process_all,
}
use pi_ops.Agent.Events.Batch.{Database, ProcessBatchResult, process_batch}
use pi_ops.Agent.Events.Rows.{then_do-ok, ok_inj, rows-Stored, Stored-rows}
use pi_ops.Agent.Events.Marks.{process_all-Kept, Processed-process_all}

module _ {ℓ} {S : Type ℓ} (process_event : OpsEvent → S → Outcome (S × Bool)) where
  abbrev after : List StoredEvent × ℕ → (S × List Mark) × Counts → Database S × ProcessBatchResult
  after (events, inserted) ((rest, marks), counts) = (
    record { events = events; marks = marks; rest = rest },
    record {
      inserted = inserted;
      processed = counts.processed;
      created_incidents = counts.created_incidents;
    },
  )

  -- The two loops of a batch that went well.
  Loops : EventBatch → String → Database S → Database S × ProcessBatchResult → Type ℓ
  Loops batch now db result =
      (stored : List StoredEvent × ℕ) × (done : (S × List Mark) × Counts) × (insert_event_rows
          batch.producer now batch.events db.events
        ≡ ok stored)
      × (process_all process_event now (pending_from [] batch.events) (db.rest, db.marks) ≡ ok done)
      × (after stored done ≡ result)

  batch-Loops :
      (batch : EventBatch) (now : String) (db : Database S)
      (result : Database S × ProcessBatchResult)
      → process_batch process_event batch now db ≡ ok result
      → Loops batch now db result
  unfolding process_batch Loops
  batch-Loops batch now db result h =
      let (stored, e, k) = then_do-ok _ _ h in
      let (done, f, l) = then_do-ok _ _ k in (stored, done, e, f, ok_inj l)

  -- A batch that is sent again changes nothing: no row, no mark, no call of the callback, whatever
  -- the callback and the time are by then. The attributes have no key twice.
  pub process_batch-again :
      (batch : EventBatch) (now : String) (db : Database S)
      (result : Database S × ProcessBatchResult) (callback : OpsEvent → S → Outcome (S × Bool))
      (later : String)
      → All (λ e. plain e.attributes ≡ true) batch.events
      → process_batch process_event batch now db ≡ ok result
      → process_batch callback batch later result.0
        ≡ ok (result.0, record { inserted = 0; processed = 0; created_incidents = 0 })
  unfolding Loops process_batch
  process_batch-again batch now db result callback later ps h =
      let (stored, done, e, f, same) = batch-Loops batch now db result h in
      let (marked, _) =
        process_all-Kept process_event now (pending_from [] batch.events) (db.rest, db.marks) done
          f in
      subst
        (λ r.
          process_batch callback batch later r.0
          ≡ ok (r.0, record { inserted = 0; processed = 0; created_incidents = 0 }))
        same
        (rw
          (Stored-rows batch.producer later batch.events stored.0
            (rows-Stored batch.producer now batch.events db.events stored ps e))
          (rw (Processed-process_all callback later (pending_from [] batch.events) done.0 marked)
            refl))
