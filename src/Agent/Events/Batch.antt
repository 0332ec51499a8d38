-- ===== src/Agent/Events/Batch.antt =====
-- apps/agent/src/store.ts: `processBatch`, one transaction over a batch.
use pi_ops.Base.{ℕ, String, Bool, List, []}
use pi_ops.Agent.Events.{
  OpsEvent, EventBatch, StoredEvent, Mark, Outcome, ok, then_do, insert_event_rows, pending_from,
  process_all,
}

-- The tables of events and marks, and what the callback works on.
pub record Database {ℓ} (S : Type ℓ) : Type ℓ where
  pub events : List StoredEvent
  pub marks : List Mark
  pub rest : S

pub record ProcessBatchResult : Type 0 where
  pub inserted : ℕ
  pub processed : ℕ
  pub created_incidents : ℕ

module _ {ℓ} {S : Type ℓ} (process_event : OpsEvent → S → Outcome (S × Bool)) where
  unfoldable pub process_batch :
      EventBatch → (receive_time : String) → Database S → Outcome (Database S × ProcessBatchResult)
  process_batch batch receive_time db =
      then_do (insert_event_rows batch.producer receive_time batch.events db.events)
        (λ (events, inserted).
          then_do
            (process_all process_event receive_time (pending_from [] batch.events)
              (db.rest, db.marks))
            (λ ((rest, marks), counts). ok (
              record { events = events; marks = marks; rest = rest },
              record {
                inserted = inserted;
                processed = counts.processed;
                created_incidents = counts.created_incidents;
              },
            )))
