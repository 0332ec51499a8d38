-- ===== src/NodeAgent/Sender.antt =====
-- apps/node-agent/src/events/sender.ts: the bounded queue and its single-flight flush loop.
--
-- The promises of the source are a state machine here. `phase` says where the run that `activeRun`
-- holds stands: `sending` awaits the answer to a POST, `waiting` the retry timer, and `drained` the
-- microtask behind `await drain()`. An input that a phase does not wait for changes nothing.
pub mod Invariant
pub mod Books
pub mod Flush
mod Tests
use pi_ops.Base.{
  ℕ, ◌+◌, min, Bool, true, false, List, [], ◌∷◌, ◌++◌, length, take, drop, leb, ltb, if◌then◌else◌,
}

pub record Config : Type 0 where
  pub event_queue_size : ℕ
  pub event_max_retries : ℕ

abbrev pub max_batch_size : ℕ
max_batch_size = 1000

pub data Phase {ℓ} (E : Type ℓ) : Type ℓ where
  idle drained : Phase E
  sending waiting : (batch : List E) (attempt : ℕ) → Phase E

pub record Sender {ℓ} (E : Type ℓ) : Type ℓ where
  pub queue : List E
  pub dropped : ℕ
  pub running : Bool
  pub timer : Bool
  pub drain_requested : Bool
  pub phase : Phase E

-- What happens to the sender from outside.
pub data Input {ℓ} (E : Type ℓ) : Type ℓ where
  enqueues : E → Input E
  starts ticks stops retry_due resumes : Input E
  answers : (ok : Bool) → Input E

-- What becomes of an event: taken into the queue or refused, then delivered or given up.
pub data Output {ℓ} (E : Type ℓ) : Type ℓ where
  accepted refused : E → Output E
  delivered given_up : List E → Output E

module _ {ℓ} {E : Type ℓ} where
  unfoldable pub create_event_sender : Sender E
  create_event_sender = record {
    queue = [];
    dropped = 0;
    running = false;
    timer = false;
    drain_requested = false;
    phase = idle;
  }

  -- The result is the source's: false if the event was dropped.
  unfoldable pub enqueue : Config → Sender E → E → Sender E × Bool
  enqueue config s event =
      if leb config.event_queue_size (length s.queue)
      then (record s { dropped = s.dropped + 1 }, false)
      else (record s { queue = s.queue ++ event ∷ [] }, true)

  unfoldable pub dropped_count : Sender E → ℕ
  dropped_count s = s.dropped

  unfoldable pub queue_depth : Sender E → ℕ
  queue_depth s = length s.queue

  -- The head of the loop in `drain`: take a batch and post it, or return.
  drain_from : List E → Sender E → Sender E
  drain_from [] s = record s { phase = drained }
  drain_from (e ∷ es) s =
      let n = min max_batch_size (length (e ∷ es)) in
      record s { queue = drop n (e ∷ es); phase = sending (take n (e ∷ es)) 0 }

  unfoldable pub drain : Sender E → Sender E
  unfolding drain_from
  drain s = drain_from s.queue s

  request_in : Phase E → Sender E → Sender E
  unfolding drain
  request_in idle s = drain (record s { drain_requested = false })
  request_in _ s = record s { drain_requested = true }

  unfoldable pub request_drain : Sender E → Sender E
  unfolding request_in
  request_drain s = request_in s.phase s

  -- `sendBatch` after the answer to one attempt; `drain` goes on, or returns after the last failure.
  answer_in : Config → Bool → Phase E → Sender E → Sender E × List (Output E)
  unfolding drain
  answer_in config true (sending batch attempt) s = (drain s, delivered batch ∷ [])
  answer_in config false (sending batch attempt) s =
      if ltb attempt config.event_max_retries
      then (record s { phase = waiting batch attempt }, [])
      else (record s { dropped = s.dropped + length batch; phase = drained }, given_up batch ∷ [])
  answer_in config ok _ s = (s, [])

  retry_in : Phase E → Sender E → Sender E
  retry_in (waiting batch attempt) s = record s { phase = sending batch (attempt + 1) }
  retry_in _ s = s

  -- The test of `while (drainRequested)`, and the `finally` block.
  resume_in : Phase E → Sender E → Sender E
  unfolding drain
  resume_in drained s =
      if s.drain_requested
      then drain (record s { drain_requested = false })
      else record s { phase = idle }
  resume_in _ s = s

  unfoldable pub start : Sender E → Sender E
  start s = record s { running = true; timer = true }

  unfoldable pub tick : Sender E → Sender E
  unfolding request_drain
  tick s = if s.timer then (if s.running then request_drain s else s) else s

  unfoldable pub stop : Sender E → Sender E
  unfolding request_drain
  stop s = request_drain (record s { running = false; timer = false })

  abbrev enqueued : E → Sender E × Bool → Sender E × List (Output E)
  enqueued e (s, true) = (s, accepted e ∷ [])
  enqueued e (s, false) = (s, refused e ∷ [])

  unfoldable pub step : Config → Sender E → Input E → Sender E × List (Output E)
  unfolding enqueue start tick stop answer_in retry_in resume_in
  step config s (enqueues e) = enqueued e (enqueue config s e)
  step config s starts = (start s, [])
  step config s ticks = (tick s, [])
  step config s stops = (stop s, [])
  step config s (answers ok) = answer_in config ok s.phase s
  step config s retry_due = (retry_in s.phase s, [])
  step config s resumes = (resume_in s.phase s, [])

  unfoldable pub run : Config → Sender E → List (Input E) → Sender E × List (Output E)
  run config s [] = (s, [])
  run config s (i ∷ is) =
      let (s', outs) = step config s i in let (s'', rest) = run config s' is in (s'', outs ++ rest)
