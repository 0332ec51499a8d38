-- ===== src/NodeAgent/Sender/Tests.antt =====
-- Runs of the sender on events that are numbers.
use pi_ops.Base.{ℕ, ◌≡◌, refl, true, false, List, [], ◌∷◌, arith}
use pi_ops.NodeAgent.Sender.{
  Config, Sender, Input, enqueues, starts, ticks, retry_due, resumes, answers, accepted, refused,
  delivered, idle, sending, create_event_sender, run, step, stop, queue_depth, dropped_count,
}
use pi_ops.NodeAgent.Sender.Invariant.{Inv, run-Inv}
use pi_ops.NodeAgent.Sender.Books.{settled, Balanced, Counted, run-Balanced, run-Counted}
use pi_ops.NodeAgent.Sender.Flush.{effort, settle, stop-flushes}

abbrev small : Config
small = record { event_queue_size = 2; event_max_retries = 1 }

-- Two events fill the queue and a third is refused; the batch fails once and is then delivered.
abbrev busy : List (Input ℕ)
busy =
    starts
    ∷ enqueues 7
    ∷ enqueues 8
    ∷ enqueues 9
    ∷ ticks
    ∷ answers false
    ∷ retry_due
    ∷ answers true
    ∷ resumes
    ∷ []

busy-run :
    (run small create_event_sender busy).1
    ≡ accepted 7 ∷ accepted 8 ∷ refused 9 ∷ delivered (7 ∷ 8 ∷ []) ∷ []
unfolding run step create_event_sender
busy-run = refl

busy_end :
    (dropped_count (run small create_event_sender busy).0 ≡ 1)
    × (queue_depth (run small create_event_sender busy).0 ≡ 0)
unfolding run step create_event_sender dropped_count queue_depth
busy_end = (refl, refl)

run-Inv_example : Inv small (run small create_event_sender busy).0
unfolding create_event_sender
run-Inv_example =
    run-Inv small create_event_sender busy (record { depth = omega arith; in_flight = tt })

run-Balanced_example : Balanced create_event_sender (run small create_event_sender busy)
run-Balanced_example = run-Balanced small create_event_sender busy

run-Counted_example : Counted create_event_sender (run small create_event_sender busy)
run-Counted_example = run-Counted small create_event_sender busy

-- A batch in flight, and one event behind it.
abbrev loaded : Sender ℕ
loaded = record {
  queue = 3 ∷ [];
  dropped = 0;
  running = false;
  timer = false;
  drain_requested = false;
  phase = sending (1 ∷ 2 ∷ []) 1;
}

stop-flushes_example :
    let t = settle (effort (stop loaded)) small (stop loaded) in
    (t.0.phase ≡ idle) × (t.0.queue ≡ []) × (settled t.1 ≡ 1 ∷ 2 ∷ 3 ∷ []) × (t.0.dropped ≡ 0)
stop-flushes_example = stop-flushes small loaded
