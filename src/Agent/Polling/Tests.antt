-- ===== src/Agent/Polling/Tests.antt =====
-- A worker on concrete inputs.
use pi_ops.Base.{true, false, List, [], ◌∷◌, ◌≡◌, refl}
use pi_ops.Agent.Polling.{
  PollingWorker, create_polling_worker, Input, starts, wakes, runs_once, microtask, ticks, finishes,
  reset, drain_begins, drain_ends, run, step, wake, on_microtask, start, run_once, tick,
  on_finished,
}
use pi_ops.Agent.Polling.Laws.{OneAtATime, run-OneAtATime}

abbrev busy : List Input
busy = starts ∷ wakes ∷ microtask ∷ ticks ∷ microtask ∷ runs_once ∷ finishes ∷ runs_once ∷ []

busy_outputs :
    (run create_polling_worker busy).1 ≡ reset ∷ drain_begins ∷ drain_ends ∷ drain_begins ∷ []
unfolding run step start wake on_microtask run_once tick on_finished create_polling_worker
busy_outputs = refl

run-OneAtATime_example : OneAtATime false (run create_polling_worker busy).1
unfolding create_polling_worker
run-OneAtATime_example = run-OneAtATime busy create_polling_worker

abbrev draining : PollingWorker
draining = record { timer = true; active = true; wake_queued = false }
