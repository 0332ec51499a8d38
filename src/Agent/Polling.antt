-- ===== src/Agent/Polling.antt =====
-- apps/agent/src/polling-worker.ts: when the drains of a worker run.
--
-- The source's promises are a state machine here: `active` is set from the call of `drain` to the
-- `finally` behind it, and `wake_queued` from `queueMicrotask` to its callback. An input that the
-- state does not wait for changes nothing.
pub mod Laws
mod Tests
use pi_ops.Base.{Bool, true, false, List, [], ◌∷◌, ◌++◌, if◌then◌else◌}

pub record PollingWorker : Type 0 where
  pub timer : Bool
  pub active : Bool
  pub wake_queued : Bool

pub data Input : Type 0 where
  starts wakes runs_once microtask ticks finishes stops : Input

pub data Output : Type 0 where
  reset drain_begins drain_ends : Output

unfoldable pub create_polling_worker : PollingWorker
create_polling_worker = record { timer = false; active = false; wake_queued = false }

unfoldable pub run_once : PollingWorker → PollingWorker × List Output
run_once w = if w.active then (w, []) else (record w { active = true }, drain_begins ∷ [])

unfoldable pub wake : PollingWorker → PollingWorker
wake w = if w.wake_queued then w else record w { wake_queued = true }

-- The callback of `queueMicrotask`.
unfoldable pub on_microtask : PollingWorker → PollingWorker × List Output
unfolding run_once
on_microtask w = if w.wake_queued then run_once (record w { wake_queued = false }) else (w, [])

-- The `finally` of the drain.
unfoldable pub on_finished : PollingWorker → PollingWorker × List Output
on_finished w = if w.active then (record w { active = false }, drain_ends ∷ []) else (w, [])

unfoldable pub start : PollingWorker → PollingWorker × List Output
unfolding wake
start w = (record (wake w) { timer = true }, reset ∷ [])

unfoldable pub stop : PollingWorker → PollingWorker
stop w = record w { timer = false }

-- `setInterval(wake, …)`
unfoldable pub tick : PollingWorker → PollingWorker
unfolding wake
tick w = if w.timer then wake w else w

unfoldable pub step : PollingWorker → Input → PollingWorker × List Output
unfolding start wake run_once on_microtask tick on_finished stop
step w starts = start w
step w wakes = (wake w, [])
step w runs_once = run_once w
step w microtask = on_microtask w
step w ticks = (tick w, [])
step w finishes = on_finished w
step w stops = (stop w, [])

unfoldable pub run : PollingWorker → List Input → PollingWorker × List Output
run w [] = (w, [])
run w (i ∷ is) = let (w', outs) = step w i in let (w'', rest) = run w' is in (w'', outs ++ rest)
