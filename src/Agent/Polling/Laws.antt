-- ===== src/Agent/Polling/Laws.antt =====
-- Drains never overlap, and a stopped worker comes to rest.
use pi_ops.Base.{
  Bool, true, false, List, [], ◌∷◌, ◌++◌, ◌≡◌, ◌≢◌, arith, All, subst, sym, append_assoc,
}
use pi_ops.Agent.Polling.{
  PollingWorker, Input, starts, wakes, runs_once, microtask, ticks, finishes, stops, Output, reset,
  drain_begins, drain_ends, step, run, wake, on_microtask,
}

-- From a worker that is draining or not: each drain ends before the next begins.
abbrev pub OneAtATime : Bool → List Output → Type 0
OneAtATime active [] = Unit {0}
OneAtATime active (reset ∷ outs) = OneAtATime active outs
OneAtATime active (drain_begins ∷ outs) = (active ≡ false) × OneAtATime true outs
OneAtATime active (drain_ends ∷ outs) = (active ≡ true) × OneAtATime false outs

step-OneAtATime :
    (w : PollingWorker) (i : Input) (later : List Output)
    → OneAtATime (step w i).0.active later
    → OneAtATime w.active ((step w i).1 ++ later)
unfolding step
step-OneAtATime w starts later h = ground arith
step-OneAtATime w wakes later h = ground arith
step-OneAtATime w runs_once later h = ground arith
step-OneAtATime w microtask later h = ground arith
step-OneAtATime w ticks later h = ground arith
step-OneAtATime w finishes later h = ground arith
step-OneAtATime w stops later h = h

append-OneAtATime :
    (b : Bool) (xs ys zs : List Output)
    → OneAtATime b (xs ++ (ys ++ zs))
    → OneAtATime b ((xs ++ ys) ++ zs)
append-OneAtATime b xs ys zs h = subst (OneAtATime b) (sym (append_assoc xs ys zs)) h

-- Whatever happens to a worker, in any order: no drain begins while another runs.
pub run-OneAtATime : (is : List Input) (w : PollingWorker) → OneAtATime w.active (run w is).1
unfolding run
run-OneAtATime [] w = tt
run-OneAtATime (i ∷ is) w =
    step-OneAtATime w i (run (step w i).0 is).1 (run-OneAtATime is (step w i).0)

-- The inputs that come by themselves, without a call from outside.
abbrev pub ComesAlone : Input → Type 0
ComesAlone i = (i ≢ starts) × (i ≢ wakes) × (i ≢ runs_once)

abbrev pub IsResting : PollingWorker → Type 0
IsResting w = (w.timer ≡ false) × (w.wake_queued ≡ false)

-- No drain begins.
abbrev pub IsCalm : List Output → Type 0
IsCalm outs = All (λ o. o ≢ drain_begins) outs

-- A wake is worth one drain: a second wake before the microtask adds nothing, and after the
-- microtask a drain is running and no wake is queued any more.
wake-on_microtask :
    (w : PollingWorker)
    → (wake (wake w) ≡ wake w)
      × ((on_microtask (wake w)).0.active ≡ true)
      × ((on_microtask (wake w)).0.wake_queued ≡ false)
unfolding wake on_microtask
wake-on_microtask w = ground arith
