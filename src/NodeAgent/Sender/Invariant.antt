-- ===== src/NodeAgent/Sender/Invariant.antt =====
-- Bounds on the queue, the batch in flight and its attempts.
use pi_ops.Base.{
  ◌≤◌, ◌<◌, ◌≡◌, refl, Bool, true, false, List, [], ◌∷◌, arith, length, length-append, length-take,
  length-drop, min,
}
use pi_ops.NodeAgent.Sender.{
  Config, max_batch_size, Phase, idle, drained, sending, waiting, Sender, Input, enqueues, starts,
  ticks, stops, retry_due, resumes, answers, drain_from, drain, request_in, answer_in, retry_in,
  resume_in, step, run,
}

module _ {ℓ} {E : Type ℓ} where
  -- A batch in flight is not empty, is no longer than the protocol allows, and is tried again at
  -- most `event_max_retries` times.
  abbrev pub PhaseInv : Config → Phase E → Type 0
  PhaseInv config idle = Unit {0}
  PhaseInv config drained = Unit {0}
  PhaseInv config (sending batch attempt) =
      (0 < length batch) × (length batch ≤ max_batch_size) × (attempt ≤ config.event_max_retries)
  PhaseInv config (waiting batch attempt) =
      (0 < length batch) × (length batch ≤ max_batch_size) × (attempt < config.event_max_retries)

  pub record Inv (config : Config) (s : Sender E) : Type 0 where
    pub depth : length s.queue ≤ config.event_queue_size
    pub in_flight : PhaseInv config s.phase

  drain_from-Inv :
      (config : Config) (es : List E) (s : Sender E)
      → length es ≤ config.event_queue_size
      → s.queue ≡ es
      → Inv config (drain_from es s)
  unfolding drain_from
  drain_from-Inv config [] s h e = record { depth = rw e h; in_flight = tt }
  drain_from-Inv config (x ∷ es) s h e =
      let n = min max_batch_size (length (x ∷ es)) in
      record {
        depth = omega (arith, length-drop n (x ∷ es));
        in_flight = (
          omega (arith, length-take n (x ∷ es)),
          omega (arith, length-take n (x ∷ es)),
          omega arith,
        );
      }

  drain-Inv : (config : Config) (s : Sender E) → Inv config s → Inv config (drain s)
  unfolding drain
  drain-Inv config s v = drain_from-Inv config s.queue s v.depth refl

  request_in-Inv :
      (config : Config) (s : Sender E) (p : Phase E)
      → s.phase ≡ p
      → Inv config s
      → Inv config (request_in p s)
  unfolding request_in
  request_in-Inv config s idle e v =
      drain-Inv config (record s { drain_requested = false })
        (record { depth = v.depth; in_flight = v.in_flight })
  request_in-Inv config s _ e v = record { depth = v.depth; in_flight = v.in_flight }

  answer_in-Inv :
      (config : Config) (ok : Bool) (s : Sender E) (p : Phase E)
      → s.phase ≡ p
      → Inv config s
      → Inv config (answer_in config ok p s).0
  unfolding answer_in
  answer_in-Inv config true s (sending batch attempt) e v = drain-Inv config s v
  answer_in-Inv config ok s p e v = ground arith

  retry_in-Inv :
      (config : Config) (s : Sender E) (p : Phase E)
      → s.phase ≡ p
      → Inv config s
      → Inv config (retry_in p s)
  unfolding retry_in
  retry_in-Inv config s (waiting batch attempt) e v = ground arith
  retry_in-Inv config s _ e v = v

  resume_in-Inv :
      (config : Config) (s : Sender E) (p : Phase E)
      → s.phase ≡ p
      → Inv config s
      → Inv config (resume_in p s)
  unfolding resume_in
  resume_in-Inv config s drained e v =
      ground (arith, drain-Inv config (record s { drain_requested = false }))
  resume_in-Inv config s _ e v = v

  -- Every input keeps the queue within its limit, and the batch in flight within the protocol's.
  pub step-Inv :
      (config : Config) (s : Sender E) (i : Input E) → Inv config s → Inv config (step config s i).0
  unfolding step
  step-Inv config s (enqueues e) v = ground (arith, length-append s.queue (e ∷ []))
  step-Inv config s starts v = ground arith
  step-Inv config s ticks v = ground (arith, request_in-Inv config s s.phase refl v)
  step-Inv config s stops v =
      request_in-Inv config (record s { running = false; timer = false }) s.phase refl
        (record { depth = v.depth; in_flight = v.in_flight })
  step-Inv config s (answers ok) v = answer_in-Inv config ok s s.phase refl v
  step-Inv config s retry_due v = retry_in-Inv config s s.phase refl v
  step-Inv config s resumes v = resume_in-Inv config s s.phase refl v

  -- So it is after every sequence of inputs.
  pub run-Inv :
      (config : Config) (s : Sender E) (is : List (Input E))
      → Inv config s
      → Inv config (run config s is).0
  unfolding run
  run-Inv config s [] v = v
  run-Inv config s (i ∷ is) v = run-Inv config (step config s i).0 is (step-Inv config s i v)
