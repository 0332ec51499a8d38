-- ===== src/NodeAgent/Sender/Books.antt =====
-- The books of the sender: what becomes of each event that is enqueued.
use pi_ops.Base.{
  ◌≡⟨◌⟩◌, ◌∎, ℕ, suc, ◌+◌, ◌≡◌, refl, sym, ap, ◌∙◌, Bool, true, false, List, [], ◌∷◌, ◌++◌, arith,
  length, take-append-drop, append_assoc, append-nil, min, if_cases, leb,
}
use pi_ops.NodeAgent.Sender.{
  Config, max_batch_size, Phase, idle, drained, sending, waiting, Sender, Input, enqueues, starts,
  ticks, stops, retry_due, resumes, answers, Output, accepted, refused, delivered, given_up,
  drain_from, drain, request_in, answer_in, retry_in, resume_in, step, run, enqueue, tick, enqueued,
  start, stop,
}

module _ {ℓ} {E : Type ℓ} where
  -- The events of the batch in flight.
  abbrev pub in_flight : Phase E → List E
  in_flight idle = []
  in_flight drained = []
  in_flight (sending batch attempt) = batch
  in_flight (waiting batch attempt) = batch

  -- The events that the sender still holds, oldest first.
  abbrev pub held : Sender E → List E
  held s = in_flight s.phase ++ s.queue

  -- The events that were taken in, oldest first.
  unfoldable pub admitted : List (Output E) → List E
  admitted [] = []
  admitted (accepted e ∷ outs) = e ∷ admitted outs
  admitted (refused e ∷ outs) = admitted outs
  admitted (delivered b ∷ outs) = admitted outs
  admitted (given_up b ∷ outs) = admitted outs

  -- The events that left, delivered or given up, in the order in which they left.
  unfoldable pub settled : List (Output E) → List E
  settled [] = []
  settled (accepted e ∷ outs) = settled outs
  settled (refused e ∷ outs) = settled outs
  settled (delivered b ∷ outs) = b ++ settled outs
  settled (given_up b ∷ outs) = b ++ settled outs

  -- How many events were refused or given up.
  unfoldable pub lost : List (Output E) → ℕ
  lost [] = 0
  lost (accepted e ∷ outs) = lost outs
  lost (refused e ∷ outs) = suc (lost outs)
  lost (delivered b ∷ outs) = lost outs
  lost (given_up b ∷ outs) = length b + lost outs

  pub admitted-append : (xs ys : List (Output E)) → admitted (xs ++ ys) ≡ admitted xs ++ admitted ys
  unfolding admitted
  admitted-append [] ys = refl
  admitted-append (accepted e ∷ xs) ys = ap (◌∷◌ e) (admitted-append xs ys)
  admitted-append (refused e ∷ xs) ys = admitted-append xs ys
  admitted-append (delivered b ∷ xs) ys = admitted-append xs ys
  admitted-append (given_up b ∷ xs) ys = admitted-append xs ys

  settled-append : (xs ys : List (Output E)) → settled (xs ++ ys) ≡ settled xs ++ settled ys
  unfolding settled
  settled-append [] ys = refl
  settled-append (accepted e ∷ xs) ys = settled-append xs ys
  settled-append (refused e ∷ xs) ys = settled-append xs ys
  settled-append (delivered b ∷ xs) ys = simp (settled-append xs ys, append_assoc)
  settled-append (given_up b ∷ xs) ys = simp (settled-append xs ys, append_assoc)

  pub lost-append : (xs ys : List (Output E)) → lost (xs ++ ys) ≡ lost xs + lost ys
  unfolding lost
  lost-append [] ys = omega arith
  lost-append (accepted e ∷ xs) ys = lost-append xs ys
  lost-append (refused e ∷ xs) ys = omega (arith, lost-append xs ys)
  lost-append (delivered b ∷ xs) ys = lost-append xs ys
  lost-append (given_up b ∷ xs) ys = omega (arith, lost-append xs ys)

  -- The events of the outputs `outs` of a move from `s` to `s'`, in order.
  abbrev pub Balanced : Sender E → Sender E × List (Output E) → Type ℓ
  Balanced s (s', outs) = settled outs ++ held s' ≡ held s ++ admitted outs

  abbrev pub Counted : Sender E → Sender E × List (Output E) → Type 0
  Counted s (s', outs) = s'.dropped ≡ s.dropped + lost outs

  drain_from-held : (es : List E) (s : Sender E) → s.queue ≡ es → held (drain_from es s) ≡ es
  unfolding drain_from
  drain_from-held [] s e = e
  drain_from-held (x ∷ es) s e = take-append-drop (min max_batch_size (length (x ∷ es))) (x ∷ es)

  drain_from-dropped : (es : List E) (s : Sender E) → (drain_from es s).dropped ≡ s.dropped
  unfolding drain_from
  drain_from-dropped [] s = refl
  drain_from-dropped (x ∷ es) s = refl

  pub drain-held : (s : Sender E) → held (drain s) ≡ s.queue
  unfolding drain
  drain-held s = drain_from-held s.queue s refl

  pub drain-dropped : (s : Sender E) → (drain s).dropped ≡ s.dropped
  unfolding drain
  drain-dropped s = drain_from-dropped s.queue s

  request_in-held :
      (s : Sender E) (p : Phase E)
      → s.phase ≡ p
      → (held (request_in p s) ≡ held s) × ((request_in p s).dropped ≡ s.dropped)
  unfolding request_in
  request_in-held s idle e =
      let t = record s { drain_requested = false } in
      (drain-held t ∙ sym (ap (λ p. in_flight p ++ s.queue) e), drain-dropped t)
  request_in-held s _ e = (refl, refl)

  pub stop-held : (s : Sender E) → (held (stop s) ≡ held s) × ((stop s).dropped ≡ s.dropped)
  unfolding stop
  stop-held s = request_in-held (record s { running = false; timer = false }) s.phase refl

  held_at : (s : Sender E) (p : Phase E) → s.phase ≡ p → held s ≡ in_flight p ++ s.queue
  held_at s p e = ap (λ q. in_flight q ++ s.queue) e

  -- The books of a move that puts nothing out, and of one that puts out what was in flight.
  pub quiet :
      (s s' : Sender E)
      → held s' ≡ held s
      → s'.dropped ≡ s.dropped
      → Balanced s (s', []) × Counted s (s', [])
  unfolding settled admitted lost
  quiet s s' e d = (e ∙ sym (append-nil (held s)), omega arith)

  sent :
      (s : Sender E) (p : Phase E) (s' : Sender E)
      → s.phase ≡ p
      → held s' ≡ s.queue
      → (in_flight p ++ []) ++ held s' ≡ held s ++ []
  sent s p s' e h = simp (append-nil, h) (sym (held_at s p e))

  answer_in-books :
      (config : Config) (ok : Bool) (s : Sender E) (p : Phase E)
      → s.phase ≡ p
      → Balanced s (answer_in config ok p s) × Counted s (answer_in config ok p s)
  unfolding answer_in settled admitted lost
  answer_in-books config true s (sending batch attempt) e =
      (sent s (sending batch attempt) (drain s) e (drain-held s), omega (arith, drain-dropped s))
  answer_in-books config false s (sending batch attempt) e = ground (
    arith,
    held_at s (sending batch attempt) e,
    append-nil batch,
    append-nil (held s),
    append-nil (batch ++ s.queue),
  )
  answer_in-books config ok s _ e = quiet s s refl refl

  retry_in-books :
      (s : Sender E) (p : Phase E)
      → s.phase ≡ p
      → Balanced s (retry_in p s, []) × Counted s (retry_in p s, [])
  unfolding retry_in
  retry_in-books s (waiting batch attempt) e =
      quiet s (record s { phase = sending batch (attempt + 1) })
        (sym (held_at s (waiting batch attempt) e)) refl
  retry_in-books s _ e = quiet s s refl refl

  resume_in-books :
      (s : Sender E) (p : Phase E)
      → s.phase ≡ p
      → Balanced s (resume_in p s, []) × Counted s (resume_in p s, [])
  unfolding resume_in
  resume_in-books s drained e =
      let t = record s { drain_requested = false } in
      let shut = sym (held_at s drained e) in
      if_cases (λ s'. Balanced s (s', []) × Counted s (s', [])) s.drain_requested
        (λ _. quiet s (drain t) (drain-held t ∙ shut) (drain-dropped t))
        (λ _. quiet s (record s { phase = idle }) shut refl)
  resume_in-books s _ e = quiet s s refl refl

  tick-books : (s : Sender E) → Balanced s (tick s, []) × Counted s (tick s, [])
  unfolding tick
  tick-books s =
      let r = request_in-held s s.phase refl in
      let still = quiet s s refl refl in
      let P = λ (s' : Sender E). Balanced s (s', []) × Counted s (s', []) in
      if_cases P s.timer
        (λ _. if_cases P s.running (λ _. quiet s (request_in s.phase s) r.0 r.1) (λ _. still))
        (λ _. still)

  enqueue-books :
      (config : Config) (s : Sender E) (e : E)
      → Balanced s (enqueued e (enqueue config s e)) × Counted s (enqueued e (enqueue config s e))
  unfolding enqueue settled admitted lost
  enqueue-books config s e =
      if_cases (λ r. Balanced s (enqueued e r) × Counted s (enqueued e r))
        (leb config.event_queue_size (length s.queue))
        (λ _. (sym (append-nil (held s)), omega arith))
        (λ _. (sym (append_assoc (in_flight s.phase) s.queue (e ∷ [])), omega arith))

  pub step-books :
      (config : Config) (s : Sender E) (i : Input E)
      → Balanced s (step config s i) × Counted s (step config s i)
  unfolding step start stop
  step-books config s (enqueues e) = enqueue-books config s e
  step-books config s starts = quiet s (start s) refl refl
  step-books config s ticks = tick-books s
  step-books config s stops =
      let r = request_in-held (record s { running = false; timer = false }) s.phase refl in
      quiet s (stop s) r.0 r.1
  step-books config s (answers ok) = answer_in-books config ok s s.phase refl
  step-books config s retry_due = retry_in-books s s.phase refl
  step-books config s resumes = resume_in-books s s.phase refl

  pub Balanced-trans :
      (s s' s'' : Sender E) (outs rest : List (Output E))
      → Balanced s (s', outs)
      → Balanced s' (s'', rest)
      → Balanced s (s'', outs ++ rest)
  Balanced-trans s s' s'' outs rest now later =
      settled (outs ++ rest) ++ held s''
      ≡⟨ (simp (settled-append, append_assoc)) ⟩ settled outs ++ (settled rest ++ held s'')
      ≡⟨ ap (◌++◌ (settled outs)) later ⟩ settled outs ++ (held s' ++ admitted rest)
      ≡⟨ sym (append_assoc (settled outs) (held s') (admitted rest)) ⟩
        (settled outs ++ held s') ++ admitted rest
      ≡⟨ ap (λ t. t ++ admitted rest) now ⟩ (held s ++ admitted outs) ++ admitted rest
      ≡⟨ (simp (admitted-append, append_assoc)) ⟩ held s ++ admitted (outs ++ rest) ∎

  -- Over every sequence of inputs, the events that leave the sender, in order, followed by those
  -- that it still holds, are the events that it held at first, followed by those that it took in.
  pub run-Balanced :
      (config : Config) (s : Sender E) (is : List (Input E)) → Balanced s (run config s is)
  unfolding run
  run-Balanced config s [] = (quiet s s refl refl).0
  run-Balanced config s (i ∷ is) =
      let (s', outs) = step config s i in
      let (s'', rest) = run config s' is in
      Balanced-trans s s' s'' outs rest (step-books config s i).0 (run-Balanced config s' is)

  -- `droppedCount` is exactly the number of the events that were refused or given up.
  pub run-Counted :
      (config : Config) (s : Sender E) (is : List (Input E)) → Counted s (run config s is)
  unfolding run
  run-Counted config s [] = (quiet s s refl refl).1
  run-Counted config s (i ∷ is) = omega (
    arith,
    lost-append (step config s i).1 (run config (step config s i).0 is).1,
    (step-books config s i).1,
    run-Counted config (step config s i).0 is,
  )
