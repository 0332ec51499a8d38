-- ===== src/NodeAgent/Sender/Flush.antt =====
-- What `stop` achieves: it flushes the whole queue while the agent answers, and leaves the rest of
-- the queue behind after the first batch that fails for good.
use pi_ops.Base.{
  ℕ, zero, suc, ◌+◌, ◌≤◌, ◌<◌, ◌≡◌, refl, sym, ap, ◌∙◌, Bool, true, false, List, [], ◌∷◌, ◌++◌,
  arith, length, ◌⊎◌, inr, if_cases, length-drop, subst, inl, min, append-nil,
}
use pi_ops.NodeAgent.Sender.{
  Config, max_batch_size, Phase, idle, drained, sending, waiting, Sender, Input, retry_due, resumes,
  answers, Output, given_up, drain_from, drain, request_in, answer_in, retry_in, resume_in, step,
  stop, tick,
}
use pi_ops.NodeAgent.Sender.Books.{
  held, settled, admitted, lost, Balanced, Counted, Balanced-trans, step-books, lost-append,
  admitted-append, quiet, stop-held,
}

abbrev due : Bool → ℕ
due true = 1
due false = 0

module _ {ℓ} {E : Type ℓ} where
  -- The input that a phase waits for, when the agent accepts every batch.
  abbrev pub next_input : Phase E → Input E
  next_input idle = resumes
  next_input drained = resumes
  next_input (sending batch attempt) = answers true
  next_input (waiting batch attempt) = retry_due

  -- The flush, left to itself for `fuel` inputs, with an agent that accepts every batch.
  pub settle : ℕ → Config → Sender E → Sender E × List (Output E)
  settle zero config s = (s, [])
  settle (suc fuel) config s =
      let (s', outs) = step config s (next_input s.phase) in
      let (s'', rest) = settle fuel config s' in (s'', outs ++ rest)

  abbrev weight : Phase E → ℕ
  weight idle = 0
  weight drained = 1
  weight (sending batch attempt) = 2
  weight (waiting batch attempt) = 3

  -- How many inputs the flush still needs, at most.
  abbrev pub effort : Sender E → ℕ
  effort s = length s.queue + weight s.phase + due s.drain_requested

  -- The run in flight will come to the end of the queue.
  abbrev pub WillEmpty : Phase E → Sender E → Type ℓ
  WillEmpty idle s = s.queue ≡ []
  WillEmpty drained s = (s.drain_requested ≡ true) ⊎ (s.queue ≡ [])
  WillEmpty (sending batch attempt) s = Unit
  WillEmpty (waiting batch attempt) s = Unit

  length_zero : (xs : List E) → length xs ≤ 0 → xs ≡ []
  length_zero [] h = refl
  length_zero (x ∷ xs) h = absurd (omega arith)

  drain_from-effort :
      (es : List E) (s : Sender E)
      → s.queue ≡ es
      → (effort (drain_from es s) ≤ length es + 1 + due s.drain_requested)
        × WillEmpty (drain_from es s).phase (drain_from es s)
  unfolding drain_from
  drain_from-effort [] s e = (omega (arith, ap length e), inr e)
  drain_from-effort (x ∷ es) s e =
      (omega (arith, length-drop (min max_batch_size (length (x ∷ es))) (x ∷ es)), tt)

  drain-effort :
      (s : Sender E)
      → (effort (drain s) ≤ length s.queue + 1 + due s.drain_requested)
        × WillEmpty (drain s).phase (drain s)
  unfolding drain
  drain-effort s = drain_from-effort s.queue s refl

  request_in-WillEmpty :
      (p : Phase E) (s : Sender E) → s.phase ≡ p → WillEmpty (request_in p s).phase (request_in p s)
  unfolding request_in
  request_in-WillEmpty idle s e = (drain-effort (record s { drain_requested = false })).1
  request_in-WillEmpty drained s e =
      subst (λ q. WillEmpty q (record s { drain_requested = true })) (sym e) (inl refl)
  request_in-WillEmpty (sending batch attempt) s e =
      subst (λ q. WillEmpty q (record s { drain_requested = true })) (sym e) tt
  request_in-WillEmpty (waiting batch attempt) s e =
      subst (λ q. WillEmpty q (record s { drain_requested = true })) (sym e) tt

  abbrev Advances : Sender E → Sender E → Type ℓ
  Advances s s' = ((s.phase ≡ idle) ⊎ (effort s' < effort s)) × WillEmpty s'.phase s'

  resume-Advances :
      (s : Sender E) → s.phase ≡ drained → WillEmpty drained s → Advances s (resume_in drained s)
  unfolding resume_in
  resume-Advances s e w =
      let (less, more) = drain-effort (record s { drain_requested = false }) in
      let few = ap weight e in
      if_cases (Advances s) s.drain_requested
        (λ yes'. (inr (omega (arith, less, few, ap due yes')), more))
        (λ no'. (inr (omega (arith, few)), ground arith))

  advance :
      (config : Config) (s : Sender E) (p : Phase E)
      → s.phase ≡ p
      → WillEmpty p s
      → Advances s (step config s (next_input p)).0
  unfolding step answer_in resume_in retry_in
  advance config s idle e w =
      subst (λ q. Advances s (resume_in q s)) (sym e) (inl e, subst (λ q. WillEmpty q s) (sym e) w)
  advance config s drained e w =
      subst (λ q. Advances s (resume_in q s)) (sym e) (resume-Advances s e w)
  advance config s (sending batch attempt) e w =
      let (less, more) = drain-effort s in
      subst (λ q. Advances s (answer_in config true q s).0) (sym e)
        (inr (omega (arith, less, ap weight e)), more)
  advance config s (waiting batch attempt) e w =
      subst (λ q. Advances s (retry_in q s)) (sym e) (inr (omega (arith, ap weight e)), tt)

  weight_zero : (p : Phase E) → weight p ≤ 0 → p ≡ idle
  weight_zero idle h = refl
  weight_zero drained h = absurd (omega arith)
  weight_zero (sending batch attempt) h = absurd (omega arith)
  weight_zero (waiting batch attempt) h = absurd (omega arith)

  step_idle :
      (config : Config) (s : Sender E)
      → s.phase ≡ idle
      → step config s (next_input s.phase) ≡ (s, [])
  unfolding step resume_in
  step_idle config s e =
      subst (λ q. step config s (next_input q) ≡ (s, [])) (sym e)
        (subst (λ q. ◌≡◌ {A = Sender E × List (Output E)} (resume_in q s, []) (s, [])) (sym e) refl)

  settle_idle :
      (fuel : ℕ) (config : Config) (s : Sender E) → s.phase ≡ idle → (settle fuel config s).0 ≡ s
  unfolding settle
  settle_idle zero config s e = refl
  settle_idle (suc fuel) config s e = rw (step_idle config s e) (settle_idle fuel config s e)

  settle-WillEmpty :
      (fuel : ℕ) (config : Config) (s : Sender E)
      → effort s ≤ fuel
      → WillEmpty s.phase s
      → ((settle fuel config s).0.phase ≡ idle) × ((settle fuel config s).0.queue ≡ [])
  unfolding settle
  settle-WillEmpty zero config s f w =
      (weight_zero s.phase (omega arith), length_zero s.queue (omega arith))
  settle-WillEmpty (suc fuel) config s f w =
      let (less, more) = advance config s s.phase refl w in
      elim less [
        | inl e ↦
            let still = settle_idle (suc fuel) config s e in
            (ap (λ t. t.phase) still ∙ e, ap (λ t. t.queue) still ∙ subst (λ q. WillEmpty q s) e w)
        | inr d ↦
            settle-WillEmpty fuel config (step config s (next_input s.phase)).0 (omega arith) more
      ]

  answer_in-quiet :
      (config : Config) (s : Sender E) (q : Phase E)
      → (admitted (answer_in config true q s).1 ≡ []) × (lost (answer_in config true q s).1 ≡ 0)
  unfolding answer_in admitted lost
  answer_in-quiet config s (sending batch attempt) = (refl, refl)
  answer_in-quiet config s _ = (refl, refl)

  step-quiet :
      (config : Config) (s : Sender E) (p : Phase E)
      → (admitted (step config s (next_input p)).1 ≡ [])
        × (lost (step config s (next_input p)).1 ≡ 0)
  unfolding step admitted lost
  step-quiet config s (sending batch attempt) = answer_in-quiet config s s.phase
  step-quiet config s _ = (refl, refl)

  -- The flush is a run of the sender on inputs that enqueue nothing.
  settle-books :
      (fuel : ℕ) (config : Config) (s : Sender E)
      → Balanced s (settle fuel config s)
        × Counted s (settle fuel config s)
        × (admitted (settle fuel config s).1 ≡ [])
        × (lost (settle fuel config s).1 ≡ 0)
  unfolding settle admitted lost
  settle-books zero config s = ((quiet s s refl refl).0, (quiet s s refl refl).1, refl, refl)
  settle-books (suc fuel) config s =
      let (s', outs) = step config s (next_input s.phase) in
      let (s'', rest) = settle fuel config s' in
      let (now, counted_now) = step-books config s (next_input s.phase) in
      let (later, counted_later, none_in, none_lost) = settle-books fuel config s' in
      let (no_in, no_lost) = step-quiet config s s.phase in
      (
        Balanced-trans s s' s'' outs rest now later,
        omega (arith, lost-append outs rest, counted_now, counted_later),
        simp (admitted-append, no_in, none_in),
        omega (arith, lost-append outs rest, no_lost, none_lost),
      )

  stop-WillEmpty : (s : Sender E) → WillEmpty (stop s).phase (stop s)
  unfolding stop
  stop-WillEmpty s = request_in-WillEmpty s.phase (record s { running = false; timer = false }) refl

  -- `stop` flushes: from any state, while the agent accepts every batch, the run that `stop` starts
  -- or asks on ends, with an empty queue; every event that the sender held is delivered, in order,
  -- and none is dropped.
  pub stop-flushes :
      (config : Config) (s : Sender E)
      → let t = settle (effort (stop s)) config (stop s) in
        (t.0.phase ≡ idle) × (t.0.queue ≡ []) × (settled t.1 ≡ held s) × (t.0.dropped ≡ s.dropped)
  stop-flushes config s =
      let (ends, empty) =
        settle-WillEmpty (effort (stop s)) config (stop s) (omega arith) (stop-WillEmpty s) in
      let (even, counted, none_in, none_lost) = settle-books (effort (stop s)) config (stop s) in
      let (kept, still) = stop-held s in
      let holds_none : held (settle (effort (stop s)) config (stop s)).0 ≡ [] = cc (ends, empty) in
      (
        ends,
        empty,
        sym (append-nil _)
            ∙ ap (◌++◌ _) (sym holds_none)
            ∙ even
            ∙ ap (◌++◌ _) none_in
            ∙ append-nil _
            ∙ kept,
        omega (arith, counted, still, none_lost),
      )

  -- The run is over; the queue is as it was, and only `batch` counts as dropped.
  abbrev pub IsAbandoned : Sender E → List E → Sender E × List (Output E) → Type ℓ
  IsAbandoned s batch (t, outs) =
      (t.phase ≡ idle)
      × (t.queue ≡ s.queue)
      × (t.dropped ≡ s.dropped + length batch)
      × (outs ≡ given_up batch ∷ [])

  abbrev finish : Sender E × List (Output E) → Sender E × List (Output E)
  finish (a, outs) = (tick (resume_in a.phase a), outs ++ [])
