-- ===== src/NodeAgent/Hysteresis/Tests.antt =====
-- Runs of the debouncer.
use pi_ops.Base.{◌+◌, ◌*◌, ◌≤◌, ◌≡◌, refl, Bool, true, false, List, [], ◌∷◌, arith, length}
use pi_ops.NodeAgent.Hysteresis.{
  pressure, recovery, create_hysteresis_state, sample, samples, reset,
}
use pi_ops.NodeAgent.Hysteresis.Laws.{
  Alternates, samples-Alternates, samples-budget, samples-threshold,
}

abbrev spiky : List Bool
spiky = true ∷ false ∷ true ∷ true ∷ true ∷ false ∷ false ∷ true ∷ false ∷ false ∷ []

spiky_run : (samples 2 spiky create_hysteresis_state).1 ≡ pressure ∷ recovery ∷ []
unfolding samples sample create_hysteresis_state
spiky_run = refl

reset_run :
    samples 1 (true ∷ []) (reset (samples 1 (true ∷ []) create_hysteresis_state).0)
    ≡ samples 1 (true ∷ []) create_hysteresis_state
unfolding samples sample create_hysteresis_state reset
reset_run = refl

samples-Alternates_example : Alternates false (samples 2 spiky create_hysteresis_state).1
unfolding create_hysteresis_state
samples-Alternates_example = samples-Alternates 2 spiky create_hysteresis_state

samples-budget_example :
    length (samples 2 spiky create_hysteresis_state).1 * 2
      + (samples 2 spiky create_hysteresis_state).0.consecutive_count
    ≤ 10
unfolding create_hysteresis_state
samples-budget_example = samples-budget 2 spiky create_hysteresis_state

samples-threshold_example :
    (samples 3 (true ∷ true ∷ []) (record { consecutive_count = 1; is_active = false })
      ≡ (record { consecutive_count = 0; is_active = true }, pressure ∷ []))
    × (samples 3 (true ∷ false ∷ []) (record { consecutive_count = 1; is_active = false })
        ≡ (record { consecutive_count = 0; is_active = false }, []))
samples-threshold_example = samples-threshold 3 false 1 1 1 (omega arith) (omega arith)
