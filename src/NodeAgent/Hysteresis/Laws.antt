-- ===== src/NodeAgent/Hysteresis/Laws.antt =====
-- When the debouncer fires, and how seldom.
use pi_ops.Base.{
  ℕ, zero, suc, ◌+◌, ◌*◌, ◌≤◌, ◌<◌, ◌≡◌, Bool, true, false, not, none, some, List, [], ◌∷◌, ◌++◌,
  arith, length, replicate, inl, inr, ◌⊎◌,
}
use pi_ops.NodeAgent.Hysteresis.{
  Transition, pressure, recovery, HysteresisState, sample, samples, cons_some,
}

-- The transition that leaves the state `is_active ≡ b`.
abbrev pub leaves : Bool → Transition
leaves false = pressure
leaves true = recovery

-- Pressure and recovery take turns, beginning with the one that leaves `b`.
abbrev pub Alternates : Bool → List Transition → Type 0
Alternates b [] = Unit {0}
Alternates b (t ∷ ts) = (t ≡ leaves b) × Alternates (not b) ts

sample-Alternates :
    (n : ℕ) (b : Bool) (s : HysteresisState) (ts : List Transition)
    → Alternates (sample n b s).0.is_active ts
    → Alternates s.is_active (cons_some (sample n b s).1 ts)
unfolding sample
sample-Alternates n b s ts h = ground arith

-- Whatever the samples, the transitions that fire take turns, beginning with the one that leaves
-- the current state.
pub samples-Alternates :
    (n : ℕ) (bs : List Bool) (s : HysteresisState) → Alternates s.is_active (samples n bs s).1
unfolding samples
samples-Alternates n [] s = tt
samples-Alternates n (b ∷ bs) s =
    sample-Alternates n b s (samples n bs (sample n b s).0).1
      (samples-Alternates n bs (sample n b s).0)

sample-budget :
    (n : ℕ) (b : Bool) (s : HysteresisState)
    → (((sample n b s).1 ≡ none) × ((sample n b s).0.consecutive_count ≤ s.consecutive_count + 1))
      ⊎ ((t : Transition) × ((sample n b s).1 ≡ some t)
          × (n + (sample n b s).0.consecutive_count ≤ s.consecutive_count + 1))
unfolding sample
sample-budget n b s = ground arith

-- Each transition uses up `n` samples: `k` samples fire at most `(k + count) / n` transitions.
pub samples-budget :
    (n : ℕ) (bs : List Bool) (s : HysteresisState)
    → length (samples n bs s).1 * n + (samples n bs s).0.consecutive_count
      ≤ length bs + s.consecutive_count
unfolding samples
samples-budget n [] s = omega arith
samples-budget n (b ∷ bs) s =
    let ih = samples-budget n bs (sample n b s).0 in
    elim (sample-budget n b s) [
      | inl (e, h) ↦ rw e (omega arith)
      | inr (t, e, h) ↦ rw e (omega arith)
    ]

module _ (n : ℕ) (b : Bool) where
  samples-fires :
      (k c : ℕ)
      → c + suc k ≡ n
      → samples n (replicate (suc k) (not b)) (record { consecutive_count = c; is_active = b })
        ≡ (record { consecutive_count = 0; is_active = not b }, leaves b ∷ [])
  unfolding samples sample
  samples-fires zero c h = ground arith
  samples-fires (suc k) c h = ground (arith, samples-fires k (c + 1))

  samples-interrupted :
      (k c : ℕ)
      → c + k < n
      → samples n (replicate k (not b) ++ b ∷ []) (record { consecutive_count = c; is_active = b })
        ≡ (record { consecutive_count = 0; is_active = b }, [])
  unfolding samples sample
  samples-interrupted zero c h = ground arith
  samples-interrupted (suc k) c h = ground (arith, samples-interrupted k (c + 1))

-- From either state, with `c` opposing samples counted and `k + 1` missing: `k + 1` more fire
-- exactly the transition that leaves the state, and set the count back; `j` more with `j` at most
-- `k`, followed by one sample that agrees with the state, fire nothing and set the count back too.
pub samples-threshold :
    (n : ℕ) (b : Bool) (c j k : ℕ)
    → c + suc k ≡ n
    → j ≤ k
    → (samples n (replicate (suc k) (not b)) (record { consecutive_count = c; is_active = b })
        ≡ (record { consecutive_count = 0; is_active = not b }, leaves b ∷ []))
      × (samples n (replicate j (not b) ++ b ∷ []) (record { consecutive_count = c; is_active = b })
          ≡ (record { consecutive_count = 0; is_active = b }, []))
samples-threshold n b c j k h le =
    (samples-fires n b k c h, samples-interrupted n b j c (omega arith))
