-- ===== src/NodeAgent/Hysteresis.antt =====
-- apps/node-agent/src/detectors/hysteresis.ts: the debouncer behind each detector.
pub mod Laws
mod Tests
use pi_ops.Base.{
  ℕ, ◌+◌, Bool, true, false, not, Option, none, some, List, [], ◌∷◌, leb, if◌then◌else◌,
}

pub data Transition : Type 0 where
  pressure recovery : Transition

-- The two variables that the closure keeps.
pub record HysteresisState : Type 0 where
  pub consecutive_count : ℕ
  pub is_active : Bool

unfoldable pub create_hysteresis_state : HysteresisState
create_hysteresis_state = record { consecutive_count = 0; is_active = false }

-- `sample` of a state that requires `required` consecutive samples.
sample_inactive : ℕ → Bool → HysteresisState → HysteresisState × Option Transition
sample_inactive required is_above s =
    if is_above
    then (if leb required (s.consecutive_count + 1)
        then (record { consecutive_count = 0; is_active = true }, some pressure)
        else (record s { consecutive_count = s.consecutive_count + 1 }, none))
    else (record s { consecutive_count = 0 }, none)

sample_active : ℕ → Bool → HysteresisState → HysteresisState × Option Transition
sample_active required is_above s =
    if not is_above
    then (if leb required (s.consecutive_count + 1)
        then (record { consecutive_count = 0; is_active = false }, some recovery)
        else (record s { consecutive_count = s.consecutive_count + 1 }, none))
    else (record s { consecutive_count = 0 }, none)

unfoldable pub sample : ℕ → Bool → HysteresisState → HysteresisState × Option Transition
unfolding sample_inactive sample_active
sample required is_above s =
    if not s.is_active
    then sample_inactive required is_above s
    else sample_active required is_above s

unfoldable pub reset : HysteresisState → HysteresisState
reset s = record { consecutive_count = 0; is_active = false }

abbrev pub cons_some {ℓ} : {A : Type ℓ} → Option A → List A → List A
cons_some none xs = xs
cons_some (some x) xs = x ∷ xs

-- A run of samples, with the transitions that it fires, in order.
unfoldable pub samples : ℕ → List Bool → HysteresisState → HysteresisState × List Transition
samples required [] s = (s, [])
samples required (b ∷ bs) s =
    let (s', fired) = sample required b s in
    let (s'', rest) = samples required bs s' in (s'', cons_some fired rest)
