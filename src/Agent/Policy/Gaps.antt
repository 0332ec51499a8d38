-- ===== src/Agent/Policy/Gaps.antt =====
-- What the decision reports beside its action: counts and missing facts.
use pi_ops.Base.{
  All, if◌then◌else◌, ℕ, true, false, List, [], ◌∷◌, ◌≡◌, ◌≢◌, ◌↔◌, refl, arith, any, all,
}
use pi_ops.Agent.Policy.{
  NotificationObservation, CountFact, known, unknown, MissingFact, Field, counts, echoed_count,
  is_value, agreed, has, is_unknown,
}

all-is_value :
    (v : ℕ) (cs : List CountFact) → (all (is_value v) cs ≡ true) ↔ All (λ c. c ≡ known v) cs
unfolding is_value
all-is_value v [] = ground arith
all-is_value v (unknown ∷ cs) = (λ h. cc, λ h. cc (h.0))
all-is_value v (known w ∷ cs) =
    let ih = all-is_value v cs in
    (λ h. (ground arith, ih.0 (ground arith)), λ h. ground (arith, ih.1 h.1))

all-is_value-known :
    (v : ℕ) (cs : List CountFact) → all (is_value v) cs ≡ true → any is_unknown cs ≡ false
unfolding is_value is_unknown
all-is_value-known v [] h = refl
all-is_value-known v (unknown ∷ cs) h = cc
all-is_value-known v (known w ∷ cs) h = all-is_value-known v cs (ground arith)

agreed_iff :
    (v : ℕ) (cs : List CountFact)
    → ((if any is_unknown cs then unknown else agreed cs) ≡ known v)
      ↔ ((cs ≢ []) × All (λ c. c ≡ known v) cs)
unfolding agreed is_unknown is_value
agreed_iff v [] = (λ h. cc, λ h. absurd (h.0 refl))
agreed_iff v (unknown ∷ cs) = (λ h. cc, λ h. cc (h.1.0))
agreed_iff v (known w ∷ cs) = (
  λ h. (λ e. cc, ground (arith, (all-is_value w cs).0, (all-is_value v cs).0)),
  λ h. ground (arith, (all-is_value w cs).1, (all-is_value v cs).1 h.1.1, all-is_value-known v cs),
)

-- A count is reported as known exactly when some observation carries one and all that carry one
-- say the same.
pub echoed_count-known_iff :
    (os : List NotificationObservation) (field : Field) (v : ℕ)
    → (echoed_count os field ≡ known v)
      ↔ ((counts field os ≢ []) × All (λ c. c ≡ known v) (counts field os))
unfolding echoed_count
echoed_count-known_iff os field v = agreed_iff v (counts field os)

-- No missing fact is listed twice.
abbrev pub IsDistinct : List MissingFact → Type 0
IsDistinct [] = Unit {0}
IsDistinct (g ∷ gs) = (has gs g ≡ false) × IsDistinct gs
