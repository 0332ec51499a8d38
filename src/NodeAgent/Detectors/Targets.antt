-- ===== src/NodeAgent/Detectors/Targets.antt =====
-- The health targets do not disturb each other, in whatever order their probes are answered.
use pi_ops.Base.{
  ℕ, String, eq_iff, eq_refl, Bool, true, false, not, Option, none, some, List, [], ◌∷◌, map, ◌≡◌,
  refl, sym, ap, ◌∙◌, arith, Bool-cases, inl, inr, if◌then◌else◌, subst,
}
use pi_ops.Protocol.{OpsEvent}
use pi_ops.NodeAgent.Hysteresis.{Transition, HysteresisState, sample, samples, cons_some}
use pi_ops.NodeAgent.Detectors.{Stamp}
use pi_ops.NodeAgent.Detectors.Health.{
  HealthTarget, HealthConfig, ProbeResult, TargetKey, health_target_key, same_key, same_optional,
  States, get_state, set_state, HealthDetector, health_event, health_event_of, probe_target,
  probe_known,
}

same_optional_iff : (a b : Option String) → same_optional a b ≡ true → a ≡ b
same_optional_iff none none h = refl
same_optional_iff none (some b) h = cc
same_optional_iff (some a) none h = cc
same_optional_iff (some a) (some b) h = ap some ((eq_iff a b).0 h)

same_optional_refl : (a : Option String) → same_optional a a ≡ true
same_optional_refl none = refl
same_optional_refl (some a) = eq_refl a

same_key_refl : (k : TargetKey) → same_key k k ≡ true
unfolding same_key
same_key_refl k =
    rw (eq_refl k.name, eq_refl k.url, eq_refl k.method, same_optional_refl k.container) refl

same_key_lem : (k l : TargetKey) → same_key k l ≡ true → k ≡ l
unfolding same_key
same_key_lem k l h =
    let name : k.name ≡ l.name = ground (arith, eq_iff k.name l.name) in
    let url : k.url ≡ l.url = ground (arith, eq_iff k.url l.url) in
    let method : k.method ≡ l.method = ground (arith, eq_iff k.method l.method) in
    let container : k.container ≡ l.container =
      same_optional_iff k.container l.container (ground arith) in
    cc (name, url, method, container)

get-set :
    (k : TargetKey) (h : HysteresisState) (states : States)
    → get_state k (set_state k h states) ≡ some h
unfolding get_state set_state
get-set k h [] = rw (same_key_refl k) refl
get-set k h ((l, g) ∷ states) = elim (Bool-cases (same_key k l)) [
  | inl hit ↦ rw hit (rw hit refl)
  | inr miss ↦ rw miss (rw miss (get-set k h states))
]

get-set_other :
    (k l : TargetKey) (h : HysteresisState) (states : States)
    → same_key k l ≡ false
    → get_state k (set_state l h states) ≡ get_state k states
unfolding get_state set_state
get-set_other k l h [] ne = rw ne refl
get-set_other k l h ((m, g) ∷ states) ne = elim (Bool-cases (same_key l m)) [
  | inl hit ↦
      let apart : same_key k m ≡ false =
        subst (λ x. same_key k x ≡ false) (same_key_lem l m hit) ne in
      rw hit (rw apart refl)
  | inr miss ↦ rw miss (ground (arith, get-set_other k l h states ne))
]

-- The answer of one probe.
pub record Answered : Type 0 where
  pub target : HealthTarget
  pub result : ProbeResult
  pub stamp : Stamp

abbrev pub health_type : Transition → String
health_type Transition.pressure = "health.failure"
health_type Transition.recovery = "health.recovered"

-- The samples of one target among the answers.
abbrev pub samples_of : TargetKey → List Answered → List Bool
samples_of k [] = []
samples_of k (a ∷ later) =
    let rest = samples_of k later in
    if same_key k (health_target_key a.target) then not a.result.is_ok ∷ rest else rest

abbrev keyed :
    TargetKey → Option OpsEvent → List (TargetKey × OpsEvent) → List (TargetKey × OpsEvent)
keyed k none reports = reports
keyed k (some e) reports = (k, e) ∷ reports

-- The types of the reports on one target.
abbrev pub types_of : TargetKey → List (TargetKey × OpsEvent) → List String
types_of k [] = []
types_of k ((l, e) ∷ reports) =
    let rest = types_of k reports in if same_key k l then e.type ∷ rest else rest

module _ (show : ℕ → String) (config : HealthConfig) where
  -- The answers of probes in any order, with the reports that they lead to.
  unfoldable pub answer_each :
      List Answered → HealthDetector → HealthDetector × List (TargetKey × OpsEvent)
  answer_each [] d = (d, [])
  answer_each (a ∷ later) d =
      let (d', event) = probe_target show config a.target a.result a.stamp d in
      let (d'', reports) = answer_each later d' in
      (d'', keyed (health_target_key a.target) event reports)

  health_event-type :
      (t : Transition) (target : HealthTarget) (result : ProbeResult) (stamp : Stamp)
      → (health_event show config t target result stamp).type ≡ health_type t
  unfolding health_event
  health_event-type Transition.pressure target result stamp = refl
  health_event-type Transition.recovery target result stamp = refl

  -- A target's state and its reports are what its own samples make of its debouncer.
  abbrev pub Tracks :
      TargetKey
      → HysteresisState
      → List Bool
      → HealthDetector × List (TargetKey × OpsEvent)
      → Type 0
  Tracks k h bs after =
      (get_state k after.0.states ≡ some (samples config.health_failure_duration bs h).0)
      × (types_of k after.1 ≡ map health_type (samples config.health_failure_duration bs h).1)

  types_of-keyed_other :
      (k l : TargetKey) (event : Option OpsEvent) (reports : List (TargetKey × OpsEvent))
      → same_key k l ≡ false
      → types_of k (keyed l event reports) ≡ types_of k reports
  types_of-keyed_other k l none reports ne = refl
  types_of-keyed_other k l (some e) reports ne = rw ne refl

  types_of-keyed :
      (k l : TargetKey) (o : Option Transition) (a : Answered)
      (reports : List (TargetKey × OpsEvent)) (later : List Transition)
      → same_key k l ≡ true
      → types_of k reports ≡ map health_type later
      → types_of k (keyed l (health_event_of show config o a.target a.result a.stamp) reports)
        ≡ map health_type (cons_some o later)
  types_of-keyed k l none a reports later same e = e
  types_of-keyed k l (some t) a reports later same e =
      rw same (cc (health_event-type t a.target a.result a.stamp, e))

  known-other :
      (k : TargetKey) (a : Answered) (d : HealthDetector) (o : Option HysteresisState)
      → same_key k (health_target_key a.target) ≡ false
      → get_state k (probe_known show config a.target a.result a.stamp d o).0.states
        ≡ get_state k d.states
  unfolding probe_known
  known-other k a d none ne = refl
  known-other k a d (some g) ne = get-set_other k (health_target_key a.target) _ d.states ne

  probe-other :
      (k : TargetKey) (a : Answered) (d : HealthDetector)
      → same_key k (health_target_key a.target) ≡ false
      → get_state k (probe_target show config a.target a.result a.stamp d).0.states
        ≡ get_state k d.states
  unfolding probe_target
  probe-other k a d ne = known-other k a d (get_state (health_target_key a.target) d.states) ne

  probe-own :
      (a : Answered) (d : HealthDetector) (h : HysteresisState)
      → get_state (health_target_key a.target) d.states ≡ some h
      → probe_target show config a.target a.result a.stamp d
        ≡ probe_known show config a.target a.result a.stamp d (some h)
  unfolding probe_target
  probe-own a d h e = rw e refl

  -- For each target with a state, in whatever order the answers of all targets come in: its state
  -- and the reports on it are exactly what its own answers make of its own debouncer.
  pub answer_each-Tracks :
      (answers : List Answered) (d : HealthDetector) (k : TargetKey) (h : HysteresisState)
      → get_state k d.states ≡ some h
      → Tracks k h (samples_of k answers) (answer_each answers d)
  unfolding answer_each samples probe_known
  answer_each-Tracks [] d k h found = (found, refl)
  answer_each-Tracks (a ∷ later) d k h found =
      elim (Bool-cases (same_key k (health_target_key a.target))) [
        | inl own ↦
            let l = health_target_key a.target in
            let (h', fired) = sample config.health_failure_duration (not a.result.is_ok) h in
            let at : get_state l d.states ≡ some h =
              subst (λ x. get_state x d.states ≡ some h) (same_key_lem k l own) found in
            let d' = (probe_known show config a.target a.result a.stamp d (some h)).0 in
            let here : get_state k d'.states ≡ some h' =
              subst (λ x. get_state x d'.states ≡ some h') (sym (same_key_lem k l own))
                (get-set l h' d.states) in
            let (state, types) = answer_each-Tracks later d' k h' here in
            rw own (rw (probe-own a d h at) (state, types_of-keyed k l fired a _ _ own types))
        | inr other ↦
            let d' = (probe_target show config a.target a.result a.stamp d).0 in
            let (state, types) =
              answer_each-Tracks later d' k h (probe-other k a d other ∙ found) in
            rw other (state, types_of-keyed_other k (health_target_key a.target) _ _ other ∙ types)
      ]
