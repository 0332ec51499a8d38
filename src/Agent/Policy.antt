-- ===== src/Agent/Policy.antt =====
-- apps/agent/src/notification-policy.ts: what the first notification about an Incident may be.
-- The OOM test stands in jfr-evidence.ts: `recognizedJfrSemantic` at the arguments of this call.
mod Facts
pub mod Forget
pub mod Gaps
pub mod Major
pub mod Laws
mod Tests
use pi_ops.Base.{
  refl, String, Bool, true, false, not, ◌&&◌, ◌||◌, Option, none, some, List, [], ◌∷◌, ◌++◌, map,
  any, all, find, filter, if◌then◌else◌, ◌==◌, str_eq, leb, ℕ, ◌≡◌, ◌↔◌,
}
use pi_ops.Base.Text.{non_blank, has_stack_frame}
pub use Facts.*

-- What the collectors compare: two kinds of missing fact are one.
pub MissingFact-discrete : Discrete MissingFact
MissingFact-discrete = hlevel

abbrev is_yes {ℓ} : {A : Type ℓ} → Dec A → Bool
is_yes (yes _) = true
is_yes (no _) = false

is_yes_iff {ℓ} : {A : Type ℓ} (d : Dec A) → (is_yes d ≡ true) ↔ A
is_yes_iff (yes a) = (λ _. a, λ _. refl)
is_yes_iff (no n) = (λ h. cc, λ a. absurd (n a))

pub same_fact : MissingFact → MissingFact → Bool
unfolding MissingFact-discrete
same_fact f g = is_yes (MissingFact-discrete f g)

pub same_fact_iff : (f g : MissingFact) → (same_fact f g ≡ true) ↔ (f ≡ g)
unfolding same_fact
same_fact_iff f g = is_yes_iff (MissingFact-discrete f g)

-- `Set.prototype.has`
unfoldable pub has : List MissingFact → MissingFact → Bool
has found gap = any (λ g. same_fact g gap) found

explicit_binding : String → String → Bool
explicit_binding object_key rule_id = non_blank object_key && non_blank rule_id

-- `hasExceptionFact(attributes, true)`; the class name is shorter than 256 characters.
has_oom_fact : String → String → String → Bool
has_oom_fact clazz message stack =
    str_eq clazz "java.lang.OutOfMemoryError" && (non_blank message || non_blank stack)

unfoldable pub recognized_oome : NotificationObservation → Bool
unfolding has_oom_fact
recognized_oome (jvm_exception clazz message stack source) = has_oom_fact clazz message stack
recognized_oome _ = false

unfoldable pub recognized_overflow : NotificationObservation → Bool
recognized_overflow (jvm_exception clazz message stack source) =
    str_eq clazz "java.lang.StackOverflowError" && has_stack_frame stack
recognized_overflow _ = false

unfoldable pub is_critical_operation : NotificationObservation → Bool
is_critical_operation (critical_operation rule_id operation workflow source) = true
is_critical_operation _ = false

unfoldable pub docker_oom_killed : NotificationObservation → Bool
docker_oom_killed (docker action oom_killed exit_code source) = str_eq action "oom" || oom_killed
docker_oom_killed _ = false

unfoldable pub bound_health_failure : NotificationObservation → Bool
unfolding explicit_binding
bound_health_failure (health (bound target rule_id) failure source) =
    explicit_binding target rule_id
bound_health_failure _ = false

unfoldable pub bound_critical_task : NotificationObservation → Bool
unfolding explicit_binding
bound_critical_task (critical_task failed (bound object_key rule_id) source) =
    explicit_binding object_key rule_id
bound_critical_task _ = false

unfoldable pub sustained_unknown_impact : NotificationObservation → Bool
sustained_unknown_impact (ordinary_error sustained unknown_impact failures requests lines source) =
    true
sustained_unknown_impact _ = false

-- `healthBindingMissing` and `taskBindingMissing`, of the binding that they look at.
unfoldable pub binding_missing : Binding → Bool
unfolding explicit_binding
binding_missing missing = true
binding_missing (bound object rule_id) = not (explicit_binding object rule_id)

-- The field that `echoedCount` is asked for.
pub data Field : Type 0 where
  failures_field requests_field : Field

abbrev pick : Field → CountFact → CountFact → CountFact
pick failures_field failures requests = failures
pick requests_field failures requests = requests

-- The counts of the observations that carry any.
unfoldable pub counts : Field → List NotificationObservation → List CountFact
counts field [] = []
counts field (expected_rejection failures requests source ∷ os) =
    pick field failures requests ∷ counts field os
counts field (short_peak failures requests source ∷ os) =
    pick field failures requests ∷ counts field os
counts field (ordinary_error p i failures requests lines source ∷ os) =
    pick field failures requests ∷ counts field os
counts field (_ ∷ os) = counts field os

unfoldable pub is_unknown : CountFact → Bool
is_unknown unknown = true
is_unknown (known value) = false

unfoldable pub is_value : ℕ → CountFact → Bool
is_value v unknown = false
is_value v (known value) = value == v

agreed : List CountFact → CountFact
agreed [] = unknown
agreed (unknown ∷ values) = unknown
agreed (known v ∷ values) = if all (is_value v) (known v ∷ values) then known v else unknown

unfoldable pub echoed_count : List NotificationObservation → Field → CountFact
unfolding counts is_unknown is_value agreed
echoed_count observations field =
    let values = counts field observations in
    if any is_unknown values then unknown else agreed values

when : Bool → MissingFact → List MissingFact
when true gap = gap ∷ []
when false gap = []

is_unknown_persistence : Persistence → Bool
is_unknown_persistence unknown_persistence = true
is_unknown_persistence _ = false

is_unknown_impact : Impact → Bool
is_unknown_impact unknown_impact = true
is_unknown_impact no_impact = false

is_unknown_result : TaskResult → Bool
is_unknown_result unknown_result = true
is_unknown_result _ = false

count_gaps : CountFact → CountFact → List MissingFact
unfolding when is_unknown
count_gaps failures requests =
    when (is_unknown failures) failure_count ++ when (is_unknown requests) request_count

-- What one round of the loop in `collectMissing` adds to `found`.
unfoldable pub gaps_of : NotificationObservation → List MissingFact
unfolding count_gaps when is_unknown_persistence is_unknown_impact is_unknown_result binding_missing
gaps_of (expected_rejection failures requests source) = count_gaps failures requests
gaps_of (short_peak failures requests source) = count_gaps failures requests
gaps_of (ordinary_error p i failures requests lines source) =
    count_gaps failures requests
    ++ when (is_unknown_persistence p) persistence
    ++ when (is_unknown_impact i) impact
gaps_of (critical_operation rule_id operation workflow source) = []
gaps_of (jvm_exception clazz message stack source) = []
gaps_of (docker action oom_killed exit_code source) = []
gaps_of (health binding transition source) = when (binding_missing binding) health_binding
gaps_of (critical_task result binding source) =
    when (binding_missing binding) critical_task_binding
    ++ when (is_unknown_result result) critical_task_result

gaps_of_all : List NotificationObservation → List MissingFact
gaps_of_all [] = []
gaps_of_all (o ∷ os) = gaps_of o ++ gaps_of_all os

carries_counts : NotificationObservation → Bool
carries_counts (expected_rejection failures requests source) = true
carries_counts (short_peak failures requests source) = true
carries_counts (ordinary_error p i failures requests lines source) = true
carries_counts _ = false

found_gaps : List NotificationObservation → List MissingFact
unfolding gaps_of_all carries_counts echoed_count when is_unknown
found_gaps observations =
    gaps_of_all observations
    ++ (if any carries_counts observations
        then when (is_unknown (echoed_count observations failures_field)) failure_count
          ++ when (is_unknown (echoed_count observations requests_field)) request_count
        else [])

abbrev pub gap_order : List MissingFact
gap_order =
    failure_count ∷ request_count ∷ persistence ∷ impact ∷ health_binding ∷ critical_task_binding
    ∷ critical_task_result ∷ []

unfoldable pub collect_missing : List NotificationObservation → List MissingFact
unfolding found_gaps has same_fact
collect_missing observations = filter (has (found_gaps observations)) gap_order

-- `[...new Set(xs)]`, `seen` being what the set holds.
unique_from : List MissingFact → List MissingFact → List MissingFact
unfolding has
unique_from seen [] = []
unique_from seen (x ∷ xs) =
    let rest = unique_from (if has seen x then seen else x ∷ seen) xs in
    if has seen x then rest else x ∷ rest

unfoldable pub unique : List MissingFact → List MissingFact
unfolding unique_from
unique xs = unique_from [] xs

record_reason : NotificationObservation → FirstNotificationReason
unfolding binding_missing
record_reason (expected_rejection failures requests source) = expected_rejection_recorded
record_reason (short_peak failures requests source) = short_peak_recorded
record_reason (ordinary_error p i failures requests lines source) = ordinary_without_major_fact
record_reason (critical_operation rule_id operation workflow source) = critical_operation_failed
record_reason (jvm_exception clazz message stack source) = exception_not_oome
record_reason (docker action oom_killed exit_code source) = container_exit_without_oom
record_reason (health binding transition source) =
    if binding_missing binding then health_binding_missing else health_not_unavailable
record_reason (critical_task unknown_result binding source) = critical_task_result_unknown
record_reason (critical_task succeeded binding source) = critical_task_succeeded
record_reason (critical_task failed binding source) = critical_task_binding_missing

unfoldable pub source_of : NotificationObservation → SourceRef
source_of (expected_rejection failures requests source) = source
source_of (short_peak failures requests source) = source
source_of (ordinary_error p i failures requests lines source) = source
source_of (jvm_exception clazz message stack source) = source
source_of (docker action oom_killed exit_code source) = source
source_of (health binding transition source) = source
source_of (critical_operation rule_id operation workflow source) = source
source_of (critical_task result binding source) = source

-- An ordinary error whose impact is not known to be none.
unfoldable pub may_have_impact : NotificationObservation → Bool
unfolding is_unknown_impact
may_have_impact (ordinary_error p i failures requests lines source) = is_unknown_impact i
may_have_impact _ = false

-- The `action`, `reason` and `sources` of the decision.
abbrev pub Verdict : Type 0
Verdict = Action × FirstNotificationReason × List SourceRef

abbrev pub about : Action → FirstNotificationReason → NotificationObservation → Verdict
about action reason o = (action, reason, source_of o ∷ [])

-- `if (found) return …;` with what follows it.
unfoldable pub returns :
    Option NotificationObservation → Action → FirstNotificationReason → Verdict → Verdict
returns (some o) action reason rest = about action reason o
returns none action reason rest = rest

unfoldable pub recorded : List NotificationObservation → Verdict
unfolding record_reason source_of may_have_impact
recorded [] = (record_only, no_observation, [])
recorded (first ∷ rest) = (
  if any may_have_impact (first ∷ rest) then analyze else record_only,
  record_reason first,
  map source_of (first ∷ rest),
)

unfoldable pub verdict : List NotificationObservation → Verdict
unfolding returns
verdict os = returns (find recognized_oome os) alert jvm_oome (
    returns (find recognized_overflow os) alert jvm_stack_overflow (
      returns (find is_critical_operation os) alert critical_operation_failed (
        returns (find docker_oom_killed os) alert docker_oom (
          returns (find bound_health_failure os) alert health_unavailable (
            returns (find bound_critical_task os) alert critical_task_impact (
              returns (find sustained_unknown_impact os) analyze sustained_impact_unknown
                (recorded os)))))))

unfoldable pub decide_first_notification : FirstNotificationFacts → FirstNotificationDecision
unfolding verdict
decide_first_notification facts =
    let (action, reason, sources) = verdict facts.observations in
    record {
      action = action;
      reason = reason;
      gaps = unique (collect_missing facts.observations ++ map (λ gap. gap.reason) facts.gaps);
      failures = echoed_count facts.observations failures_field;
      requests = echoed_count facts.observations requests_field;
      sources = sources;
    }
