-- ===== src/Agent/Policy/Tests.antt =====
-- Decisions on concrete facts.
use pi_ops.Base.{All, ◌≡◌, ◌≢◌, refl, true, false, List, [], ◌∷◌, none, ◌↔◌, map}
use pi_ops.Base.Text.{non_blank, has_stack_frame}
use mathlib.Core.List.{Memᴰ}
use pi_ops.Agent.Policy.{
  NotificationObservation, SourceRef, event, known, unknown, brief, unknown_impact, exited, missing,
  failure, ordinary_error, jvm_exception, docker, health, FirstNotificationFacts, alert, analyze,
  record_only, jvm_oome, health_binding_missing, health_binding, decide_first_notification,
  source_of, counts, echoed_count, failures_field, collect_missing, recorded, recognized_oome,
  recognized_overflow, is_critical_operation, docker_oom_killed, bound_health_failure,
  bound_critical_task, sustained_unknown_impact, gaps_of, unique, may_have_impact,
}
use pi_ops.Agent.Policy.Major.{MajorFact}
use pi_ops.Agent.Policy.Laws.{OpenError, decide-alert_iff, decide-alert_sources, decide-analyze_iff}
use pi_ops.Agent.Policy.Forget.{forget, decide-forget}
use pi_ops.Agent.Policy.Gaps.{echoed_count-known_iff}

frames :
    (has_stack_frame "java.lang.StackOverflowError\n\tat a.B.run(B.java:3)" ≡ true)
    × (has_stack_frame "looks at nothing" ≡ false)
    × (non_blank " \t\n" ≡ false)
unfolding has_stack_frame non_blank
frames = (refl, refl, refl)

abbrev seen : SourceRef
seen = record { kind = event; id = "e1" }

abbrev oom : NotificationObservation
oom = jvm_exception "java.lang.OutOfMemoryError" "Java heap space" "" seen

abbrev stopped : NotificationObservation
stopped = docker "die" false (exited 137) seen

abbrev slow : NotificationObservation
slow = ordinary_error brief unknown_impact (known 3) unknown (known 9) seen

abbrev unbound : NotificationObservation
unbound = health missing failure seen

abbrev facts_of : List NotificationObservation → FirstNotificationFacts
facts_of os = record { observations = os; gaps = []; unknown_impact_due_at = none }

oom_alerts :
    let d = decide_first_notification (facts_of (stopped ∷ slow ∷ oom ∷ [])) in
    (d.action ≡ alert) × (d.reason ≡ jvm_oome) × (d.failures ≡ known 3) × (d.requests ≡ unknown)
unfolding decide_first_notification echoed_count recognized_oome non_blank
oom_alerts = (refl, refl, refl, refl)

unbound_records :
    let d = decide_first_notification (facts_of (unbound ∷ [])) in
    (d.action ≡ record_only) × (d.reason ≡ health_binding_missing) × (d.gaps ≡ health_binding ∷ [])
unfolding decide_first_notification recognized_oome recognized_overflow is_critical_operation
    docker_oom_killed bound_health_failure bound_critical_task sustained_unknown_impact recorded
    collect_missing gaps_of unique
unbound_records = (refl, refl, refl)

abbrev crash : FirstNotificationFacts
crash = facts_of (stopped ∷ slow ∷ oom ∷ [])

crash_alerts : (decide_first_notification crash).action ≡ alert
unfolding decide_first_notification recognized_oome non_blank
crash_alerts = refl

abbrev open_error_facts : FirstNotificationFacts
open_error_facts = facts_of (stopped ∷ slow ∷ [])

open_error_quiet : (decide_first_notification open_error_facts).action ≢ alert
unfolding decide_first_notification recognized_oome recognized_overflow is_critical_operation
    docker_oom_killed bound_health_failure bound_critical_task sustained_unknown_impact recorded
    may_have_impact
open_error_quiet e = cc

decide-alert_iff_example :
    ((decide_first_notification crash).action ≡ alert)
    ↔ ((o : NotificationObservation) × Memᴰ o crash.observations × MajorFact o)
decide-alert_iff_example = decide-alert_iff crash

decide-alert_sources_example :
    (o : NotificationObservation) × Memᴰ o crash.observations
    × MajorFact o
    × ((decide_first_notification crash).sources ≡ source_of o ∷ [])
decide-alert_sources_example = decide-alert_sources crash crash_alerts

decide-analyze_iff_example :
    ((decide_first_notification open_error_facts).action ≡ analyze)
    ↔ ((o : NotificationObservation) × Memᴰ o open_error_facts.observations × OpenError o)
decide-analyze_iff_example = decide-analyze_iff open_error_facts open_error_quiet

decide-forget_example :
    decide_first_notification
      (record open_error_facts { observations = map forget open_error_facts.observations })
    ≡ decide_first_notification open_error_facts
decide-forget_example = decide-forget open_error_facts

echoed_count-known_iff_example : (echoed_count (stopped ∷ slow ∷ []) failures_field ≡ known 3) ↔ (
    (counts failures_field (stopped ∷ slow ∷ []) ≢ [])
    × All (λ c. c ≡ known 3) (counts failures_field (stopped ∷ slow ∷ [])))
echoed_count-known_iff_example = echoed_count-known_iff (stopped ∷ slow ∷ []) failures_field 3
