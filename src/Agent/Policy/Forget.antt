-- ===== src/Agent/Policy/Forget.antt =====
-- What the decision never reads: a container's exit code and the number of log lines.
use pi_ops.Base.{Bool, List, [], ◌∷◌, ◌≡◌, refl, arith, find, any, map, Option, none, some}
use mathlib.Core.Option
use pi_ops.Agent.Policy.{
  NotificationObservation, expected_rejection, short_peak, docker, critical_task, ordinary_error,
  absent, unknown, Action, FirstNotificationReason, Verdict, returns, verdict, recorded, source_of,
  recognized_oome, recognized_overflow, is_critical_operation, docker_oom_killed,
  bound_health_failure, bound_critical_task, sustained_unknown_impact, may_have_impact,
  record_reason, decide_first_notification, FirstNotificationFacts, Field, counts, echoed_count,
  collect_missing, gaps_of, gaps_of_all, carries_counts, found_gaps, failures_field, requests_field,
}

-- The observation without what is only retained: the exit code and the number of log lines.
unfoldable pub forget : NotificationObservation → NotificationObservation
forget (docker action oom_killed exit_code source) = docker action oom_killed absent source
forget (ordinary_error p i failures requests lines source) =
    ordinary_error p i failures requests unknown source
forget o = o

-- A test that does not read what `forget` drops.
abbrev Blind : (NotificationObservation → Bool) → Type 0
Blind p = (o : NotificationObservation) → p (forget o) ≡ p o

Blind-oome : Blind recognized_oome
unfolding forget recognized_oome
Blind-oome (docker action oom_killed exit_code source) = refl
Blind-oome _ = refl

Blind-overflow : Blind recognized_overflow
unfolding forget recognized_overflow
Blind-overflow (docker action oom_killed exit_code source) = refl
Blind-overflow _ = refl

Blind-operation : Blind is_critical_operation
unfolding forget is_critical_operation
Blind-operation (docker action oom_killed exit_code source) = refl
Blind-operation _ = refl

Blind-docker : Blind docker_oom_killed
unfolding forget docker_oom_killed
Blind-docker (docker action oom_killed exit_code source) = refl
Blind-docker _ = refl

Blind-health : Blind bound_health_failure
unfolding forget bound_health_failure
Blind-health (docker action oom_killed exit_code source) = refl
Blind-health _ = refl

Blind-task : Blind bound_critical_task
unfolding forget bound_critical_task
Blind-task (docker action oom_killed exit_code source) = refl
Blind-task _ = refl

Blind-sustained : Blind sustained_unknown_impact
unfolding forget sustained_unknown_impact
Blind-sustained (ordinary_error p i failures requests lines source) = ground arith
Blind-sustained (docker action oom_killed exit_code source) = refl
Blind-sustained _ = refl

Blind-impact : Blind may_have_impact
unfolding forget may_have_impact
Blind-impact (docker action oom_killed exit_code source) = refl
Blind-impact _ = refl

Blind-counts : Blind carries_counts
unfolding forget carries_counts
Blind-counts (docker action oom_killed exit_code source) = refl
Blind-counts _ = refl

source_of-forget : (o : NotificationObservation) → source_of (forget o) ≡ source_of o
unfolding forget source_of
source_of-forget (docker action oom_killed exit_code source) = refl
source_of-forget _ = refl

record_reason-forget : (o : NotificationObservation) → record_reason (forget o) ≡ record_reason o
unfolding forget record_reason
record_reason-forget (docker action oom_killed exit_code source) = refl
record_reason-forget (critical_task r b source) = refl
record_reason-forget _ = refl

gaps_of-forget : (o : NotificationObservation) → gaps_of (forget o) ≡ gaps_of o
unfolding forget gaps_of
gaps_of-forget (docker action oom_killed exit_code source) = refl
gaps_of-forget _ = refl

find-forget :
    (p : NotificationObservation → Bool)
    → Blind p
    → (os : List NotificationObservation) → find p (map forget os) ≡ Option.map forget (find p os)
find-forget p b [] = refl
find-forget p b (o ∷ os) = ground (arith, b o, find-forget p b os)

any-forget :
    (p : NotificationObservation → Bool)
    → Blind p
    → (os : List NotificationObservation) → any p (map forget os) ≡ any p os
any-forget p b [] = refl
any-forget p b (o ∷ os) = ground (arith, b o, any-forget p b os)

returns-forget :
    (found : Option NotificationObservation) (action : Action) (reason : FirstNotificationReason)
    (rest rest' : Verdict)
    → rest ≡ rest'
    → returns (Option.map forget found) action reason rest ≡ returns found action reason rest'
unfolding returns
returns-forget none action reason rest rest' e = e
returns-forget (some o) action reason rest rest' e = rw (source_of-forget o)

sources-forget :
    (os : List NotificationObservation) → map source_of (map forget os) ≡ map source_of os
sources-forget [] = refl
sources-forget (o ∷ os) = cc (source_of-forget o, sources-forget os)

recorded-forget : (os : List NotificationObservation) → recorded (map forget os) ≡ recorded os
unfolding recorded
recorded-forget [] = refl
recorded-forget (o ∷ os) = rw (
  Blind-impact o,
  any-forget may_have_impact Blind-impact os,
  record_reason-forget o,
  source_of-forget o,
  sources-forget os,
)

returns-find :
    (p : NotificationObservation → Bool)
    → Blind p
    → (os : List NotificationObservation) (action : Action) (reason : FirstNotificationReason)
      {rest rest' : Verdict}
    → rest ≡ rest'
    → returns (find p (map forget os)) action reason rest ≡ returns (find p os) action reason rest'
returns-find p b os action reason e =
    rw (find-forget p b os) (returns-forget (find p os) action reason _ _ e)

verdict-forget : (os : List NotificationObservation) → verdict (map forget os) ≡ verdict os
unfolding verdict
verdict-forget os = returns-find recognized_oome Blind-oome os _ _ (
    returns-find recognized_overflow Blind-overflow os _ _ (
      returns-find is_critical_operation Blind-operation os _ _ (
        returns-find docker_oom_killed Blind-docker os _ _ (
          returns-find bound_health_failure Blind-health os _ _ (
            returns-find bound_critical_task Blind-task os _ _ (
              returns-find sustained_unknown_impact Blind-sustained os _ _
                (recorded-forget os)))))))

counts-forget :
    (field : Field) (os : List NotificationObservation)
    → counts field (map forget os) ≡ counts field os
unfolding counts forget
counts-forget field [] = refl
counts-forget field (expected_rejection f r source ∷ os) = cc (counts-forget field os)
counts-forget field (short_peak f r source ∷ os) = cc (counts-forget field os)
counts-forget field (ordinary_error p i f r lines source ∷ os) = cc (counts-forget field os)
counts-forget field (_ ∷ os) = counts-forget field os

echoed_count-forget :
    (os : List NotificationObservation) (field : Field)
    → echoed_count (map forget os) field ≡ echoed_count os field
unfolding echoed_count
echoed_count-forget os field = rw (counts-forget field os)

gaps_of_all-forget :
    (os : List NotificationObservation) → gaps_of_all (map forget os) ≡ gaps_of_all os
unfolding gaps_of_all
gaps_of_all-forget [] = refl
gaps_of_all-forget (o ∷ os) = cc (gaps_of-forget o, gaps_of_all-forget os)

found_gaps-forget : (os : List NotificationObservation) → found_gaps (map forget os) ≡ found_gaps os
unfolding found_gaps
found_gaps-forget os = rw (
  gaps_of_all-forget os,
  any-forget carries_counts Blind-counts os,
  echoed_count-forget os failures_field,
  echoed_count-forget os requests_field,
)

collect_missing-forget :
    (os : List NotificationObservation) → collect_missing (map forget os) ≡ collect_missing os
unfolding collect_missing
collect_missing-forget os = rw (found_gaps-forget os)

-- The exit code of a container and the number of log lines never change the decision, whatever
-- they are.
pub decide-forget :
    (facts : FirstNotificationFacts)
    → decide_first_notification (record facts { observations = map forget facts.observations })
      ≡ decide_first_notification facts
unfolding decide_first_notification
decide-forget facts = rw (
  verdict-forget facts.observations,
  collect_missing-forget facts.observations,
  echoed_count-forget facts.observations failures_field,
  echoed_count-forget facts.observations requests_field,
)
