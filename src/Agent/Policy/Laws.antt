-- ===== src/Agent/Policy/Laws.antt =====
-- When a notification is an alert, and for what.
use pi_ops.Base.{
  Bool, true, List, [], ◌∷◌, ◌≡◌, ◌≢◌, ◌↔◌, inl, inr, refl, arith, find, any, none, Option-cases,
  eq_iff,
}
use pi_ops.Base.Search.{any-Memᴰ, Memᴰ-any, find-Memᴰ, Memᴰ-find}
use mathlib.Core.List.{Memᴰ}
use pi_ops.Agent.Policy.{
  sustained, NotificationObservation, ordinary_error, SourceRef, alert, analyze, Action,
  FirstNotificationReason, Verdict, returns, verdict, recorded, source_of, recognized_oome,
  recognized_overflow, is_critical_operation, docker_oom_killed, bound_health_failure,
  bound_critical_task, sustained_unknown_impact, decide_first_notification, FirstNotificationFacts,
  may_have_impact, Persistence, CountFact, unknown_impact,
}
use pi_ops.Agent.Policy.Major.{
  MajorFact, out_of_memory, stack_overflow, operation_failed, killed_for_memory, target_down,
  task_failed, oome-MajorFact, overflow-MajorFact, operation-MajorFact, docker-MajorFact,
  health-MajorFact, task-MajorFact,
}

recorded-ne-alert : (os : List NotificationObservation) → (recorded os).0 ≢ alert
unfolding recorded
recorded-ne-alert [] a = cc
recorded-ne-alert (o ∷ os) a = ground arith

module _ (os : List NotificationObservation) where
  -- An alert names one major fact of the list as its only source.
  abbrev Founded : Verdict → Type 0
  Founded (action, reason, sources) =
      action ≡ alert
      → (o : NotificationObservation) × Memᴰ o os × MajorFact o × (sources ≡ source_of o ∷ [])

  returns-Founded :
      (p : NotificationObservation → Bool) (action : Action) (reason : FirstNotificationReason)
      (rest : Verdict)
      → ((o : NotificationObservation) → p o ≡ true → action ≡ alert → MajorFact o)
      → Founded rest
      → Founded (returns (find p os) action reason rest)
  unfolding returns
  returns-Founded p action reason rest major later = elim (Option-cases (find p os)) [
    | inl e ↦ rw (e, returns) later
    | inr (o, e) ↦ let (m, h) = find-Memᴰ p os e in rw (e, returns) (λ a. (o, m, major o h a, refl))
  ]

  verdict-Founded : Founded (verdict os)
  unfolding verdict
  verdict-Founded =
      returns-Founded recognized_oome alert _ _ (λ o h _. oome-MajorFact o h)
        (returns-Founded recognized_overflow alert _ _ (λ o h _. overflow-MajorFact o h)
          (returns-Founded is_critical_operation alert _ _ (λ o h _. operation-MajorFact o h)
            (returns-Founded docker_oom_killed alert _ _ (λ o h _. docker-MajorFact o h)
              (returns-Founded bound_health_failure alert _ _ (λ o h _. health-MajorFact o h)
                (returns-Founded bound_critical_task alert _ _ (λ o h _. task-MajorFact o h)
                  (returns-Founded sustained_unknown_impact analyze _ _ (λ o h a. cc)
                    (λ a. absurd (recorded-ne-alert os a))))))))

  verdict-alert : {o : NotificationObservation} → Memᴰ o os → MajorFact o → (verdict os).0 ≡ alert
  unfolding verdict recognized_oome recognized_overflow is_critical_operation docker_oom_killed
      bound_health_failure bound_critical_task
  verdict-alert m (out_of_memory {clazz} c s) =
      let hit : find recognized_oome os ≢ none =
        Memᴰ-find recognized_oome m (ground (arith, eq_iff clazz "java.lang.OutOfMemoryError")) in
      ground arith
  verdict-alert m (stack_overflow {clazz} c s) =
      let hit : find recognized_overflow os ≢ none =
        Memᴰ-find recognized_overflow m
          (ground (arith, eq_iff clazz "java.lang.StackOverflowError")) in
      ground arith
  verdict-alert m operation_failed =
      let hit : find is_critical_operation os ≢ none = Memᴰ-find is_critical_operation m refl in
      ground arith
  verdict-alert m (killed_for_memory {action} h) =
      let hit : find docker_oom_killed os ≢ none =
        Memᴰ-find docker_oom_killed m (ground (arith, eq_iff action "oom")) in
      ground arith
  verdict-alert m (target_down t r) =
      let hit : find bound_health_failure os ≢ none =
        Memᴰ-find bound_health_failure m (ground arith) in
      ground arith
  verdict-alert m (task_failed t r) =
      let hit : find bound_critical_task os ≢ none =
        Memᴰ-find bound_critical_task m (ground arith) in
      ground arith

-- The decision is an alert exactly when a major fact is among the observations.
pub decide-alert_iff :
    (facts : FirstNotificationFacts)
    → ((decide_first_notification facts).action ≡ alert)
      ↔ ((o : NotificationObservation) × Memᴰ o facts.observations × MajorFact o)
unfolding decide_first_notification
decide-alert_iff facts = (
  λ a. let (o, m, major, sources) = verdict-Founded facts.observations a in (o, m, major),
  λ w. verdict-alert facts.observations w.1 w.2,
)

-- An alert names as its only source a major fact that is among the observations.
pub decide-alert_sources :
    (facts : FirstNotificationFacts)
    → (decide_first_notification facts).action ≡ alert
    → (o : NotificationObservation) × Memᴰ o facts.observations
      × MajorFact o
      × ((decide_first_notification facts).sources ≡ source_of o ∷ [])
unfolding decide_first_notification
decide-alert_sources facts a = verdict-Founded facts.observations a

-- An ordinary error whose impact is not known.
pub data OpenError : NotificationObservation → Type 0 where
  open_error :
      {p : Persistence} {failures requests lines : CountFact} {source : SourceRef}
      → OpenError (ordinary_error p unknown_impact failures requests lines source)

may_have_impact-OpenError : (o : NotificationObservation) → may_have_impact o ≡ true → OpenError o
unfolding may_have_impact
may_have_impact-OpenError (ordinary_error p unknown_impact failures requests lines source) h =
    open_error
may_have_impact-OpenError _ h = cc

OpenError-may_have_impact : {o : NotificationObservation} → OpenError o → may_have_impact o ≡ true
unfolding may_have_impact
OpenError-may_have_impact open_error = refl

sustained-OpenError :
    (o : NotificationObservation) → sustained_unknown_impact o ≡ true → OpenError o
unfolding sustained_unknown_impact
sustained-OpenError (ordinary_error sustained unknown_impact failures requests lines source) h =
    open_error
sustained-OpenError _ h = cc

recorded-analyze_iff :
    (os : List NotificationObservation)
    → ((recorded os).0 ≡ analyze) ↔ (any may_have_impact os ≡ true)
unfolding recorded
recorded-analyze_iff [] = ground arith
recorded-analyze_iff (o ∷ os) = ground arith

verdict-analyze_iff :
    (os : List NotificationObservation)
    → (verdict os).0 ≢ alert
    → ((verdict os).0 ≡ analyze) ↔ ((o : NotificationObservation) × Memᴰ o os × OpenError o)
unfolding verdict may_have_impact
verdict-analyze_iff os quiet = elim (Option-cases (find sustained_unknown_impact os)) [
  | inl none_lasts ↦ (
    λ a.
        let (o, m, h) = any-Memᴰ may_have_impact os (ground (arith, recorded-analyze_iff os)) in
        (o, m, may_have_impact-OpenError o h),
    λ w.
        let hit : any may_have_impact os ≡ true =
          Memᴰ-any may_have_impact w.1 (OpenError-may_have_impact w.2) in
        ground (arith, recorded-analyze_iff os),
  )
  | inr (o, e) ↦
      let (m, h) = find-Memᴰ sustained_unknown_impact os e in
      (λ _. (o, m, sustained-OpenError o h), λ _. ground arith)
]

-- A decision that is not an alert asks for an analysis exactly when some ordinary error among the
-- observations has no known impact.
pub decide-analyze_iff :
    (facts : FirstNotificationFacts)
    → (decide_first_notification facts).action ≢ alert
    → ((decide_first_notification facts).action ≡ analyze)
      ↔ ((o : NotificationObservation) × Memᴰ o facts.observations × OpenError o)
unfolding decide_first_notification
decide-analyze_iff facts quiet = verdict-analyze_iff facts.observations quiet
