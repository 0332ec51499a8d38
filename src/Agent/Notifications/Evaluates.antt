-- ===== src/Agent/Notifications/Evaluates.antt =====
-- That an evaluation changes the rows of notification_jobs by steps only.
use pi_ops.Base.{
  String, true, false, not, ◌&&◌, Option, none, some, List, [], ◌∷◌, ◌++◌, any, find, ◌≡◌, refl,
  sym, subst, arith, if_cases,
}
use pi_ops.Agent.Notifications.Impact.{InvestigationReport}
use pi_ops.Agent.Notifications.Listing.{ready_first, listed_updates}
use pi_ops.Agent.Policy.{
  decide_first_notification, FirstNotificationFacts, FirstNotificationDecision, alert,
}
use pi_ops.Agent.Incidents.{IncidentRow, is_recovered}
use pi_ops.Agent.NotificationPayload.{
  NotificationJob, is_open, is_completed, build_notification_job,
}
use pi_ops.Agent.Notifications.{
  JobRow, Notifications, returns, StoredNotificationDecision, with_severity,
  schedule_notification_job, save_notification_decision, is_delivered, is_pending,
  suppress_pending_diagnosis_updates, list_notification_jobs, decided,
}
use pi_ops.Agent.Notifications.Decision.{
  World, Settings, Round, opens_now, open_first, first_job, tell_of_recovery, recovery_job,
  recovered_payload, told_recovery, tell_recovery, delivered_first, InvestigationSession,
}
use pi_ops.Agent.Notifications.Updates.{
  first_value, completed_sessions, update_with, update_on, update_each, update_job, evaluate_facts,
  is_skipped, send_update, added_impacts, finish,
}
use pi_ops.Agent.Notifications.Ledger.{
  Reach, Reach-trans, is_delivered_open-Reach, is_update_of, is_delivered_open,
}
use pi_ops.Agent.Notifications.Moves.{
  Joined, Returned, Returned-map, and_then-Returned, Moves, Moves-refl, Moves-trans, Fits,
  schedule-Moves, schedule-Joined, suppress-Moves, update_payload-Moves, jobs-save, Returned-map,
}

-- If the first notification was delivered, then its row says so.
abbrev Ready : (id : String) → Option NotificationJob → List JobRow → Type 0
Ready id initial rows = delivered_first initial ≡ true → any (is_delivered_open id) rows ≡ true

abbrev Going : (id : String) → List JobRow → Round → Type 0
Going id rows round = Moves id rows round.tables.jobs × Ready id round.initial round.tables.jobs

module _ (settings : Settings) (world : World) (now : String) (r : IncidentRow) where
  first-Fits :
      (d : FirstNotificationDecision) (rows : List JobRow)
      → Fits (first_job settings world now r d) rows
  unfolding build_notification_job
  first-Fits d rows = record { waits = refl; follows = λ e. cc; is_only = λ e. cc }

  first_other :
      (d : FirstNotificationDecision) → is_completed (first_job settings world now r d).type ≡ false
  unfolding build_notification_job
  first_other d = refl

  first_waits :
      (d : FirstNotificationDecision) (s : Notifications)
      → delivered_first
          (some (with_severity settings.summary_severity (first_job settings world now r d) s))
        ≡ false
  unfolding build_notification_job with_severity
  first_waits d s = refl

  recovery_other : is_completed (recovery_job settings world now r).type ≡ false
  unfolding build_notification_job
  recovery_other = refl

  open_first-Going :
      (facts : FirstNotificationFacts) (d : FirstNotificationDecision)
      (initial : Option NotificationJob) (v : StoredNotificationDecision) (s : Notifications)
      → Ready r.id initial s.jobs
      → Returned (Going r.id s.jobs) (open_first settings world now r facts d initial v s)
  unfolding open_first
  open_first-Going facts d (some job) v s ready = (Moves-refl r.id s.jobs, ready)
  open_first-Going facts d none v s ready =
      if_cases (Returned (Going r.id s.jobs)) (opens_now d (is_recovered r.state))
        (λ _.
          let saved = save_notification_decision r.id (record v { action = decided alert }) s in
          let job = first_job settings world now r d in
          let same = jobs-save r.id (record v { action = decided alert }) s in
          and_then-Returned (λ t. Moves r.id saved.jobs t.jobs) (Going r.id s.jobs)
            (schedule_notification_job settings.summary_severity job saved) _
            (schedule-Moves r.id settings.summary_severity job saved (first-Fits d saved.jobs)
              (first_other d))
            (λ t m. (
              subst (λ rows. Moves r.id rows t.jobs) same m,
              λ e. absurd (ground (arith, first_waits d saved)),
            )))
        (λ _. (Moves-refl r.id s.jobs, ready))

  recovery-Fits :
      (rows : List JobRow)
      → any (is_delivered_open r.id) rows ≡ true
      → Fits (recovery_job settings world now r) rows
  unfolding build_notification_job
  recovery-Fits rows e = record { waits = refl; follows = λ _. e; is_only = λ e. cc }

  tell_of_recovery-Moves :
      (job : NotificationJob) (s : Notifications)
      → Ready r.id (some job) s.jobs
      → Returned (λ t. Moves r.id s.jobs t.jobs) (tell_of_recovery settings world now r job s)
  unfolding tell_of_recovery
  tell_of_recovery-Moves job s ready =
      if_cases (Returned (λ t. Moves r.id s.jobs t.jobs)) (is_pending job.status)
        (λ _. update_payload-Moves r.id job.id (recovered_payload r job) s)
        (λ _.
          if_cases (Returned (λ t. Moves r.id s.jobs t.jobs))
            (is_delivered job.status && not (told_recovery job.payload.notice))
            (λ told.
              schedule-Moves r.id settings.summary_severity (recovery_job settings world now r) s
                (recovery-Fits s.jobs (ready (ground arith))) recovery_other)
            (λ _. Moves-refl r.id s.jobs))

  tell_recovery-Going :
      (initial : Option NotificationJob) (v : StoredNotificationDecision) (s : Notifications)
      → Ready r.id initial s.jobs
      → Returned (Going r.id s.jobs) (tell_recovery settings world now r initial v s)
  unfolding tell_recovery
  tell_recovery-Going none v s ready = (Moves-refl r.id s.jobs, ready)
  tell_recovery-Going (some job) v s ready =
      if_cases (Returned (Going r.id s.jobs)) (is_recovered r.state)
        (λ _.
          let t = suppress_pending_diagnosis_updates r.id world.clock s in
          let m = suppress-Moves r.id r.id world.clock s in
          and_then-Returned (λ u. Moves r.id t.jobs u.jobs) (Going r.id s.jobs)
            (tell_of_recovery settings world now r job t) _
            (tell_of_recovery-Moves job t (λ e. is_delivered_open-Reach r.id m.0 (ready e)))
            (λ u k.
              let all = Moves-trans r.id s.jobs t.jobs u.jobs m k in
              (all, λ e. is_delivered_open-Reach r.id all.0 (ready e))))
        (λ _. (Moves-refl r.id s.jobs, ready))

  -- The list that the loop of the sessions looks at has the incident's updates.
  abbrev Listed : List NotificationJob × Round → Type 0
  Listed (jobs, round) =
      any (λ j. is_completed j.type) jobs ≡ false
      → any (is_update_of r.id) round.tables.jobs ≡ false

  abbrev Looping : List JobRow → List NotificationJob × Round → Type 0
  Looping rows (jobs, round) =
      Reach rows round.tables.jobs
      × Listed (jobs, round)
      × Ready r.id round.initial round.tables.jobs

  update-Fits :
      (session : InvestigationSession) (report : InvestigationReport) (added : List String)
      (rows : List JobRow)
      → any (is_delivered_open r.id) rows ≡ true
      → any (is_update_of r.id) rows ≡ false
      → Fits (update_job settings world now r session report added) rows
  unfolding build_notification_job
  update-Fits session report added rows e k = record {
    waits = refl;
    follows = λ _. e;
    is_only = λ _. k;
  }

  listed_now :
      (session : InvestigationSession) (report : InvestigationReport) (added : List String)
      (s : Notifications) (jobs : List NotificationJob)
      → any
          (λ j. is_completed j.type)
          (jobs
            ++ with_severity settings.summary_severity
                (update_job settings world now r session report added)
                s
              ∷ [])
        ≡ true
  unfolding build_notification_job with_severity
  listed_now session report added s [] = refl
  listed_now session report added s (j ∷ jobs) =
      ground (arith, listed_now session report added s jobs)

  send_update-Looping :
      (facts : FirstNotificationFacts) (session : InvestigationSession)
      (report : InvestigationReport) (rows : List JobRow) (jobs : List NotificationJob)
      (round : Round)
      → Looping rows (jobs, round)
      → delivered_first round.initial ≡ true
      → any (λ j. is_completed j.type) jobs ≡ false
      → Returned (Looping rows) (send_update settings world now r facts session report jobs round)
  unfolding send_update
  send_update-Looping facts session report rows jobs round (reach, listed, ready) e k =
      let added = added_impacts settings world now facts round in
      let job = update_job settings world now r session report added in
      and_then-Returned (λ t. Reach round.tables.jobs t.jobs) (Looping rows)
        (schedule_notification_job settings.summary_severity job round.tables) _
        (Returned-map (λ t. Joined r.id job round.tables.jobs t.jobs)
          (λ t. Reach round.tables.jobs t.jobs)
          (schedule_notification_job settings.summary_severity job round.tables) (λ t (h, _). h)
          (schedule-Joined r.id settings.summary_severity job round.tables
            (update-Fits session report added round.tables.jobs (ready e) (listed k))))
        (λ t h. (
          Reach-trans reach h,
          λ n. absurd (ground (arith, listed_now session report added round.tables jobs)),
          λ d. is_delivered_open-Reach r.id h (ready d),
        ))

  update_with-Looping :
      (facts : FirstNotificationFacts) (session : InvestigationSession)
      (report : InvestigationReport) (rows : List JobRow) (jobs : List NotificationJob)
      (round : Round)
      → Looping rows (jobs, round)
      → Returned
          (Looping rows)
          (update_with settings world now r facts session report (jobs, round))
  unfolding update_with
  update_with-Looping facts session report rows jobs round state =
      if_cases (Returned (Looping rows)) (is_skipped settings world now r facts report jobs round)
        {x = returns (jobs, round)}
        {y = send_update settings world now r facts session report jobs round} (λ _. state)
        (λ free.
          send_update-Looping facts session report rows jobs round state (ground arith)
            (ground arith))

  update_on-Looping :
      (facts : FirstNotificationFacts) (session : InvestigationSession)
      (report : Option InvestigationReport) (rows : List JobRow)
      (state : List NotificationJob × Round)
      → Looping rows state
      → Returned (Looping rows) (update_on settings world now r facts session report state)
  update_on-Looping facts session none rows state looping = looping
  update_on-Looping facts session (some report) rows (jobs, round) looping =
      update_with-Looping facts session report rows jobs round looping

  update_each-Looping :
      (facts : FirstNotificationFacts) (sessions : List InvestigationSession) (rows : List JobRow)
      (state : List NotificationJob × Round)
      → Looping rows state
      → Returned (Looping rows) (update_each settings world now r facts sessions state)
  unfolding update_each
  update_each-Looping facts [] rows state looping = looping
  update_each-Looping facts (session ∷ sessions) rows state looping =
      and_then-Returned (Looping rows) (Looping rows)
        (update_on settings world now r facts session (world.report_of session.id) state) _
        (update_on-Looping facts session (world.report_of session.id) rows state looping)
        (λ next h. update_each-Looping facts sessions rows next h)

  pub evaluate_facts-Reach :
      (previous : StoredNotificationDecision) (facts : FirstNotificationFacts) (s : Notifications)
      → Returned
          (λ (value, t). Reach s.jobs t.jobs)
          (evaluate_facts settings world now r previous facts s)
  unfolding evaluate_facts
  evaluate_facts-Reach previous facts s =
      let d = decide_first_notification facts in
      let value = first_value settings world now facts d previous in
      let saved = save_notification_decision r.id value s in
      let jobs = list_notification_jobs r.id saved.jobs in
      let same = jobs-save r.id value s in
      let init = find (λ j. is_open j.type) jobs in
      let Ends : StoredNotificationDecision × Notifications → Type 0 =
        λ (v, t). Reach s.jobs t.jobs in
      and_then-Returned (Going r.id saved.jobs) Ends
        (open_first settings world now r facts d init value saved) _
        (open_first-Going facts d init value saved (ready_first r.id saved.jobs))
        (λ a (m, ready).
          and_then-Returned (Going r.id a.tables.jobs) Ends
            (tell_recovery settings world now r a.initial a.value a.tables) _
            (tell_recovery-Going a.initial a.value a.tables ready)
            (λ b (k, told).
              let (reach, quiet) = Moves-trans r.id saved.jobs a.tables.jobs b.tables.jobs m k in
              and_then-Returned (Looping saved.jobs) Ends
                (update_each settings world now r facts (completed_sessions settings world now r.id)
                  (jobs, b))
                _
                (update_each-Looping facts (completed_sessions settings world now r.id) saved.jobs
                  (jobs, b) (reach, λ e. quiet (listed_updates r.id saved.jobs e), told))
                (λ (js, c) (h, _, _).
                  subst (λ rows. Reach rows (finish settings world now r (js, c)).1.jobs) same
                    (subst (Reach saved.jobs) (sym (jobs-save r.id _ c.tables)) h))))
