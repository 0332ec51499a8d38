-- ===== src/Agent/Notifications/Moves.antt =====
-- That every evaluation of an incident is made of steps.
use pi_ops.Base.{
  String, Bool, true, false, Option, none, some, List, ◌∷◌, any, ◌≡◌, refl, ◌∙◌, arith, inl, inr,
  if_cases, if◌then◌else◌,
}
use pi_ops.Base.Search.{map-any_same}
use pi_ops.Agent.Jobs.{update_where}
use pi_ops.Agent.NotificationPayload.{
  NotificationJob, NotificationJobStatus, NotificationPayload, pending, running, delivered, failed,
  is_open, is_completed, SummarySeverityRules,
}
use pi_ops.Agent.Notifications.{
  pending_with, JobRow, Notifications, Attempt, throws, returns, StoredNotificationDecision,
  conflicts, stamp_conflicts, stamped, new_row, has_id, insert_job, schedule_notification_job,
  with_severity, save_notification_decision, get_notification_decision, is_pending, suppressed,
  suppress_pending_diagnosis_updates, pending_update_of, update_pending_notification_payload, stamp,
  has_incident, with_payload,
}
use pi_ops.Agent.Notifications.Decision.{and_then}
use pi_ops.Agent.Notifications.Ledger.{
  Kept, changes, joins, Reach, here, step, Reach-trans, Kept-refl, is_update_of, is_update_of-Kept,
  is_delivered_open,
}

-- What holds of the result of an attempt, if there is one.
abbrev pub Returned {ℓ κ} : {A : Type ℓ} → (A → Type κ) → Attempt A → Type κ
Returned P (throws m) = Unit
Returned P (returns a) = P a

pub and_then-Returned {ℓ κ μ ν} :
    {A : Type ℓ} {B : Type κ} (P : A → Type μ) (Q : B → Type ν) (a : Attempt A) (f : A → Attempt B)
    → Returned P a
    → ((x : A) → P x → Returned Q (f x))
    → Returned Q (and_then a f)
and_then-Returned P Q (throws m) f p h = tt
and_then-Returned P Q (returns a) f p h = h a p

pub Returned-map {ℓ κ μ} :
    {A : Type ℓ} (P : A → Type κ) (Q : A → Type μ) (a : Attempt A)
    → ((x : A) → P x → Q x)
    → Returned P a
    → Returned Q a
Returned-map P Q (throws m) h p = tt
Returned-map P Q (returns a) h p = h a p

-- Steps, of which none is a diagnosis update of the incident.
abbrev pub Moves : (incident_id : String) → List JobRow → List JobRow → Type 0
Moves id a b = Reach a b × (any (is_update_of id) a ≡ false → any (is_update_of id) b ≡ false)

pub Moves-refl : (id : String) (a : List JobRow) → Moves id a a
Moves-refl id a = (here, λ h. h)

pub Moves-trans : (id : String) (a b c : List JobRow) → Moves id a b → Moves id b c → Moves id a c
Moves-trans id a b c (h, k) (h', k') = (Reach-trans h h', λ e. k' (k e))

pub update_where-Moves :
    (id : String) (p : JobRow → Bool) (f : JobRow → JobRow) (rows : List JobRow)
    → ((r : JobRow) → p r ≡ true → Kept r (f r))
    → Moves id rows (update_where p f rows).0
update_where-Moves id p f rows kept = (
  step (changes g each refl) here,
  λ e.
      map-any_same (is_update_of id) (is_update_of id) g rows
        (λ r. is_update_of-Kept id r (g r) (each r))
      ∙ e,
)
  where
    g : JobRow → JobRow
    g r = if p r then f r else r

    each : (r : JobRow) → Kept r (g r)
    each r = if_cases {A = JobRow} (Kept r) (p r) (kept r) (λ _. Kept-refl r)

-- A job that may join the rows once the unique indexes allow it.
pub record Fits (job : NotificationJob) (rows : List JobRow) : Type 0 where
  pub waits : job.status ≡ pending
  pub follows : is_open job.type ≡ false → any (is_delivered_open job.incident_id) rows ≡ true
  pub is_only : is_completed job.type ≡ true → any (is_update_of job.incident_id) rows ≡ false

-- Of the incident `id`, unless the job is itself an update.
abbrev pub Joined : (id : String) → NotificationJob → List JobRow → List JobRow → Type 0
Joined id job a b =
    Reach a b
    × (is_completed job.type ≡ false
        → any (is_update_of id) a ≡ false
        → any (is_update_of id) b ≡ false)

module _ (id : String) (job : NotificationJob) where
  Joined-Moves : (a b c : List JobRow) → Joined id job a b → Moves id b c → Joined id job a c
  Joined-Moves a b c (h, k) (h', k') = (Reach-trans h h', λ n e. k' (k n e))

  new-Joined :
      (rows : List JobRow)
      → Fits job rows
      → any (conflicts job) rows ≡ false
      → Joined id job rows (new_row job ∷ rows)
  new-Joined rows fits free = (
    step
        (joins (new_row job)
          (record {
            waits = fits.waits;
            is_free = free;
            follows = fits.follows;
            is_only = fits.is_only;
          })
          refl)
        here,
    λ n e. ground arith,
  )

  stamp-Joined :
      (d : Option StoredNotificationDecision) (s : Notifications)
      → Returned (λ t. Moves id s.jobs t.jobs) (stamp job d s)
  stamp-Joined none s = Moves-refl id s.jobs
  stamp-Joined (some d) s =
      if_cases (Returned (λ t. Moves id s.jobs t.jobs)) (any (stamp_conflicts job) s.jobs) (λ _. tt)
        (λ _. update_where-Moves id (has_id job.id) (stamped d) s.jobs (λ r _. Kept-refl r))

  insert_job-Joined :
      (s : Notifications)
      → Fits job s.jobs
      → Returned (λ t. Joined id job s.jobs t.jobs) (insert_job job s)
  unfolding insert_job
  insert_job-Joined s fits =
      if_cases (Returned (λ t. Joined id job s.jobs t.jobs)) (any (conflicts job) s.jobs)
        (λ _. (here, λ n e. e))
        (λ free.
          let row = new_row job ∷ s.jobs in
          let joined = new-Joined s.jobs fits free in
          Returned-map (λ t. Moves id row t.jobs) (λ t. Joined id job s.jobs t.jobs)
            (stamp job (get_notification_decision job.incident_id s) (record s { jobs = row }))
            (λ t. Joined-Moves s.jobs row t.jobs joined)
            (stamp-Joined (get_notification_decision job.incident_id s) (record s { jobs = row })))

pub schedule-Joined :
    (id : String) (rules : Option SummarySeverityRules) (job : NotificationJob) (s : Notifications)
    → Fits job s.jobs
    → Returned (λ t. Joined id job s.jobs t.jobs) (schedule_notification_job rules job s)
unfolding schedule_notification_job with_severity
schedule-Joined id rules job s fits =
    insert_job-Joined id (with_severity rules job s) s
      (record { waits = fits.waits; follows = fits.follows; is_only = fits.is_only })

-- A job that is no diagnosis update.
pub schedule-Moves :
    (id : String) (rules : Option SummarySeverityRules) (job : NotificationJob) (s : Notifications)
    → Fits job s.jobs
    → is_completed job.type ≡ false
    → Returned (λ t. Moves id s.jobs t.jobs) (schedule_notification_job rules job s)
schedule-Moves id rules job s fits other =
    Returned-map (λ t. Joined id job s.jobs t.jobs) (λ t. Moves id s.jobs t.jobs)
      (schedule_notification_job rules job s) (λ t (h, k). (h, k other))
      (schedule-Joined id rules job s fits)

pub suppress-Moves :
    (id incident_id now : String) (s : Notifications)
    → Moves id s.jobs (suppress_pending_diagnosis_updates incident_id now s).jobs
unfolding suppress_pending_diagnosis_updates
suppress-Moves id incident_id now s =
    update_where-Moves id (pending_update_of incident_id) (suppressed now) s.jobs
      (λ r h. (refl, inr (waiting r h, refl)))
  where
    pending_lem : (x : NotificationJobStatus) → is_pending x ≡ true → x ≡ pending
    pending_lem pending h = refl
    pending_lem running h = cc
    pending_lem delivered h = cc
    pending_lem failed h = cc

    waiting : (r : JobRow) → pending_update_of incident_id r ≡ true → r.job.status ≡ pending
    waiting r h = pending_lem r.job.status (ground arith)

pub update_payload-Moves :
    (id job_id : String) (payload : NotificationPayload) (s : Notifications)
    → Moves id s.jobs (update_pending_notification_payload job_id payload s).jobs
unfolding update_pending_notification_payload
update_payload-Moves id job_id payload s =
    update_where-Moves id (pending_with job_id) (with_payload payload) s.jobs
      (λ r _. (refl, inl refl))

pub jobs-save :
    (id : String) (d : StoredNotificationDecision) (s : Notifications)
    → (save_notification_decision id d s).jobs ≡ s.jobs
unfolding save_notification_decision
jobs-save id d s =
    if_cases {A = Notifications} (λ t. t.jobs ≡ s.jobs) (any (has_incident id) s.decisions)
      (λ _. refl) (λ _. refl)
