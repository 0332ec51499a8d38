-- ===== src/Agent/Notifications/Ledger.antt =====
-- What an evaluation does to the rows of notification_jobs, as steps of two kinds.
use pi_ops.Base.Search.{any-map-true}
use pi_ops.Base.{
  String, str_eq, Bool, true, false, ◌&&◌, Option, List, ◌∷◌, map, any, ◌≡◌, ◌⊎◌, ap, inl, inr, ◌∙◌,
  and_right, arith, refl,
}
use pi_ops.Agent.NotificationPayload.{NotificationType, pending, failed, is_open, is_completed}
use pi_ops.Agent.Notifications.{JobRow, conflicts, is_delivered}

-- What no update changes.
abbrev pub key : JobRow → String × NotificationType × String × Option String
key r = (r.job.id, r.job.type, r.job.incident_id, r.job.investigation_session_id)

abbrev pub is_delivered_open : (incident_id : String) → JobRow → Bool
is_delivered_open id r =
    is_open r.job.type && str_eq r.job.incident_id id && is_delivered r.job.status

abbrev pub is_update_of : (incident_id : String) → JobRow → Bool
is_update_of id r = is_completed r.job.type && str_eq r.job.incident_id id

-- A row after an update of an evaluation, from the row before.
abbrev pub Kept : JobRow → JobRow → Type 0
Kept r q =
    (key q ≡ key r)
    × ((q.job.status ≡ r.job.status) ⊎ ((r.job.status ≡ pending) × (q.job.status ≡ failed)))

-- A row that may join.
pub record Joins (r : JobRow) (rows : List JobRow) : Type 0 where
  pub waits : r.job.status ≡ pending
  pub is_free : any (conflicts r.job) rows ≡ false
  pub follows : is_open r.job.type ≡ false → any (is_delivered_open r.job.incident_id) rows ≡ true
  pub is_only : is_completed r.job.type ≡ true → any (is_update_of r.job.incident_id) rows ≡ false

pub data Step (rows next : List JobRow) : Type 0 where
  changes :
      (f : JobRow → JobRow) → ((r : JobRow) → Kept r (f r)) → next ≡ map f rows → Step rows next
  joins : (r : JobRow) → Joins r rows → next ≡ r ∷ rows → Step rows next

pub data Reach : List JobRow → List JobRow → Type 0 where
  here : {rows : List JobRow} → Reach rows rows
  step : {rows next end : List JobRow} → Step rows next → Reach next end → Reach rows end

pub Reach-trans : {a b c : List JobRow} → Reach a b → Reach b c → Reach a c
Reach-trans here k = k
Reach-trans (step s h) k = step s (Reach-trans h k)

pub Kept-refl : (r : JobRow) → Kept r r
Kept-refl r = (refl, inl refl)

-- A row that keeps its key is about the same, and a notification that was delivered stays so.
pub is_update_of-Kept :
    (id : String) (r q : JobRow) → Kept r q → is_update_of id q ≡ is_update_of id r
is_update_of-Kept id r q (same, _) = ap (λ (i, t, n, s). is_completed t && str_eq n id) same

pub is_delivered_open-Kept :
    (id : String) (r q : JobRow)
    → Kept r q
    → is_delivered_open id r ≡ true
    → is_delivered_open id q ≡ true
is_delivered_open-Kept id r q (same, inl e) h =
    let type = ap (λ (i, t, n, s). t) same in let incident = ap (λ (i, t, n, s). n) same in cc
is_delivered_open-Kept id r q (same, inr (e, _)) h =
    let late : is_delivered r.job.status ≡ true =
      and_right (is_open r.job.type && str_eq r.job.incident_id id) _ h in
    let not_late = ap is_delivered e in cc

pub is_delivered_open-Reach :
    (id : String) {a b : List JobRow}
    → Reach a b
    → any (is_delivered_open id) a ≡ true
    → any (is_delivered_open id) b ≡ true
is_delivered_open-Reach id here h = h
is_delivered_open-Reach id {a} (step (changes f kept e) rest) h = is_delivered_open-Reach id rest (
    ap (any (is_delivered_open id)) e
    ∙ any-map-true (is_delivered_open id) (is_delivered_open id) f a
        (λ r. is_delivered_open-Kept id r (f r) (kept r)) h)
is_delivered_open-Reach id (step (joins r fits e) rest) h =
    is_delivered_open-Reach id rest (ap (any (is_delivered_open id)) e ∙ ground (arith, h))
