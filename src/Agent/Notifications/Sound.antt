-- ===== src/Agent/Notifications/Sound.antt =====
-- An order of the notifications of an incident, and the changes of the rows that keep it.
use pi_ops.Base.{
  String, str_eq, Bool, true, false, ◌&&◌, ◌||◌, Option, List, [], ◌∷◌, map, any, All, ◌≡◌, refl,
  sym, ap, ◌∙◌, subst, arith, if_cases, if◌then◌else◌, and_right, and_left, and_intro, Bool-cases,
  inl, inr, Memᴰ-All,
}
use pi_ops.Base.Search.{All-map, All-zip, any-All, any-map-true, All-of_map}
use pi_ops.Agent.Jobs.{update_where}
use pi_ops.Agent.NotificationPayload.{NotificationType, is_open, is_completed, is_recovered_notice}
use pi_ops.Agent.Notifications.{JobRow, same_session, is_delivered, conflicts}
use pi_ops.Agent.Notifications.Ledger.{
  key, is_delivered_open, is_update_of, Joins, changes, joins, Reach, here, step,
  is_delivered_open-Kept,
}

Key : Type 0
Key = String × NotificationType × String × Option String

-- The same id; or two first notifications, two of a recovery or two diagnosis updates of one incident;
-- or two updates of one session.
abbrev key_clash : Key → Key → Bool
unfolding Key
key_clash (i, t, n, s) (j, u, m, z) =
    str_eq j i
    || (is_open u && is_open t && str_eq m n)
    || (is_recovered_notice u && is_recovered_notice t && str_eq m n)
    || (is_completed u && is_completed t && same_session z s)
    || (is_completed t && (is_completed u && str_eq m n))

abbrev pub clash : JobRow → JobRow → Bool
unfolding Key
clash r q = key_clash (key r) (key q)

-- No two rows clash.
abbrev pub Apart : List JobRow → Type 0
Apart [] = Unit
Apart (r ∷ rs) = All (λ q. clash r q ≡ false) rs × Apart rs

-- Only the first notification of an incident comes before a first one was delivered.
abbrev pub Told : List JobRow → Type 0
Told rows =
    All (λ r. is_open r.job.type ≡ false → any (is_delivered_open r.job.incident_id) rows ≡ true)
      rows

abbrev pub Sound : List JobRow → Type 0
Sound rows = Apart rows × Told rows

module _ (f : JobRow → JobRow) (kept : (r : JobRow) → key (f r) ≡ key r)
    (stays : (id : String) (r : JobRow)
      → is_delivered_open id r ≡ true
      → is_delivered_open id (f r) ≡ true) where
  clash-map : (r q : JobRow) → clash (f r) (f q) ≡ clash r q
  unfolding Key
  clash-map r q = ap (λ k. key_clash k (key (f q))) (kept r) ∙ ap (key_clash (key r)) (kept q)

  Apart-map : (rows : List JobRow) → Apart rows → Apart (map f rows)
  Apart-map [] apart = tt
  Apart-map (r ∷ rs) (fresh, apart) = (
    All-of_map (λ q. clash (f r) q ≡ false) f rs
        (All-map (λ q. clash r q ≡ false) (λ q. clash (f r) (f q) ≡ false) rs
          (λ q e. clash-map r q ∙ e) fresh),
    Apart-map rs apart,
  )

  Told-map : (rows : List JobRow) → Told rows → Told (map f rows)
  Told-map rows told = All-of_map _ f rows (
      All-map _ _ rows
        (λ r h e.
          let type = ap (λ (i, t, n, s). is_open t) (kept r) in
          let incident = ap (λ (i, t, n, s). n) (kept r) in
          subst (λ n. any (is_delivered_open n) (map f rows) ≡ true) (sym incident)
            (any-map-true (is_delivered_open r.job.incident_id)
              (is_delivered_open r.job.incident_id) f rows (stays r.job.incident_id)
              (h (sym type ∙ e))))
        told)

  pub Sound-map : (rows : List JobRow) → Sound rows → Sound (map f rows)
  Sound-map rows (apart, told) = (Apart-map rows apart, Told-map rows told)

neither : (a c d : Bool) → a ≡ false → (c ≡ true → d ≡ false) → (a || (c && d)) ≡ false
neither a true d e h = ground (arith, h refl)
neither a false d e h = ground arith

or_right : (a b : Bool) → b ≡ true → (a || b) ≡ true
or_right a b e = ground arith

clash_free :
    (r q : JobRow)
    → conflicts r.job q ≡ false
    → (is_completed r.job.type ≡ true → is_update_of r.job.incident_id q ≡ false)
    → clash r q ≡ false
unfolding clash
clash_free r q e h =
    neither (conflicts r.job q) (is_completed r.job.type) (is_update_of r.job.incident_id q) e h

only_update :
    (r : JobRow) (rows : List JobRow)
    → Joins r rows
    → All (λ q. is_completed r.job.type ≡ true → is_update_of r.job.incident_id q ≡ false) rows
only_update r rows fits = elim (Bool-cases (is_completed r.job.type)) [
  | inl update ↦
      All-map (λ q. is_update_of r.job.incident_id q ≡ false) _ rows (λ q e _. e)
        (any-All (is_update_of r.job.incident_id) rows (fits.is_only update))
  | inr other ↦ Memᴰ-All _ rows (λ q m update. absurd (ground arith))
]

pub Sound-Joins : (r : JobRow) (rows : List JobRow) → Joins r rows → Sound rows → Sound (r ∷ rows)
Sound-Joins r rows fits (apart, told) = (
  (
    All-map
        (λ q.
          (conflicts r.job q ≡ false)
          × (is_completed r.job.type ≡ true → is_update_of r.job.incident_id q ≡ false))
        (λ q. clash r q ≡ false) rows (λ q (e, h). clash_free r q e h)
        (All-zip (λ q. conflicts r.job q ≡ false) _ rows
          (any-All (conflicts r.job) rows fits.is_free) (only_update r rows fits)),
    apart,
  ),
  (
    λ other. or_right _ _ (fits.follows other),
    All-map _ _ rows (λ q h other. or_right _ _ (h other)) told,
  ),
)

pub Sound-Reach : {a b : List JobRow} → Reach a b → Sound a → Sound b
Sound-Reach here sound = sound
Sound-Reach {a} (step (changes f kept e) rest) sound = Sound-Reach rest (
    subst Sound (sym e)
      (Sound-map f (λ r. (kept r).0) (λ id r. is_delivered_open-Kept id r (f r) (kept r)) a sound))
Sound-Reach {a} (step (joins r fits e) rest) sound =
    Sound-Reach rest (subst Sound (sym e) (Sound-Joins r a fits sound))

-- An update of the worker: it keeps the keys, and what was delivered.
pub update_where-Sound :
    (p : JobRow → Bool) (f : JobRow → JobRow) (rows : List JobRow)
    → ((r : JobRow) → key (f r) ≡ key r)
    → ((r : JobRow)
        → p r ≡ true
        → is_delivered r.job.status ≡ true
        → is_delivered (f r).job.status ≡ true)
    → Sound rows
    → Sound (update_where p f rows).0
update_where-Sound p f rows kept stays sound = Sound-map g same still rows sound
  where
    g : JobRow → JobRow
    g r = if p r then f r else r

    same : (r : JobRow) → key (g r) ≡ key r
    same r = if_cases {A = JobRow} (λ q. key q ≡ key r) (p r) (λ _. kept r) (λ _. refl)

    still :
        (id : String) (r : JobRow)
        → is_delivered_open id r ≡ true
        → is_delivered_open id (g r) ≡ true
    still id r e =
        if_cases {A = JobRow} (λ q. is_delivered_open id q ≡ true) (p r)
          (λ hit.
            let late =
              stays r hit (and_right (is_open r.job.type && str_eq r.job.incident_id id) _ e) in
            let type = ap (λ (i, t, n, s). is_open t && str_eq n id) (kept r) in
            and_intro (type ∙ and_left _ _ e) late)
          (λ _. e)
