-- ===== src/Agent/Notifications/Listing.antt =====
-- What the list of an incident's notifications says of the rows.
use pi_ops.Base.{
  String, str_eq, true, false, List, any, find, filter, All, All-Memᴰ, Memᴰ-All, ◌≡◌, sym, ap, ◌∙◌,
  arith, inl, inr, Bool-cases, Option-cases, and_intro, and_left, and_right,
}
use pi_ops.Base.Search.{find-Memᴰ, any-Memᴰ, Memᴰ-any, filter-Memᴰ, Memᴰ-map, All-of_map}
use pi_ops.Base.Order.{sort_by-All, sort_by-Memᴰ, sort_by}
use pi_ops.Agent.Jobs.Listing.{Memᴰ-filter}
use pi_ops.Agent.NotificationPayload.{NotificationJob, is_open, is_completed}
use pi_ops.Agent.Notifications.{
  JobRow, is_delivered, list_notification_jobs, map_notification_job, listed_before, of_incident,
}
use pi_ops.Agent.Notifications.Decision.{delivered_first}
use pi_ops.Agent.Notifications.Ledger.{is_update_of, is_delivered_open}

module _ (id : String) (rows : List JobRow) where
  -- A job that is listed as the delivered first notification has a row that says so.
  Told : NotificationJob → Type 0
  Told j =
      is_open j.type ≡ true → is_delivered j.status ≡ true → any (is_delivered_open id) rows ≡ true

  listed-Told : All Told (list_notification_jobs id rows)
  unfolding list_notification_jobs Told
  listed-Told =
      All-of_map Told map_notification_job (sort_by listed_before (filter (of_incident id) rows)) (
        sort_by-All listed_before (λ r. Told (map_notification_job r))
          (filter (of_incident id) rows)
          (Memᴰ-All _ (filter (of_incident id) rows) (λ r m opens done.
            let (n, mine) = filter-Memᴰ (of_incident id) rows m in
            Memᴰ-any (is_delivered_open id) n (and_intro (and_intro opens mine) done))))

  pub ready_first :
      delivered_first (find (λ j. is_open j.type) (list_notification_jobs id rows)) ≡ true
      → any (is_delivered_open id) rows ≡ true
  unfolding Told
  ready_first h =
      let listed = list_notification_jobs id rows in
      elim (Option-cases (find (λ j. is_open j.type) listed)) [
        | inl e ↦ absurd (ground (arith, ap delivered_first e))
        | inr (j, e) ↦
            let (m, opens) = find-Memᴰ (λ j. is_open j.type) listed e in
            All-Memᴰ Told listed listed-Told m opens (sym (ap delivered_first e) ∙ h)
      ]

  pub listed_updates :
      any (λ j. is_completed j.type) (list_notification_jobs id rows) ≡ false
      → any (is_update_of id) rows ≡ false
  unfolding list_notification_jobs
  listed_updates h = elim (Bool-cases (any (is_update_of id) rows)) [
    | inr none_there ↦ none_there
    | inl e ↦
        let (r, m, update) = any-Memᴰ (is_update_of id) rows e in
        let mine : of_incident id r ≡ true =
          and_right (is_completed r.job.type) (str_eq r.job.incident_id id) update in
        let done : is_completed r.job.type ≡ true =
          and_left (is_completed r.job.type) (str_eq r.job.incident_id id) update in
        let kept = Memᴰ-filter (of_incident id) rows m mine in
        let there = sort_by-Memᴰ listed_before (filter (of_incident id) rows) kept in
        let listed =
          Memᴰ-map map_notification_job (sort_by listed_before (filter (of_incident id) rows))
            there in
        let found = Memᴰ-any (λ j. is_completed j.type) listed done in
        absurd (ground (arith, found, h))
  ]
