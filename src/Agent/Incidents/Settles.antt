-- ===== src/Agent/Incidents/Settles.antt =====
-- The loop over waiting recoveries ends.
use pi_ops.Base.{
  ℕ, zero, suc, ◌≤◌, ◌<◌, String, str_eq, eq_iff, Bool, true, false, not, ◌||◌, any, filter, length,
  Option, none, some, List, [], ◌∷◌, map, All, All-Memᴰ, Memᴰ-All, ◌≡◌, refl, sym, ◌∙◌, ap, subst,
  if_cases, Bool-cases, inl, inr, arith,
}
use pi_ops.Base.Search.{filter-Memᴰ, Memᴰ-any}
use pi_ops.Base.Order.{sort_by, sort_by-All}
use pi_ops.Protocol.{OpsEvent}
use pi_ops.Agent.Incidents.{
  IncidentRow, Link, Tables, PendingRecovery, waits_for, get_incident, remove_pending_recovery,
  list_pending_recoveries, recovery_before, add_pending_recovery,
}
use pi_ops.Agent.Incidents.Engine.{
  Env, recover_incident, apply_found, apply_recovery, match_of, apply_match, apply_matches,
  reconcile_round, reconcile_from, reconcile_fingerprint, evaluate_notification,
}

-- A row waits under the id of its event.
abbrev pub Filed : List PendingRecovery → Type 0
Filed rows = All (λ p. p.event.id ≡ p.event_id) rows

pub Filed-add :
    (event : OpsEvent) (fingerprint : String) (rows : List PendingRecovery)
    → Filed rows
    → Filed (add_pending_recovery event fingerprint rows)
unfolding add_pending_recovery
Filed-add event fingerprint rows h =
    if_cases Filed (any (waits_for event.id) rows) (λ _. h) (λ _. (refl, h))

filter-All {ℓ κ} :
    {A : Type ℓ} (P : A → Type κ) (p : A → Bool) (xs : List A) → All P xs → All P (filter p xs)
filter-All P p [] h = tt
filter-All P p (x ∷ xs) (h, hs) =
    let rest = filter-All P p xs hs in
    if_cases (All P) (p x) {x = x ∷ filter p xs} {y = filter p xs} (λ _. (h, rest)) (λ _. rest)

pub Filed-remove :
    (event_id : String) (rows : List PendingRecovery)
    → Filed rows
    → Filed (remove_pending_recovery event_id rows)
unfolding remove_pending_recovery
Filed-remove event_id rows h =
    filter-All (λ (p : PendingRecovery). p.event.id ≡ p.event_id) (λ p. not (waits_for event_id p))
      rows h

length-remove :
    (event_id : String) (rows : List PendingRecovery)
    → length (remove_pending_recovery event_id rows) ≤ length rows
unfolding remove_pending_recovery
length-remove event_id [] = omega arith
length-remove event_id (p ∷ rows) = ground (arith, length-remove event_id rows)

remove_shrinks :
    (event_id : String) (rows : List PendingRecovery)
    → any (waits_for event_id) rows ≡ true
    → length (remove_pending_recovery event_id rows) < length rows
unfolding remove_pending_recovery
remove_shrinks event_id [] h = cc
remove_shrinks event_id (p ∷ rows) h =
    ground (arith, length-remove event_id rows, remove_shrinks event_id rows)

module _ {ℓ} {N : Type ℓ} (env : Env N) where
  -- An attempt that fails changes nothing, and one that succeeds takes the recovery from the table.
  abbrev Shrinks : String → Tables N → Tables N × Bool → Type ℓ
  Shrinks event_id t p =
      (p.1 ≡ true → p.0.pending_recoveries ≡ remove_pending_recovery event_id t.pending_recoveries)
      × (p.1 ≡ false → p.0 ≡ t)

  unchanged-Shrinks : (event_id : String) (t : Tables N) → Shrinks event_id t (t, false)
  unchanged-Shrinks event_id t = (λ h. cc, λ _. refl)

  applied-Shrinks :
      (event_id : String) (t u : Tables N)
      → u.pending_recoveries ≡ remove_pending_recovery event_id t.pending_recoveries
      → Shrinks event_id t (u, true)
  applied-Shrinks event_id t u e = (λ _. e, λ h. cc)

  recover-Shrinks :
      (r : IncidentRow) (recovery : OpsEvent) (now : String) (l : List Link × Bool) (t : Tables N)
      → Shrinks recovery.id t (recover_incident env r recovery now l t)
  unfolding recover_incident evaluate_notification
  recover-Shrinks r recovery now (links, linked) t =
      if_cases {A = Tables N × Bool} (Shrinks recovery.id t) _
        (λ _. unchanged-Shrinks recovery.id t) (λ _. applied-Shrinks recovery.id t _ refl)

  found-Shrinks :
      (o : Option IncidentRow) (recovery : OpsEvent) (now : String) (t : Tables N)
      → Shrinks recovery.id t (apply_found env o recovery now t)
  found-Shrinks none recovery now t = unchanged-Shrinks recovery.id t
  found-Shrinks (some r) recovery now t = recover-Shrinks r recovery now _ t

  match-Shrinks :
      (recovery : OpsEvent) (o : Option IncidentRow) (now : String) (t : Tables N)
      → Shrinks recovery.id t (apply_match env recovery o now t)
  unfolding apply_recovery
  match-Shrinks recovery none now t = (λ h. cc, λ _. refl)
  match-Shrinks recovery (some r) now t =
      found-Shrinks (get_incident r.id t.incidents) recovery now t

  -- What an attempt, or a round of them, leaves in the table.
  pub record Shortens (t : Tables N) (p : Tables N × Bool) : Type ℓ where
    pub no_longer : length p.0.pending_recoveries ≤ length t.pending_recoveries
    pub filed : Filed t.pending_recoveries → Filed p.0.pending_recoveries
    pub still : p.1 ≡ false → p.0 ≡ t

  match-Shortens :
      (recovery : OpsEvent) (o : Option IncidentRow) (now : String) (t : Tables N)
      → Shortens t (apply_match env recovery o now t)
  match-Shortens recovery o now t =
      let u = apply_match env recovery o now t in
      let (done, failed) = match-Shrinks recovery o now t in
      elim (Bool-cases u.1) [
        | inl progress ↦ record {
          no_longer =
              subst (λ (l : List PendingRecovery). length l ≤ length t.pending_recoveries)
                (sym (done progress)) (length-remove recovery.id t.pending_recoveries);
          filed = λ h.
              subst Filed (sym (done progress)) (Filed-remove recovery.id t.pending_recoveries h);
          still = failed;
        }
        | inr none_ ↦ record {
          no_longer =
              subst (λ (v : Tables N). length v.pending_recoveries ≤ length t.pending_recoveries)
                (sym (failed none_)) (omega arith);
          filed = λ h. subst (λ (v : Tables N). Filed v.pending_recoveries) (sym (failed none_)) h;
          still = failed;
        }
      ]

  matches-Shortens :
      (matches : List (OpsEvent × Option IncidentRow)) (now : String) (t : Tables N)
      → Shortens t (apply_matches env matches now t)
  unfolding apply_matches
  matches-Shortens [] now t = record { no_longer = omega arith; filed = λ h. h; still = λ _. refl }
  matches-Shortens ((recovery, o) ∷ matches) now t =
      let u = apply_match env recovery o now t in
      let one = match-Shortens recovery o now t in
      let rest = matches-Shortens matches now u.0 in
      record {
        no_longer = omega (arith, one.no_longer, rest.no_longer);
        filed = λ h. rest.filed (one.filed h);
        still = λ h. rest.still (or_right u.1 _ h) ∙ one.still (or_left u.1 _ h);
      }
    where
      or_left : (a b : Bool) → (a || b) ≡ false → a ≡ false
      or_left false b h = refl
      or_left true b h = cc

      or_right : (a b : Bool) → (a || b) ≡ false → b ≡ false
      or_right false b h = h
      or_right true b h = cc

  -- A round in which some attempt succeeds leaves fewer recoveries.
  matches_progress :
      (matches : List (OpsEvent × Option IncidentRow)) (now : String) (t : Tables N)
      → All
          (λ (m : OpsEvent × Option IncidentRow).
            any (waits_for m.0.id) t.pending_recoveries ≡ true)
          matches
      → (apply_matches env matches now t).1 ≡ true
      → length (apply_matches env matches now t).0.pending_recoveries < length t.pending_recoveries
  unfolding apply_matches
  matches_progress [] now t _ h = cc
  matches_progress ((recovery, o) ∷ matches) now t (waits, all_wait) h =
      let u = apply_match env recovery o now t in
      let rest = matches-Shortens matches now u.0 in
      let (done, failed) = match-Shrinks recovery o now t in
      elim (Bool-cases u.1) [
        | inl progress ↦ omega (
          arith,
          rest.no_longer,
          ap (λ (l : List PendingRecovery). length l) (done progress),
          remove_shrinks recovery.id t.pending_recoveries waits,
        )
        | inr none_ ↦
            let same = failed none_ in
            let more : (apply_matches env matches now u.0).1 ≡ true =
              subst (λ b. (b || (apply_matches env matches now u.0).1) ≡ true) none_ h in
            let less =
              matches_progress matches now u.0
                (subst
                  (λ (v : Tables N).
                    All
                      (λ (m : OpsEvent × Option IncidentRow).
                        any (waits_for m.0.id) v.pending_recoveries ≡ true)
                      matches)
                  (sym same) all_wait)
                more in
            omega (arith, less, ap (λ (v : Tables N). length v.pending_recoveries) same)
      ]

  -- The recoveries of a round wait in the table.
  listed-wait :
      (fingerprint : String) (t : Tables N) (ps : List PendingRecovery)
      → All (λ (p : PendingRecovery). any (waits_for p.event.id) t.pending_recoveries ≡ true) ps
      → All
          (λ (m : OpsEvent × Option IncidentRow).
            any (waits_for m.0.id) t.pending_recoveries ≡ true)
          (map
            (λ recovery. (recovery, match_of env fingerprint t recovery))
            (map (λ (p : PendingRecovery). p.event) ps))
  listed-wait fingerprint t [] h = tt
  listed-wait fingerprint t (p ∷ ps) (h, hs) = (h, listed-wait fingerprint t ps hs)

  waiting :
      (fingerprint : String) (rows : List PendingRecovery)
      → Filed rows
      → All
          (λ (p : PendingRecovery). any (waits_for p.event.id) rows ≡ true)
          (sort_by
            (recovery_before env.time_of)
            (filter (λ (p : PendingRecovery). str_eq p.fingerprint fingerprint) rows))
  waiting fingerprint rows h =
      sort_by-All (recovery_before env.time_of) _
        (filter (λ (p : PendingRecovery). str_eq p.fingerprint fingerprint) rows)
        (Memᴰ-All _ (filter (λ (p : PendingRecovery). str_eq p.fingerprint fingerprint) rows)
          (λ p m.
            let (n, _) =
              filter-Memᴰ (λ (p : PendingRecovery). str_eq p.fingerprint fingerprint) rows m in
            let same = All-Memᴰ (λ (p : PendingRecovery). p.event.id ≡ p.event_id) rows h n in
            Memᴰ-any (waits_for p.event.id) n ((eq_iff p.event_id p.event.id).1 (sym same))))

  round_progress :
      (fingerprint now : String) (t : Tables N)
      → Filed t.pending_recoveries
      → (reconcile_round env fingerprint now t).1 ≡ true
      → length (reconcile_round env fingerprint now t).0.pending_recoveries
        < length t.pending_recoveries
  unfolding reconcile_round list_pending_recoveries
  round_progress fingerprint now t h =
      matches_progress _ now t
        (listed-wait fingerprint t _ (waiting fingerprint t.pending_recoveries h))

  round-Shortens :
      (fingerprint now : String) (t : Tables N) → Shortens t (reconcile_round env fingerprint now t)
  unfolding reconcile_round
  round-Shortens fingerprint now t = matches-Shortens _ now t

  abbrev pub IsSettled : (fingerprint now : String) → Tables N → Type 0
  IsSettled fingerprint now t = (reconcile_round env fingerprint now t).1 ≡ false

  from-IsSettled :
      (fuel : ℕ) (fingerprint now : String) (t : Tables N)
      → Filed t.pending_recoveries
      → length t.pending_recoveries < fuel
      → IsSettled fingerprint now (reconcile_from env fuel fingerprint now t)
  unfolding reconcile_from
  from-IsSettled zero fingerprint now t filed enough = absurd (omega arith)
  from-IsSettled (suc fuel) fingerprint now t filed enough =
      let u = reconcile_round env fingerprint now t in
      let short = round-Shortens fingerprint now t in
      if_cases {A = Tables N} (IsSettled fingerprint now) u.1
        (λ progress.
          from-IsSettled fuel fingerprint now u.0 (short.filed filed)
            (omega (arith, round_progress fingerprint now t filed progress)))
        (λ ended. subst (IsSettled fingerprint now) (sym (short.still ended)) ended)

  -- The loop over the waiting recoveries of a fingerprint ends, after one round more than recoveries wait at
  -- most: then no waiting recovery of the fingerprint can be applied.
  pub reconcile_fingerprint-IsSettled :
      (fingerprint now : String) (t : Tables N)
      → Filed t.pending_recoveries
      → (reconcile_round env fingerprint now (reconcile_fingerprint env fingerprint now t)).1
        ≡ false
  unfolding reconcile_fingerprint
  reconcile_fingerprint-IsSettled fingerprint now t filed =
      from-IsSettled _ fingerprint now t filed (omega arith)
