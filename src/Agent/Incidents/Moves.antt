-- ===== src/Agent/Incidents/Moves.antt =====
-- Recoveries, by steps of the ledger.
use pi_ops.Base.{
  ℕ, zero, suc, String, str_eq, Bool, true, false, ◌&&◌, leb, Option, none, some, List, [], ◌∷◌,
  map, filter, All, All-Memᴰ, ◌≡◌, refl, sym, subst, if_cases, arith,
}
use mathlib.Core.List.{Memᴰ}
use pi_ops.Base.Search.{filter-Memᴰ, All-map}
use pi_ops.Protocol.{OpsEvent}
use pi_ops.Agent.Incidents.{
  IncidentState, is_active, is_closed, IncidentRow, Tables, get_incident, only, or_else,
  find_recovery_incident, link_event_to_incident,
}
use pi_ops.Agent.Incidents.Engine.{
  legacy_fingerprint_of, Env, recovery_update, recover_incident, apply_found, apply_recovery,
  match_of, apply_match, apply_matches, reconcile_round, reconcile_from, reconcile_fingerprint,
}
use pi_ops.Agent.Incidents.Ledger.{
  Ledger, Fits, gains, Reach, here, next, Reach-trans, Balanced, get-id,
}
use pi_ops.Agent.Incidents.History.{Reach-Follows, Reach-Balanced}

abbrev pub OptionAll {ℓ κ} : {A : Type ℓ} → (A → Type κ) → Option A → Type κ
OptionAll P none = Unit
OptionAll P (some x) = P x

abbrev pub ledger_of {ℓ} : {N : Type ℓ} → Tables N → Ledger
ledger_of t = record { incidents = t.incidents; links = t.links }

-- The id has an incident, which is not closed.
abbrev pub IsOpen : String → List IncidentRow → Type 0
IsOpen id rows = (r : IncidentRow) × (get_incident id rows ≡ some r) × (is_closed r.state ≡ false)

pub IsOpen-Reach :
    {s u : Ledger} (id : String) → Reach s u → IsOpen id s.incidents → IsOpen id u.incidents
IsOpen-Reach id reach (r, e, h) =
    let (q, f, evolves) = Reach-Follows id r e reach in (q, f, evolves.stays_unclosed h)

only-Memᴰ : (rows : List IncidentRow) → OptionAll (λ r. Memᴰ r rows) (only rows)
only-Memᴰ [] = tt
only-Memᴰ (r ∷ []) = Memᴰ.head refl
only-Memᴰ (r ∷ (q ∷ rows)) = tt

pub or_else-OptionAll {ℓ κ} :
    {A : Type ℓ} (P : A → Type κ) (a b : Option A)
    → OptionAll P a
    → OptionAll P b
    → OptionAll P (or_else a b)
or_else-OptionAll P none b p q = q
or_else-OptionAll P (some x) b p q = p

pub OptionAll-map {ℓ κ μ} :
    {A : Type ℓ} (P : A → Type κ) (Q : A → Type μ) (o : Option A)
    → ((x : A) → P x → Q x)
    → OptionAll P o
    → OptionAll Q o
OptionAll-map P Q none h p = tt
OptionAll-map P Q (some x) h p = h x p

active-unclosed : (s : IncidentState) → is_active s ≡ true → is_closed s ≡ false
active-unclosed IncidentState.opened h = refl
active-unclosed IncidentState.investigating h = refl
active-unclosed IncidentState.notified h = refl
active-unclosed IncidentState.recovered h = refl
active-unclosed IncidentState.closed h = cc

-- A row of the table that is not closed.
abbrev pub Takes : List IncidentRow → IncidentRow → Type 0
Takes rows r = Memᴰ r rows × (is_closed r.state ≡ false)

pub Takes-IsOpen :
    {s : Ledger} (r : IncidentRow)
    → Balanced s
    → Takes s.incidents r
    → (get_incident r.id s.incidents ≡ some r) × (is_closed r.state ≡ false)
Takes-IsOpen {s} r b (m, h) = (All-Memᴰ _ s.incidents b.indexed m, h)

pub find_recovery-Takes :
    (time_of : String → ℕ) (fingerprint timestamp : String) (rows : List IncidentRow)
    → OptionAll (Takes rows) (find_recovery_incident time_of fingerprint timestamp rows)
unfolding find_recovery_incident
find_recovery-Takes time_of fingerprint timestamp rows =
    OptionAll-map _ _ (find_recovery_incident time_of fingerprint timestamp rows)
      (λ r m.
        let (n, _) =
          filter-Memᴰ
            (λ r.
              leb (time_of r.first_seen) (time_of timestamp)
              && leb (time_of r.last_seen) (time_of timestamp))
            (filter (λ r. str_eq r.fingerprint fingerprint && is_active r.state) rows) m in
        let (k, h) =
          filter-Memᴰ (λ r. str_eq r.fingerprint fingerprint && is_active r.state) rows n in
        (k, active-unclosed r.state (ground (arith))))
      (only-Memᴰ _)

-- A recovery with its incident, if one was found.
abbrev HasOpen : List IncidentRow → OpsEvent × Option IncidentRow → Type 0
HasOpen rows m = OptionAll (λ (r : IncidentRow). IsOpen r.id rows) m.1

module _ {ℓ} {N : Type ℓ} (env : Env N) where
  match_of-Takes :
      (fingerprint : String) (t : Tables N) (recovery : OpsEvent)
      → OptionAll (Takes t.incidents) (match_of env fingerprint t recovery)
  unfolding match_of
  match_of-Takes fingerprint t recovery =
      or_else-OptionAll (Takes t.incidents) _ _
        (find_recovery-Takes env.time_of fingerprint recovery.time t.incidents)
        (find_recovery-Takes env.time_of (legacy_fingerprint_of env recovery) recovery.time
          t.incidents)

  recovery-Fits :
      (r : IncidentRow) (recovery : OpsEvent) (linked : Bool)
      → Fits r (recovery_update env r recovery linked) linked
  recovery-Fits r recovery linked = record {
    counts = refl;
    stays_recovered = λ _. refl;
    not_closed = refl;
    no_milder = omega arith;
  }

  recover_incident-Reach :
      (r : IncidentRow) (recovery : OpsEvent) (now : String) (t : Tables N)
      → get_incident r.id t.incidents ≡ some r
      → is_closed r.state ≡ false
      → Reach (ledger_of t) (
          ledger_of
            (recover_incident env r recovery now
              (link_event_to_incident r.id recovery.id t.links)
              t).0)
  unfolding recover_incident
  recover_incident-Reach r recovery now t e h =
      if_cases {A = Tables N × Bool} (λ p. Reach (ledger_of t) (ledger_of p.0)) _ (λ _. here)
        (λ _. next here (
          gains r recovery.id
            (recovery_update env r recovery (link_event_to_incident r.id recovery.id t.links).1) e h
            (recovery-Fits r recovery _) refl))

  pub apply_recovery-Reach :
      (id : String) (recovery : OpsEvent) (now : String) (t : Tables N)
      → IsOpen id t.incidents
      → Reach (ledger_of t) (ledger_of (apply_recovery env id recovery now t).0)
  unfolding apply_recovery
  apply_recovery-Reach id recovery now t (r, e, h) =
      let same : get_incident r.id t.incidents ≡ some r =
        subst (λ i. get_incident i t.incidents ≡ some r) (sym (get-id id t.incidents e)) e in
      subst (λ o. Reach (ledger_of t) (ledger_of (apply_found env o recovery now t).0)) (sym e)
        (recover_incident-Reach r recovery now t same h)

  apply_match-Reach :
      (recovery : OpsEvent) (o : Option IncidentRow) (now : String) (t : Tables N)
      → OptionAll (λ r. IsOpen r.id t.incidents) o
      → Reach (ledger_of t) (ledger_of (apply_match env recovery o now t).0)
  apply_match-Reach recovery none now t h = here
  apply_match-Reach recovery (some r) now t h = apply_recovery-Reach r.id recovery now t h

  apply_matches-Reach :
      (matches : List (OpsEvent × Option IncidentRow)) (now : String) (t : Tables N)
      → All (HasOpen t.incidents) matches
      → Reach (ledger_of t) (ledger_of (apply_matches env matches now t).0)
  unfolding apply_matches
  apply_matches-Reach [] now t h = here
  apply_matches-Reach ((recovery, o) ∷ matches) now t (h, hs) =
      let one = apply_match-Reach recovery o now t h in
      Reach-trans one (
        apply_matches-Reach matches now (apply_match env recovery o now t).0 (
          All-map _ _ matches (λ m p. OptionAll-map _ _ m.1 (λ r q. IsOpen-Reach r.id one q) p) hs))

  matches-IsOpen :
      (fingerprint : String) (t : Tables N) (recoveries : List OpsEvent)
      → Balanced (ledger_of t)
      → All
          (HasOpen t.incidents)
          (map (λ recovery. (recovery, match_of env fingerprint t recovery)) recoveries)
  matches-IsOpen fingerprint t [] b = tt
  matches-IsOpen fingerprint t (recovery ∷ rest) b = (
    OptionAll-map _ _ (match_of env fingerprint t recovery)
        (λ r p. let (e, h) = Takes-IsOpen r b p in (r, e, h))
        (match_of-Takes fingerprint t recovery),
    matches-IsOpen fingerprint t rest b,
  )

  round-Reach :
      (fingerprint now : String) (t : Tables N)
      → Balanced (ledger_of t)
      → Reach (ledger_of t) (ledger_of (reconcile_round env fingerprint now t).0)
  unfolding reconcile_round
  round-Reach fingerprint now t b = apply_matches-Reach _ now t (matches-IsOpen fingerprint t _ b)

  from-Reach :
      (fuel : ℕ) (fingerprint now : String) (t : Tables N)
      → Balanced (ledger_of t)
      → Reach (ledger_of t) (ledger_of (reconcile_from env fuel fingerprint now t))
  unfolding reconcile_from
  from-Reach zero fingerprint now t b = here
  from-Reach (suc fuel) fingerprint now t b =
      let one = round-Reach fingerprint now t b in
      if_cases {A = Tables N} (λ u. Reach (ledger_of t) (ledger_of u))
        (reconcile_round env fingerprint now t).1
        (λ _. Reach-trans one (
          from-Reach fuel fingerprint now (reconcile_round env fingerprint now t).0
            (Reach-Balanced b one)))
        (λ _. one)

  pub reconcile_fingerprint-Reach :
      (fingerprint now : String) (t : Tables N)
      → Balanced (ledger_of t)
      → Reach (ledger_of t) (ledger_of (reconcile_fingerprint env fingerprint now t))
  unfolding reconcile_fingerprint
  reconcile_fingerprint-Reach fingerprint now t b = from-Reach _ fingerprint now t b
