-- ===== src/Agent/Jobs/Listing.antt =====
-- Which pending jobs a drain takes up, and in what order.
use pi_ops.Base.{
  ℕ, ◌≤◌, eq_iff, Bool, true, false, List, [], ◌∷◌, All, filter, length, length-take, ◌≡◌, arith,
  subst, sym, refl, if_cases, if◌then◌else◌,
}
use pi_ops.Base.Order.{
  text_leb-total, text_leb_refl, sort_by, sort_by-All, IsSorted, sort_by-IsSorted, take-IsSorted,
  take-All,
}
use mathlib.Core.List.{Memᴰ}
use pi_ops.Agent.Jobs.{EvidenceJob, is_pending, listed_before, list_pending_evidence_jobs}

module _ {ℓ} {A : Type ℓ} (p : A → Bool) where
  filter-All :
      (xs ys : List A)
      → ((x : A) → Memᴰ x xs → Memᴰ x ys)
      → All (λ x. Memᴰ x ys × (p x ≡ true)) (filter p xs)
  filter-All [] ys h = tt
  filter-All (x ∷ xs) ys h =
      let rest = filter-All xs ys (λ y m. h y (Memᴰ.tail m)) in
      if_cases (All (λ x. Memᴰ x ys × (p x ≡ true))) (p x) {x = x ∷ filter p xs} {y = filter p xs}
        (λ hit. ((h x (Memᴰ.head refl), hit), rest)) (λ miss. rest)

  pub Memᴰ-filter : (xs : List A) {x : A} → Memᴰ x xs → p x ≡ true → Memᴰ x (filter p xs)
  Memᴰ-filter [] m h = elim m [ ]
  Memᴰ-filter (y ∷ ys) {x} (Memᴰ.head e) h =
      let hit : p y ≡ true = subst (λ z. p z ≡ true) e h in
      subst (λ b. Memᴰ x (if b then y ∷ filter p ys else filter p ys)) (sym hit) (Memᴰ.head e)
  Memᴰ-filter (y ∷ ys) {x} (Memᴰ.tail m) h =
      let rest = Memᴰ-filter ys m h in
      if_cases (Memᴰ x) (p y) {x = y ∷ filter p ys} {y = filter p ys} (λ _. Memᴰ.tail rest)
        (λ _. rest)

module _ {ℓ} {E : Type ℓ} where
  listed_before-total : (a b : EvidenceJob E) → listed_before a b ≡ false → listed_before b a ≡ true
  unfolding listed_before
  listed_before-total a b h = ground (
    arith,
    text_leb-total a.created_at b.created_at,
    text_leb-total a.id b.id,
    text_leb_refl a.created_at,
    text_leb-total b.created_at a.created_at,
    eq_iff a.created_at b.created_at,
    eq_iff b.created_at a.created_at,
  )

  -- A drain takes up at most the batch size of jobs, all of them pending rows of the table, the
  -- oldest first.
  list_pending_lem :
      (limit : ℕ) (jobs : List (EvidenceJob E))
      → (length (list_pending_evidence_jobs limit jobs) ≤ limit)
        × All
            (λ j. Memᴰ j jobs × (is_pending j.state ≡ true))
            (list_pending_evidence_jobs limit jobs)
        × IsSorted listed_before (list_pending_evidence_jobs limit jobs)
  unfolding list_pending_evidence_jobs
  list_pending_lem limit jobs =
      let found = filter (λ j. is_pending j.state) jobs in
      let sorted = sort_by listed_before found in
      (
        omega (arith, length-take limit sorted),
        take-All _ limit sorted (
            sort_by-All listed_before _ found
              (filter-All (λ j. is_pending j.state) jobs jobs (λ x m. m))),
        take-IsSorted listed_before limit sorted
            (sort_by-IsSorted listed_before listed_before-total found),
      )
