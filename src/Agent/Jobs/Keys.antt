-- ===== src/Agent/Jobs/Keys.antt =====
-- Updates of a table row by row, and the key of the evidence jobs.
use pi_ops.Base.{
  String, Bool, true, false, List, [], ◌∷◌, All, ◌≡◌, ◌≢◌, if_cases, if◌then◌else◌, refl, sym, ◌∙◌,
  subst, ap, All-Memᴰ,
}
use pi_ops.Base.Search.{All-map}
use mathlib.Core.List.{Memᴰ}
use pi_ops.Agent.Jobs.{EvidenceJob, update_where}

module _ {ℓ κ μ} {A : Type ℓ} (P : A → Type κ) (Q : A → Type μ) (p : A → Bool) (f : A → A) where
  -- What an update leaves of the rows.
  pub All-update_where :
      (xs : List A)
      → ((x : A) → P x → p x ≡ true → Q (f x))
      → ((x : A) → P x → p x ≡ false → Q x)
      → All P xs
      → All Q (update_where p f xs).0
  All-update_where [] hit miss ps = tt
  All-update_where (x ∷ xs) hit miss (h, ps) =
      (if_cases Q (p x) (hit x h) (miss x h), All-update_where xs hit miss ps)

module _ {ℓ} {E : Type ℓ} where
  -- No two rows have the same id.
  abbrev pub Keyed : List (EvidenceJob E) → Type ℓ
  Keyed [] = Unit
  Keyed (j ∷ js) = All (λ k. k.id ≢ j.id) js × Keyed js

  -- What holds of one row with an id holds of all.
  pub Keyed-Memᴰ {κ} :
      (Q : EvidenceJob E → Type κ) (id : String) (js : List (EvidenceJob E)) {j : EvidenceJob E}
      → Keyed js
      → Memᴰ j js
      → j.id ≡ id
      → Q j
      → All (λ k. k.id ≡ id → Q k) js
  Keyed-Memᴰ Q id [] _ m _ _ = elim m [ ]
  Keyed-Memᴰ Q id (k ∷ js) (fresh, keyed) (Memᴰ.head e) same q = (
    λ _. subst Q e q,
    All-map _ _ js (λ i ne eq. absurd (ne (eq ∙ sym same ∙ ap (λ x. x.id) e))) fresh,
  )
  Keyed-Memᴰ Q id (k ∷ js) {j} (fresh, keyed) (Memᴰ.tail m) same q = (
    λ eq. absurd (All-Memᴰ (λ i. i.id ≢ k.id) js fresh m (same ∙ sym eq)),
    Keyed-Memᴰ Q id js keyed m same q,
  )

  pub Keyed-update_where :
      (p : EvidenceJob E → Bool) (f : EvidenceJob E → EvidenceJob E) (js : List (EvidenceJob E))
      → ((j : EvidenceJob E) → (f j).id ≡ j.id)
      → Keyed js
      → Keyed (update_where p f js).0
  Keyed-update_where p f [] same _ = tt
  Keyed-update_where p f (j ∷ js) same (fresh, keyed) = (
    All-update_where (λ k. k.id ≢ j.id) (λ k. k.id ≢ (if p j then f j else j).id) p f js
        (λ k ne _ e. ne (sym (same k) ∙ e ∙ kept)) (λ k ne _ e. ne (e ∙ kept)) fresh,
    Keyed-update_where p f js same keyed,
  )
    where
      kept : (if p j then f j else j).id ≡ j.id
      kept = if_cases {A = EvidenceJob E} (λ k. k.id ≡ j.id) (p j) (λ _. same j) (λ _. refl)
