-- ===== src/Base/Search.antt =====
-- `find` and `any`, by the elements that they look at.
use mathlib.Core.Path.{◌≡◌, refl, sym, ap, ◌∙◌, subst}
use mathlib.Core.Bool.{Bool, true, false}
use mathlib.Core.Logic.{◌≢◌, inl, inr}
use mathlib.Core.List.{List, [], ◌∷◌, Memᴰ, map}
use mathlib.Core.Option.{none, some}
use native.Mathlib.Omega.{arith}
use pi_ops.Base.Tests.{Bool-cases, if◌then◌else◌}
use pi_ops.Base.Lists.{any, find, filter, All}

module _ {ℓ} {A : Type ℓ} (p : A → Bool) where
  pub find-Memᴰ : (xs : List A) {x : A} → find p xs ≡ some x → Memᴰ x xs × (p x ≡ true)
  find-Memᴰ [] e = cc
  find-Memᴰ (y ∷ ys) {x} e = elim (Bool-cases (p y)) [
    | inl hit ↦ let same : y ≡ x = ground arith in (Memᴰ.head (sym same), sym (ap p same) ∙ hit)
    | inr miss ↦ let (m, h) = find-Memᴰ ys {x = x} (ground arith) in (Memᴰ.tail m, h)
  ]

  pub Memᴰ-find : {x : A} {xs : List A} → Memᴰ x xs → p x ≡ true → find p xs ≢ none
  Memᴰ-find (Memᴰ.head e) h = let hit = sym (ap p e) ∙ h in ground arith
  Memᴰ-find (Memᴰ.tail m) h = ground (arith, Memᴰ-find m h)

  pub any-Memᴰ : (xs : List A) → any p xs ≡ true → (x : A) × Memᴰ x xs × (p x ≡ true)
  any-Memᴰ [] e = cc
  any-Memᴰ (y ∷ ys) e = elim (Bool-cases (p y)) [
    | inl hit ↦ (y, Memᴰ.head refl, hit)
    | inr miss ↦ let (x, m, h) = any-Memᴰ ys (ground arith) in (x, Memᴰ.tail m, h)
  ]

  pub Memᴰ-any : {x : A} {xs : List A} → Memᴰ x xs → p x ≡ true → any p xs ≡ true
  Memᴰ-any (Memᴰ.head e) h = let hit = sym (ap p e) ∙ h in ground arith
  Memᴰ-any (Memᴰ.tail m) h = ground (arith, Memᴰ-any m h)

module _ {ℓ} {A : Type ℓ} where
  pub All-map {κ μ} :
      (P : A → Type κ) (Q : A → Type μ) (xs : List A) → ((x : A) → P x → Q x) → All P xs → All Q xs
  All-map P Q [] h ps = tt
  All-map P Q (x ∷ xs) h (p, ps) = (h x p, All-map P Q xs h ps)

  pub All-zip {κ μ} :
      (P : A → Type κ) (Q : A → Type μ) (xs : List A)
      → All P xs
      → All Q xs
      → All (λ x. P x × Q x) xs
  All-zip P Q [] ps qs = tt
  All-zip P Q (x ∷ xs) (p, ps) (q, qs) = ((p, q), All-zip P Q xs ps qs)

  pub any-All : (p : A → Bool) (xs : List A) → any p xs ≡ false → All (λ x. p x ≡ false) xs
  any-All p [] h = tt
  any-All p (x ∷ xs) h = (ground arith, any-All p xs (ground arith))

  pub find-All : (p : A → Bool) (xs : List A) → find p xs ≡ none → All (λ x. p x ≡ false) xs
  find-All p [] h = tt
  find-All p (x ∷ xs) h = (ground arith, find-All p xs (ground arith))

-- `find` after a map that the test does not see.
module _ {ℓ} {A : Type ℓ} (p : A → Bool) (f : A → A) where
  pub find-map :
      (xs : List A)
      → ((x : A) → p (f x) ≡ p x)
      → (x : A) → find p xs ≡ some x
      → find p (map f xs) ≡ some (f x)
  find-map [] same x e = cc
  find-map (y ∷ ys) same x e = elim (Bool-cases (p y)) [
    | inl hit ↦
        let eq : some y ≡ some x = ground arith in
        let here : y ≡ x = cc in
        let hit' : p (f y) ≡ true = same y ∙ hit in
        subst (λ b. (if b then some (f y) else find p (map f ys)) ≡ some (f x)) (sym hit')
          (ap (λ z. some (f z)) here)
    | inr miss ↦
        let there : find p ys ≡ some x = ground arith in
        let miss' : p (f y) ≡ false = same y ∙ miss in
        subst (λ b. (if b then some (f y) else find p (map f ys)) ≡ some (f x)) (sym miss')
          (find-map ys same x there)
  ]

kept_head {ℓ} :
    {A : Type ℓ} (p : A → Bool) (y : A) (ys : List A) {x : A}
    → p y ≡ true
    → (Memᴰ x (filter p ys) → Memᴰ x ys × (p x ≡ true))
    → Memᴰ x (y ∷ filter p ys)
    → Memᴰ x (y ∷ ys) × (p x ≡ true)
kept_head p y ys hit rest (Memᴰ.head e) = (Memᴰ.head e, ap p e ∙ hit)
kept_head p y ys hit rest (Memᴰ.tail m) = let (n, h) = rest m in (Memᴰ.tail n, h)

-- The elements that a filter leaves.
pub filter-Memᴰ {ℓ} :
    {A : Type ℓ} (p : A → Bool) (xs : List A) {x : A}
    → Memᴰ x (filter p xs)
    → Memᴰ x xs × (p x ≡ true)
filter-Memᴰ p [] m = elim m [ ]
filter-Memᴰ p (y ∷ ys) {x} m = elim (Bool-cases (p y)) [
  | inl hit ↦
      let here : Memᴰ x (y ∷ filter p ys) =
        subst (λ b. Memᴰ x (if b then y ∷ filter p ys else filter p ys)) hit m in
      kept_head p y ys hit (λ n. filter-Memᴰ p ys n) here
  | inr miss ↦
      let there : Memᴰ x (filter p ys) =
        subst (λ b. Memᴰ x (if b then y ∷ filter p ys else filter p ys)) miss m in
      let (n, h) = filter-Memᴰ p ys there in (Memᴰ.tail n, h)
]

-- `any` after a map.
module _ {ℓ κ} {A : Type ℓ} {B : Type κ} (p : A → Bool) (q : B → Bool) (f : A → B) where
  pub any-map-true :
      (xs : List A)
      → ((x : A) → p x ≡ true → q (f x) ≡ true)
      → any p xs ≡ true
      → any q (map f xs) ≡ true
  any-map-true [] h e = cc
  any-map-true (x ∷ xs) h e = ground (arith, h x, any-map-true xs h)

  pub map-any_same : (xs : List A) → ((x : A) → q (f x) ≡ p x) → any q (map f xs) ≡ any p xs
  map-any_same [] h = refl
  map-any_same (x ∷ xs) h = rw (h x, map-any_same xs h) refl

pub Memᴰ-map {ℓ κ} :
    {A : Type ℓ} {B : Type κ} (f : A → B) (xs : List A) {x : A} → Memᴰ x xs → Memᴰ (f x) (map f xs)
Memᴰ-map f [] m = elim m [ ]
Memᴰ-map f (y ∷ ys) (Memᴰ.head e) = Memᴰ.head (ap f e)
Memᴰ-map f (y ∷ ys) (Memᴰ.tail m) = Memᴰ.tail (Memᴰ-map f ys m)

pub All-of_map {ℓ κ μ} :
    {A : Type ℓ} {B : Type κ} (Q : B → Type μ) (f : A → B) (xs : List A)
    → All (λ x. Q (f x)) xs
    → All Q (map f xs)
All-of_map Q f [] h = tt
All-of_map Q f (x ∷ xs) (h, hs) = (h, All-of_map Q f xs hs)
