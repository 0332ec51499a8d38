-- ===== src/Base/Order.antt =====
-- The order of texts by their code points, as SQLite's BINARY collation has it, and ORDER BY.
use Prim.Native.Nat.{ℕ, zero, suc, ◌≤◌, ◌+◌, ◌-◌, ◌/◌, ◌%◌}
use Prim.Native.String.{String}
use mathlib.Core.Bool.{Bool, true, false, ◌&&◌, ◌||◌}
use mathlib.Core.List.{List, [], ◌∷◌, ◌++◌, Memᴰ}
use mathlib.Core.Path.{◌≡◌, refl}
use native.Mathlib.Omega.{arith}
use pi_ops.Base.Tests.{ltb, ◌==◌, if◌then◌else◌, if_cases}
use pi_ops.Base.Text.{codes}
use pi_ops.Base.Lists.{All, take, length}

abbrev codes_leb : List ℕ → List ℕ → Bool
codes_leb [] ys = true
codes_leb (x ∷ xs) [] = false
codes_leb (x ∷ xs) (y ∷ ys) = let rest = codes_leb xs ys in ltb x y || (x == y && rest)

unfoldable pub text_leb : String → String → Bool
text_leb a b = codes_leb (codes a) (codes b)

-- The code units of a character in UTF-16.
abbrev units : ℕ → List ℕ
units c =
    if ltb c 0x10000
    then c ∷ []
    else (0xD800 + (c - 0x10000) / 0x400) ∷ (0xDC00 + (c - 0x10000) % 0x400) ∷ []

abbrev all_units : List ℕ → List ℕ
all_units [] = []
all_units (c ∷ cs) = units c ++ all_units cs

-- The order of `sort()` without an argument.
unfoldable pub units_leb : String → String → Bool
units_leb a b = codes_leb (all_units (codes a)) (all_units (codes b))

codes_leb-total : (xs ys : List ℕ) → codes_leb xs ys ≡ false → codes_leb ys xs ≡ true
codes_leb-total [] ys h = cc
codes_leb-total (x ∷ xs) [] h = refl
codes_leb-total (x ∷ xs) (y ∷ ys) h = ground (arith, codes_leb-total xs ys)

pub text_leb-total : (a b : String) → text_leb a b ≡ false → text_leb b a ≡ true
unfolding text_leb
text_leb-total a b h = codes_leb-total (codes a) (codes b) h

codes_leb_refl : (xs : List ℕ) → codes_leb xs xs ≡ true
codes_leb_refl [] = refl
codes_leb_refl (x ∷ xs) = ground (arith, codes_leb_refl xs)

pub text_leb_refl : (a : String) → text_leb a a ≡ true
unfolding text_leb
text_leb_refl a = codes_leb_refl (codes a)

module _ {ℓ} {A : Type ℓ} (before : A → A → Bool) where
  insert_by : A → List A → List A
  insert_by x [] = x ∷ []
  insert_by x (y ∷ ys) = let rest = insert_by x ys in if before x y then x ∷ y ∷ ys else y ∷ rest

  unfoldable pub sort_by : List A → List A
  unfolding insert_by
  sort_by [] = []
  sort_by (x ∷ xs) = insert_by x (sort_by xs)

  insert_by-All {κ} :
      (P : A → Type κ) (x : A) (xs : List A) → P x → All P xs → All P (insert_by x xs)
  unfolding insert_by
  insert_by-All P x [] p ps = (p, tt)
  insert_by-All P x (y ∷ ys) p (q, qs) =
      if_cases (All P) (before x y) (λ _. (p, (q, qs))) (λ _. (q, insert_by-All P x ys p qs))

  pub sort_by-All {κ} : (P : A → Type κ) (xs : List A) → All P xs → All P (sort_by xs)
  unfolding sort_by
  sort_by-All P [] ps = tt
  sort_by-All P (x ∷ xs) (p, ps) = insert_by-All P x (sort_by xs) p (sort_by-All P xs ps)

  -- Each element stands before the next.
  abbrev pub IsSorted : List A → Type 0
  IsSorted [] = Unit {0}
  IsSorted (x ∷ []) = Unit {0}
  IsSorted (x ∷ (y ∷ ys)) = (before x y ≡ true) × IsSorted (y ∷ ys)

  insert_by-IsSorted :
      ((a b : A) → before a b ≡ false → before b a ≡ true)
      → (x : A) (ys : List A) → IsSorted ys
      → IsSorted (insert_by x ys)
  unfolding insert_by
  insert_by-IsSorted total x [] s = tt
  insert_by-IsSorted total x (y ∷ []) s =
      if_cases IsSorted (before x y) (λ h. (h, tt)) (λ h. (total x y h, tt))
  insert_by-IsSorted total x (y ∷ (z ∷ zs)) (h, s) =
      let ih = insert_by-IsSorted total x (z ∷ zs) s in
      if_cases IsSorted (before x y) {x = x ∷ y ∷ z ∷ zs} {y = y ∷ insert_by x (z ∷ zs)}
        (λ k. (k, (h, s))) (λ k. ground (arith, total x y))

  pub sort_by-IsSorted :
      ((a b : A) → before a b ≡ false → before b a ≡ true) → (xs : List A) → IsSorted (sort_by xs)
  unfolding sort_by
  sort_by-IsSorted total [] = tt
  sort_by-IsSorted total (x ∷ xs) =
      insert_by-IsSorted total x (sort_by xs) (sort_by-IsSorted total xs)

  pub take-IsSorted : (n : ℕ) (xs : List A) → IsSorted xs → IsSorted (take n xs)
  take-IsSorted zero xs s = tt
  take-IsSorted (suc n) [] s = tt
  take-IsSorted (suc zero) (x ∷ []) s = tt
  take-IsSorted (suc (suc n)) (x ∷ []) s = tt
  take-IsSorted (suc zero) (x ∷ (y ∷ ys)) s = tt
  take-IsSorted (suc (suc n)) (x ∷ (y ∷ ys)) (h, s) = (h, take-IsSorted (suc n) (y ∷ ys) s)

  later-Memᴰ :
      {x y z : A} {ys zs : List A}
      → Memᴰ z (x ∷ y ∷ ys)
      → (Memᴰ z (x ∷ ys) → Memᴰ z zs)
      → Memᴰ z (y ∷ zs)
  later-Memᴰ (Memᴰ.head e) h = Memᴰ.tail (h (Memᴰ.head e))
  later-Memᴰ (Memᴰ.tail (Memᴰ.head e)) h = Memᴰ.head e
  later-Memᴰ (Memᴰ.tail (Memᴰ.tail k)) h = Memᴰ.tail (h (Memᴰ.tail k))

  insert_by-Memᴰ : (x : A) (ys : List A) {z : A} → Memᴰ z (x ∷ ys) → Memᴰ z (insert_by x ys)
  unfolding insert_by
  insert_by-Memᴰ x [] m = m
  insert_by-Memᴰ x (y ∷ ys) {z} m =
      if_cases (Memᴰ z) (before x y) {x = x ∷ y ∷ ys} {y = y ∷ insert_by x ys} (λ _. m)
        (λ _. later-Memᴰ m (insert_by-Memᴰ x ys))

  pub sort_by-Memᴰ : (xs : List A) {z : A} → Memᴰ z xs → Memᴰ z (sort_by xs)
  unfolding sort_by
  sort_by-Memᴰ [] m = elim m [ ]
  sort_by-Memᴰ (x ∷ xs) (Memᴰ.head e) = insert_by-Memᴰ x (sort_by xs) (Memᴰ.head e)
  sort_by-Memᴰ (x ∷ xs) (Memᴰ.tail m) =
      insert_by-Memᴰ x (sort_by xs) (Memᴰ.tail (sort_by-Memᴰ xs m))

  length-insert_by : (x : A) (xs : List A) → length (insert_by x xs) ≡ suc (length xs)
  unfolding insert_by
  length-insert_by x [] = refl
  length-insert_by x (y ∷ ys) = ground (arith, length-insert_by x ys)

  pub length-sort_by : (xs : List A) → length (sort_by xs) ≡ length xs
  unfolding sort_by
  length-sort_by [] = refl
  length-sort_by (x ∷ xs) = omega (arith, length-insert_by x (sort_by xs), length-sort_by xs)

pub take_all {ℓ} : {A : Type ℓ} (n : ℕ) (xs : List A) → length xs ≤ n → take n xs ≡ xs
take_all zero [] h = refl
take_all (suc n) [] h = refl
take_all zero (x ∷ xs) h = absurd (ground arith)
take_all (suc n) (x ∷ xs) h = rw (take_all n xs (omega arith))

pub take-All {ℓ κ} :
    {A : Type ℓ} (P : A → Type κ) (n : ℕ) (xs : List A) → All P xs → All P (take n xs)
take-All P zero xs ps = tt
take-All P (suc n) [] ps = tt
take-All P (suc n) (x ∷ xs) (p, ps) = (p, take-All P n xs ps)
