-- ===== src/Protocol/JsonValue.antt =====
-- JSON values as the agent compares them: an object's keys come in any order.
use pi_ops.Base.{
  and_intro, and_left, and_right, subst, ℕ, suc, String, str_eq, eq_iff, eq_refl, Bool, true, false,
  not, ◌&&◌, ◌==◌, Option, none, some, ◌≡◌, refl, sym, arith, if◌then◌else◌, Bool-cases, inl, inr,
}

-- A number is its JSON text, which is one for each number.
mutual
  pub data Json : Type 0 where
    null : Json
    bool : Bool → Json
    number text : String → Json
    array : Items → Json
    object : Fields → Json

  pub data Items : Type 0 where
    no_items : Items
    item : Json → Items → Items

  pub data Fields : Type 0 where
    no_fields : Fields
    field : String → Json → Fields → Fields

abbrev field_count : Fields → ℕ
field_count no_fields = 0
field_count (field k v f) = suc (field_count f)

unfoldable pub lookup : String → Fields → Option Json
lookup k no_fields = none
lookup k (field l v f) = let rest = lookup k f in if str_eq k l then some v else rest

abbrev bool_equal : Bool → Bool → Bool
bool_equal true b = b
bool_equal false b = not b

abbrev holds_of : Option Json → (Json → Bool) → Bool
holds_of none p = false
holds_of (some v) p = p v

abbrev is_none : Option Json → Bool
is_none none = true
is_none (some v) = false

-- `isDeepStrictEqual` on values that JSON.parse returns.
unfoldable mutual
  unfolding lookup

  pub deep_equal : Json → Json → Bool
  deep_equal null null = true
  deep_equal (bool a) (bool b) = bool_equal a b
  deep_equal (number a) (number b) = str_eq a b
  deep_equal (text a) (text b) = str_eq a b
  deep_equal (array a) (array b) = items_equal a b
  deep_equal (object a) (object b) = field_count a == field_count b && fields_within a b
  deep_equal _ _ = false

  items_equal : Items → Items → Bool
  items_equal no_items no_items = true
  items_equal (item v vs) (item w ws) = deep_equal v w && items_equal vs ws
  items_equal _ _ = false

  -- Every field of the first object stands in the second.
  fields_within : Fields → Fields → Bool
  fields_within no_fields g = true
  fields_within (field k v f) g = holds_of (lookup k g) (λ w. deep_equal v w) && fields_within f g

-- No object has a key twice.
unfoldable mutual
  unfolding lookup

  pub plain : Json → Bool
  plain (array a) = plain_items a
  plain (object a) = plain_fields a
  plain _ = true

  plain_items : Items → Bool
  plain_items no_items = true
  plain_items (item v vs) = plain v && plain_items vs

  plain_fields : Fields → Bool
  plain_fields no_fields = true
  plain_fields (field k v f) = is_none (lookup k f) && (plain v && plain_fields f)

-- What one object's keys lead to, they lead to in the other.
abbrev Extends : Fields → Fields → Type 0
Extends f g = (k : String) (v : Json) → lookup k f ≡ some v → lookup k g ≡ some v

lookup-field : (k : String) (v : Json) (f : Fields) → lookup k (field k v f) ≡ some v
unfolding lookup
lookup-field k v f = ground (arith, eq_refl k)

Extends-tail :
    (k : String) (v : Json) (f g : Fields)
    → lookup k f ≡ none
    → Extends (field k v f) g
    → Extends f g
unfolding lookup
Extends-tail k v f g fresh ext l w found = elim (Bool-cases (str_eq l k)) [
  | inl same ↦ let e = (eq_iff l k).0 same in absurd (cc (e, fresh, found))
  | inr other ↦ ext l w (ground arith)
]

is_none_lem : (o : Option Json) → is_none o ≡ true → o ≡ none
is_none_lem none h = refl
is_none_lem (some v) h = cc

same_number : (n : ℕ) → (n == n) ≡ true
same_number n = ground arith

mutual
  unfolding deep_equal items_equal fields_within plain plain_items plain_fields

  pub deep_equal_refl : (v : Json) → plain v ≡ true → deep_equal v v ≡ true
  deep_equal_refl null h = refl
  deep_equal_refl (bool true) h = refl
  deep_equal_refl (bool false) h = refl
  deep_equal_refl (number a) h = eq_refl a
  deep_equal_refl (text a) h = eq_refl a
  deep_equal_refl (array a) h = items_equal_refl a h
  deep_equal_refl (object a) h =
      and_intro {a = field_count a == field_count a} (same_number (field_count a))
        (fields_within-Extends a a h (λ k v e. e))

  items_equal_refl : (a : Items) → plain_items a ≡ true → items_equal a a ≡ true
  items_equal_refl no_items h = refl
  items_equal_refl (item v vs) h =
      and_intro {a = deep_equal v v} (deep_equal_refl v (and_left (plain v) (plain_items vs) h))
        (items_equal_refl vs (and_right (plain v) (plain_items vs) h))

  fields_within-Extends :
      (f g : Fields) → plain_fields f ≡ true → Extends f g → fields_within f g ≡ true
  fields_within-Extends no_fields g h ext = refl
  fields_within-Extends (field k v f) g h ext =
      let rest = and_right (is_none (lookup k f)) (plain v && plain_fields f) h in
      let fresh = is_none_lem (lookup k f) (and_left _ (plain v && plain_fields f) h) in
      let here : holds_of (lookup k g) (λ w. deep_equal v w) ≡ true =
        subst (λ o. holds_of o (λ w. deep_equal v w) ≡ true) (sym (ext k v (lookup-field k v f)))
          (deep_equal_refl v (and_left (plain v) (plain_fields f) rest)) in
      and_intro here (
        fields_within-Extends f g (and_right (plain v) (plain_fields f) rest)
          (Extends-tail k v f g fresh ext))
