-- ===== src/Base/JsonText.antt =====
-- JSON.stringify on an array of texts, and that the text determines them.
use Prim.Native.Nat.{zero, suc, ℕ, ◌+◌, ◌*◌, ◌/◌, ◌%◌, ◌<◌, ◌-◌, suc}
use Prim.Native.Char.{Char, code}
use Prim.Native.String.{String}
use mathlib.Core.Path.{◌≡◌, refl, sym, ap, ◌∙◌}
use mathlib.Core.Logic.{◌≢◌}
use mathlib.Core.Bool.{Bool, true, ◌&&◌, ◌&&◌}
use mathlib.Core.Option.{Option, none, some}
use mathlib.Core.List.{List, [], ◌∷◌, ◌++◌, append_assoc}
use native.Mathlib.Omega.{arith}
use text.Mathlib.TextBridge.{of_list}
use pi_ops.Base.Text.{chars, chars-of_list, of_list-chars}
use text.Mathlib.TextEquality.{Char-path}
use pi_ops.Base.Tests.{ltb, ◌==◌, if◌then◌else◌}

hex : ℕ → Char
hex n =
    if n == 0
    then "0"
    else if n == 1
    then "1"
    else if n == 2
    then "2"
    else if n == 3
    then "3"
    else if n == 4
    then "4"
    else if n == 5
    then "5"
    else if n == 6
    then "6"
    else if n == 7
    then "7"
    else if n == 8
    then "8"
    else if n == 9
    then "9"
    else if n == 10
    then "a"
    else if n == 11
    then "b"
    else if n == 12
    then "c"
    else if n == 13
    then "d"
    else if n == 14
    then "e"
    else "f"

-- A character within quotes.
escape : Char → List Char
escape c =
    if code c == 34
    then "\\" ∷ "\"" ∷ []
    else if code c == 92
    then "\\" ∷ "\\" ∷ []
    else if code c == 8
    then "\\" ∷ "b" ∷ []
    else if code c == 9
    then "\\" ∷ "t" ∷ []
    else if code c == 10
    then "\\" ∷ "n" ∷ []
    else if code c == 12
    then "\\" ∷ "f" ∷ []
    else if code c == 13
    then "\\" ∷ "r" ∷ []
    else if ltb (code c) 32
    then "\\" ∷ "u" ∷ "0" ∷ "0" ∷ hex (code c / 16) ∷ hex (code c % 16) ∷ []
    else c ∷ []

body : List Char → List Char
body [] = []
body (c ∷ cs) = escape c ++ body cs

-- What an array of the source can hold: a text, or a value that `JSON.stringify` writes otherwise.
pub data Element : Type 0 where
  plain_text : String → Element
  unwritable : Element
  empty_object : Element

element : Element → List Char
element (plain_text s) = "\"" ∷ (body (chars s) ++ "\"" ∷ [])
element unwritable = "n" ∷ "u" ∷ "l" ∷ "l" ∷ []
element empty_object = "{" ∷ "}" ∷ []

following : List Element → List Char
following [] = "]" ∷ []
following (e ∷ es) = "," ∷ (element e ++ following es)

elements : List Element → List Char
elements [] = "]" ∷ []
elements (e ∷ es) = element e ++ following es

unfoldable pub stringify : List Element → String
unfolding elements following element body escape hex
stringify es = of_list ("[" ∷ elements es)

-- JSON.stringify on a text.
unfoldable pub quoted : String → String
unfolding element body escape hex
quoted s = of_list (element (plain_text s))

unhex : ℕ → ℕ
unhex x = if ltb x 58 then x - 48 else x - 87

-- A reader of one character within quotes.
read_hex : List Char → Option (ℕ × List Char)
read_hex (_ ∷ (_ ∷ (a ∷ (b ∷ r)))) = some (unhex (code a) * 16 + unhex (code b), r)
read_hex _ = none

read_escape : List Char → Option (ℕ × List Char)
read_escape [] = none
read_escape (x ∷ r) =
    if code x == 98
    then some (8, r)
    else if code x == 116
    then some (9, r)
    else if code x == 110
    then some (10, r)
    else if code x == 102
    then some (12, r)
    else if code x == 114
    then some (13, r)
    else if code x == 117
    then read_hex r
    else some (code x, r)

read : List Char → Option (ℕ × List Char)
unfolding read_escape
read [] = none
read (x ∷ r) =
    if code x == 92 then read_escape r else if code x == 34 then none else some (code x, r)

-- A test of every number under a bound.
holds_under : (ℕ → Bool) → ℕ → Bool
holds_under test zero = true
holds_under test (suc bound) = holds_under test bound && test bound

test_of_holds_under :
    (test : ℕ → Bool) (bound k : ℕ) → k < bound → holds_under test bound ≡ true → test k ≡ true
unfolding holds_under
test_of_holds_under test zero k small ok = elim small [ ]
test_of_holds_under test (suc bound) k small ok = ground (arith, test_of_holds_under test bound k)

abbrev reads_back : ℕ → Bool
reads_back n = unhex (code (hex n)) == n

digits : holds_under reads_back 16 ≡ true
unfolding holds_under unhex hex
digits = refl

unhex-hex : (n : ℕ) → n < 16 → unhex (code (hex n)) ≡ n
unhex-hex n h = let e = test_of_holds_under reads_back 16 n h digits in ground arith

read-escape : (c : Char) (r : List Char) → read (escape c ++ r) ≡ some (code c, r)
unfolding read read_escape read_hex escape
read-escape c r = ground (arith, unhex-hex (code c / 16), unhex-hex (code c % 16))

same_read : {x y : ℕ × List Char} → some x ≡ some y → (x.0 ≡ y.0) × (x.1 ≡ y.1)
same_read e = (cc, cc)

-- Two characters within quotes, and what follows them.
escape_inj : (c d : Char) (r s : List Char) → escape c ++ r ≡ escape d ++ s → (c ≡ d) × (r ≡ s)
escape_inj c d r s e =
    let both = sym (read-escape c r) ∙ ap read e ∙ read-escape d s in
    let (h, t) = same_read {x = (code c, r)} {y = (code d, s)} both in (Char-path c d h, t)

quote_end : (c : Char) (r s : List Char) → escape c ++ r ≢ "\"" ∷ s
unfolding read
quote_end c r s e = let both = sym (read-escape c r) ∙ ap read e in cc

body_inj : (cs ds r s : List Char) → body cs ++ "\"" ∷ r ≡ body ds ++ "\"" ∷ s → (cs ≡ ds) × (r ≡ s)
unfolding body
body_inj [] [] r s e = (refl, cc)
body_inj [] (d ∷ ds) r s e =
    absurd
      (quote_end d (body ds ++ "\"" ∷ s) r (sym (e ∙ append_assoc (escape d) (body ds) ("\"" ∷ s))))
body_inj (c ∷ cs) [] r s e =
    absurd
      (quote_end c (body cs ++ "\"" ∷ r) s (sym (append_assoc (escape c) (body cs) ("\"" ∷ r)) ∙ e))
body_inj (c ∷ cs) (d ∷ ds) r s e =
    let (h, t) = escape_inj c d (body cs ++ "\"" ∷ r) (body ds ++ "\"" ∷ s) (
      sym (append_assoc (escape c) (body cs) ("\"" ∷ r))
      ∙ e
      ∙ append_assoc (escape d) (body ds) ("\"" ∷ s)) in
    let (k, l) = body_inj cs ds r s t in (cc, l)

chars_inj : (a b : String) → chars a ≡ chars b → a ≡ b
chars_inj a b e = sym (of_list-chars a) ∙ ap of_list e ∙ of_list-chars b

abbrev head_code : List Char → ℕ
head_code [] = 0
head_code (c ∷ cs) = code c

element_inj :
    (a b : Element) (r s : List Char) → element a ++ r ≡ element b ++ s → (a ≡ b) × (r ≡ s)
unfolding element
element_inj (plain_text a) (plain_text b) r s e =
    let stripped : (body (chars a) ++ "\"" ∷ []) ++ r ≡ (body (chars b) ++ "\"" ∷ []) ++ s = cc in
    let tails =
      sym (append_assoc (body (chars a)) ("\"" ∷ []) r)
      ∙ stripped
      ∙ append_assoc (body (chars b)) ("\"" ∷ []) s in
    let (h, t) = body_inj (chars a) (chars b) r s tails in (ap plain_text (chars_inj a b h), t)
element_inj unwritable unwritable r s e = (refl, cc)
element_inj empty_object empty_object r s e = (refl, cc)
element_inj (plain_text a) unwritable r s e = let h = ap head_code e in absurd (omega arith)
element_inj (plain_text a) empty_object r s e = let h = ap head_code e in absurd (omega arith)
element_inj unwritable (plain_text b) r s e = let h = ap head_code e in absurd (omega arith)
element_inj unwritable empty_object r s e = let h = ap head_code e in absurd (omega arith)
element_inj empty_object (plain_text b) r s e = let h = ap head_code e in absurd (omega arith)
element_inj empty_object unwritable r s e = let h = ap head_code e in absurd (omega arith)

following_inj : (as_ bs : List Element) → following as_ ≡ following bs → as_ ≡ bs
unfolding following
following_inj [] [] e = refl
following_inj [] (b ∷ bs) e = cc
following_inj (a ∷ as_) [] e = cc
following_inj (a ∷ as_) (b ∷ bs) e =
    let tails : element a ++ following as_ ≡ element b ++ following bs = cc in
    let (h, t) = element_inj a b (following as_) (following bs) tails in
    let rest = following_inj as_ bs t in cc

-- The text of an array determines its elements.
pub stringify_inj :
    (a b : Element) (xs ys : List Element)
    → stringify (a ∷ xs) ≡ stringify (b ∷ ys)
    → (a ∷ xs) ≡ (b ∷ ys)
unfolding stringify elements
stringify_inj a b xs ys e =
    let lists : "[" ∷ (element a ++ following xs) ≡ "[" ∷ (element b ++ following ys) =
      sym (chars-of_list _) ∙ ap chars e ∙ chars-of_list _ in
    let (h, t) = element_inj a b (following xs) (following ys) (cc) in
    let rest = following_inj xs ys t in cc
