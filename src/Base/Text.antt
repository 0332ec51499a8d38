-- ===== src/Base/Text.antt =====
-- The string functions of JavaScript that the source calls, over code points, and a matcher for
-- the one regular expression that decides something here.
use Prim.Native.String.{◌++◌ as text_append}
use Prim.Native.Char.{Char, code}
use mathlib.Core.Path.{◌≡◌, refl, ap}
use text.Mathlib.TextBridge.{of_list}
use Prim.Native.Nat.{ℕ}
use Prim.Native.String.{String}
use mathlib.Core.Bool.{Bool, true, false, not, ◌&&◌, ◌||◌}
use mathlib.Core.List.{List, [], ◌∷◌, ◌++◌}
use pi_ops.Base.Tests.{◌==◌, leb, if◌then◌else◌}
use pi_ops.Base.Lists.{any}

abbrev pub chars : String → List Char
chars String.[] = []
chars (String.◌∷◌ c s) = c ∷ chars s

pub chars-of_list : (cs : List Char) → chars (of_list cs) ≡ cs
chars-of_list [] = refl
chars-of_list (c ∷ cs) = ap (λ ds. c ∷ ds) (chars-of_list cs)

pub of_list-chars : (s : String) → of_list (chars s) ≡ s
of_list-chars String.[] = refl
of_list-chars (String.◌∷◌ c s) = ap (λ t. String.◌∷◌ c t) (of_list-chars s)

abbrev pub codes : String → List ℕ
codes String.[] = []
codes (String.◌∷◌ c s) = code c ∷ codes s

-- White space and line ends, as `trim` and `\s` take them.
unfoldable pub is_space : ℕ → Bool
is_space c =
    (leb 9 c && leb c 13)
    || c == 32
    || c == 0xA0
    || c == 0x1680
    || (leb 0x2000 c && leb c 0x200A)
    || c == 0x2028
    || c == 0x2029
    || c == 0x202F
    || c == 0x205F
    || c == 0x3000
    || c == 0xFEFF

-- `s.trim().length > 0`
unfoldable pub non_blank : String → Bool
unfolding is_space
non_blank s = any (λ c. not (is_space c)) (codes s)

abbrev skip_space : List Char → List Char
skip_space [] = []
skip_space (c ∷ cs) = if is_space (code c) then skip_space cs else c ∷ cs

abbrev reversed_onto : List Char → List Char → List Char
reversed_onto [] acc = acc
reversed_onto (c ∷ cs) acc = reversed_onto cs (c ∷ acc)

-- `s.trim()`
unfoldable pub trim : String → String
unfolding is_space
trim s =
    let kept = skip_space (chars s) in
    of_list (reversed_onto (skip_space (reversed_onto kept [])) [])

-- What a pattern leaves of a text: one rest for each way to match a prefix.
abbrev Pattern : Type 0
Pattern = List ℕ → List (List ℕ)

one : (ℕ → Bool) → Pattern
one p [] = []
one p (c ∷ s) = if p c then s ∷ [] else []

many : (ℕ → Bool) → Pattern
many p [] = [] ∷ []
many p (c ∷ s) = (c ∷ s) ∷ (if p c then many p s else [])

each_rest : Pattern → List (List ℕ) → List (List ℕ)
each_rest m [] = []
each_rest m (s ∷ ss) = m s ++ each_rest m ss

infixr 60 ◌andthen◌
◌andthen◌ : Pattern → Pattern → Pattern
unfolding each_rest
◌andthen◌ m n s = each_rest n (m s)

-- `\s*at\s+\S+\([^)\n]*\)`
stack_frame : Pattern
unfolding is_space one many ◌andthen◌
stack_frame =
    many is_space
    andthen one (λ c. c == b'a')
    andthen one (λ c. c == b't')
    andthen one is_space
    andthen many is_space
    andthen one (λ c. not (is_space c))
    andthen many (λ c. not (is_space c))
    andthen one (λ c. c == b'(')
    andthen many (λ c. not (c == b')') && not (c == 10))
    andthen one (λ c. c == b')')

matches : Pattern → List ℕ → Bool
matches m s = any (λ _. true) (m s)

after_line_end : Pattern → List ℕ → Bool
unfolding matches
after_line_end m [] = false
after_line_end m (c ∷ s) = (c == 10 && matches m s) || after_line_end m s

-- `/(?:^|\n)\s*at\s+\S+\([^)\n]*\)/.test(s)`
unfoldable pub has_stack_frame : String → Bool
unfolding stack_frame matches after_line_end
has_stack_frame s = matches stack_frame (codes s) || after_line_end stack_frame (codes s)

-- A template literal, from its parts.
unfoldable pub template : List String → String
template [] = ""
template (part ∷ parts) = text_append part (template parts)
