-- ===== src/Agent/NotificationConfig.antt =====
-- apps/agent/src/notification-config.ts: the policy of each service, and the critical operation that
-- an operation of a service is.
--
-- `config.services` is a list of its entries. A service that has the name of a member of
-- Object.prototype is not modelled.
use Prim.Native.Char.{Char, code}
use text.Mathlib.TextBridge.{of_list}
use pi_ops.Base.Text.{chars}
use pi_ops.Base.{
  ℕ, String, str_eq, Bool, true, false, not, ◌&&◌, ◌||◌, ◌==◌, leb, Option, none, some, List, [],
  ◌∷◌, any, find, if◌then◌else◌,
}
use pi_ops.Base.Order.{sort_by}
use pi_ops.Base.Text.{is_space}

pub record CriticalOperation : Type 0 where
  pub rule_id : String
  pub path : Option String
  pub operation : Option String
  pub workflow : String
  pub owner : Option String

pub record HealthRule : Type 0 where
  pub rule_id : String
  pub rule_version : ℕ
  pub node_id : String
  pub service : String
  pub target : String
  pub url : String
  pub method : String
  pub failure_samples : ℕ
  pub interval_ms : ℕ
  pub container : Option String

pub record ServiceNotificationPolicy : Type 0 where
  pub unknown_impact_wait_ms : ℕ
  pub observation_max_gap_ms : ℕ
  pub critical_operations : List CriticalOperation

pub record NotificationPolicyConfig : Type 0 where
  pub default_unknown_impact_wait_ms : ℕ
  pub default_observation_max_gap_ms : ℕ
  pub services : List (String × ServiceNotificationPolicy)
  pub health_rules : List HealthRule

abbrev pub policy_or :
    ServiceNotificationPolicy
    → Option (String × ServiceNotificationPolicy)
    → ServiceNotificationPolicy
policy_or p none = p
policy_or p (some (_, q)) = q

unfoldable pub service_notification_policy :
    NotificationPolicyConfig → (service : String) → ServiceNotificationPolicy
service_notification_policy config service =
    policy_or
      (record {
        unknown_impact_wait_ms = config.default_unknown_impact_wait_ms;
        observation_max_gap_ms = config.default_observation_max_gap_ms;
        critical_operations = [];
      })
      (find (λ entry. str_eq entry.0 service) config.services)

-- `text.split(separator)[0]`.
abbrev pub until_char : ℕ → List Char → List Char
until_char separator [] = []
until_char separator (c ∷ cs) =
    let rest = until_char separator cs in if code c == separator then [] else c ∷ rest

abbrev pub onto_first : Char → List (List Char) → List (List Char)
onto_first c [] = (c ∷ []) ∷ []
onto_first c (part ∷ parts) = (c ∷ part) ∷ parts

-- `text.split(separator)`.
abbrev pub split_on : ℕ → List Char → List (List Char)
split_on separator [] = [] ∷ []
split_on separator (c ∷ cs) =
    let rest = split_on separator cs in if code c == separator then [] ∷ rest else onto_first c rest

abbrev pub is_upper : ℕ → Bool
is_upper c = leb 65 c && leb c 90

abbrev pub is_letter : ℕ → Bool
is_letter c = is_upper c || (leb 97 c && leb c 122)

abbrev pub skip_spaces : List Char → List Char
skip_spaces [] = []
skip_spaces (c ∷ cs) = let rest = skip_spaces cs in if is_space (code c) then rest else c ∷ cs

-- What follows `[A-Z]*\s+`, or none.
abbrev pub after_word : List Char → Option (List Char)
after_word [] = none
after_word (c ∷ cs) =
    let rest = after_word cs in
    if is_upper (code c) then rest else if is_space (code c) then some (skip_spaces cs) else none

abbrev pub text_or : List Char → Option (List Char) → List Char
text_or cs none = cs
text_or cs (some ds) = ds

abbrev pub begins_upper : List Char → Bool
begins_upper [] = false
begins_upper (c ∷ _) = is_upper (code c)

-- `text.replace(/^[A-Z]+\s+/, '')`.
unfoldable pub without_method : List Char → List Char
unfolding is_space
without_method cs = if begins_upper cs then text_or cs (after_word cs) else cs

abbrev pub letters_then_brace : List Char → Bool
letters_then_brace [] = false
letters_then_brace (c ∷ []) = code c == 125
letters_then_brace (c ∷ (d ∷ cs)) = is_letter (code c) && letters_then_brace (d ∷ cs)

-- `/^\{[A-Za-z]+\}$/.test(part)`.
abbrev pub is_placeholder : List Char → Bool
is_placeholder (b ∷ (c ∷ cs)) = code b == 123 && is_letter (code c) && letters_then_brace cs
is_placeholder _ = false

abbrev pub is_blank : List Char → Bool
is_blank [] = true
is_blank (_ ∷ _) = false

abbrev pub parts_match : List (List Char) → List (List Char) → Bool
parts_match [] [] = true
parts_match (p ∷ ps) (q ∷ qs) =
    (if is_placeholder p then not (is_blank q) else str_eq (of_list p) (of_list q))
    && parts_match ps qs
parts_match _ _ = false

abbrev pub text_of : Option String → List Char
text_of none = []
text_of (some s) = chars s

abbrev pub either_text : Option String → Option String → Option String
either_text (some a) _ = some a
either_text none b = b

abbrev pub has_brace : CriticalOperation → Bool
has_brace rule = any (λ c. code c == 123) (text_of (either_text rule.operation rule.path))

abbrev pub no_later : CriticalOperation → CriticalOperation → Bool
no_later a b = not (has_brace a) || has_brace b

abbrev pub rule_matches : (clean path : List Char) → CriticalOperation → Bool
rule_matches clean path rule =
    let expected = text_of (either_text rule.operation rule.path) in
    let actual = if is_blank (text_of rule.operation) then path else clean in
    not (is_blank expected) && parts_match (split_on 47 expected) (split_on 47 actual)

-- Rules with no placeholder first, in the order of the policy.
unfoldable pub critical_operation_for :
    ServiceNotificationPolicy → (operation : String) → Option CriticalOperation
unfolding without_method
critical_operation_for policy operation =
    let clean = until_char 63 (chars operation) in
    find (rule_matches clean (without_method clean)) (sort_by no_later policy.critical_operations)
