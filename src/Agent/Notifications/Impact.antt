-- ===== src/Agent/Notifications/Impact.antt =====
-- apps/agent/src/notification-decision.ts: the keys of impacts and repairs that notifications have told
-- of, and the labels of impacts.
use pi_ops.Base.{
  ℕ, String, str_eq, Bool, true, false, ◌&&◌, ◌||◌, Option, none, some, List, [], ◌∷◌, ◌++◌, map,
  any, all, filter, if◌then◌else◌, ◌==◌, drop,
}
use Prim.Native.String.{◌++◌ as text_append}
use pi_ops.Base.Text.{chars, trim, template, chars}
use pi_ops.Base.Order.{units_leb, sort_by}
use pi_ops.Base.JsonText.{quoted}
use pi_ops.Protocol.Investigation.{
  InvestigationAction, InvestigationDiagnosis, ActionPurpose, repair,
}
use Prim.Native.Char.{Char, code}
use text.Mathlib.TextBridge.{of_list}
use pi_ops.Agent.Policy.{
  FirstNotificationFacts, NotificationObservation, critical_operation, health, bound, jvm_exception,
  docker,
}
use pi_ops.Agent.NotificationPayload.{is_fatal_class}

pub record InvestigationReport : Type 0 where
  pub hypothesis : String
  pub confidence : String
  pub recommendation : String
  pub diagnosis : Option InvestigationDiagnosis

unfoldable pub impact_key : NotificationObservation → List String
impact_key (critical_operation rule_id operation workflow source) =
    text_append "operation:" rule_id ∷ []
impact_key (health (bound target rule_id) transition source) = text_append "health:" rule_id ∷ []
impact_key (jvm_exception clazz m stack source) =
    if is_fatal_class clazz then text_append "exception:" clazz ∷ [] else []
impact_key (docker action oom_killed exit_code source) =
    if oom_killed || str_eq action "oom" then "docker:oom" ∷ [] else []
impact_key _ = []

abbrev flat_map {ℓ κ} : {A : Type ℓ} {B : Type κ} → (A → List B) → List A → List B
flat_map f [] = []
flat_map f (x ∷ xs) = f x ++ flat_map f xs

unfoldable pub impact_keys : FirstNotificationFacts → List String
unfolding impact_key
impact_keys facts = flat_map impact_key facts.observations

-- `keys.includes(key)`
abbrev pub includes : List String → String → Bool
includes keys key = any (λ k. str_eq k key) keys

-- `[...new Set(keys)]`, `seen` being what the set holds.
abbrev pub unique_keys : (seen : List String) → List String → List String
unique_keys seen [] = []
unique_keys seen (k ∷ ks) =
    let rest = unique_keys (if includes seen k then seen else k ∷ seen) ks in
    if includes seen k then rest else k ∷ rest

abbrev joined : (separator : String) → List String → List String
joined separator [] = []
joined separator (x ∷ []) = x ∷ []
joined separator (x ∷ (y ∷ ys)) = x ∷ separator ∷ joined separator (y ∷ ys)

abbrev pub is_repair : ActionPurpose → Bool
is_repair repair = true
is_repair _ = false

-- A repair that rests on evidence, all of it collected.
unfoldable pub is_grounded_repair : (evidence_ids : List String) → InvestigationAction → Bool
is_grounded_repair evidence_ids a =
    is_repair a.purpose
    && any (λ _. true) a.evidence_ids
    && all (includes evidence_ids) a.evidence_ids

unfoldable pub action_key : InvestigationAction → String
action_key a = template (
    "["
    ∷ quoted (trim a.target)
    ∷ ",["
    ∷ (joined "," (map quoted (sort_by units_leb (map trim a.preconditions)))
        ++ "],"
          ∷ quoted (trim a.operation)
          ∷ ","
          ∷ quoted (trim a.expected_result)
          ∷ ","
          ∷ quoted (trim a.risk)
          ∷ ","
          ∷ (if a.requires_approval then "true" else "false")
          ∷ "]"
          ∷ []))

abbrev actions_of : Option InvestigationDiagnosis → List InvestigationAction
actions_of none = []
actions_of (some d) = d.actions

unfoldable pub repair_keys : (evidence_ids : List String) → InvestigationReport → List String
repair_keys evidence_ids report =
    map action_key (filter (is_grounded_repair evidence_ids) (actions_of report.diagnosis))

abbrev starts_with : List Char → List Char → Bool
starts_with [] cs = true
starts_with (p ∷ ps) [] = false
starts_with (p ∷ ps) (c ∷ cs) = let rest = starts_with ps cs in code p == code c && rest

abbrev sliced : ℕ → String → String
sliced n s = of_list (drop n (chars s))

unfoldable pub impact_label : (key : String) → String
impact_label key =
    if str_eq key "docker:oom"
    then "容器确认遭遇 OOM"
    else if starts_with (chars "health:") (chars key)
    then template ("健康目标不可用（规则 " ∷ sliced 7 key ∷ "）" ∷ [])
    else if starts_with (chars "operation:") (chars key)
    then template ("关键接口失败（规则 " ∷ sliced 10 key ∷ "）" ∷ [])
    else template ("JVM 错误 " ∷ sliced 10 key ∷ [])

abbrev pub impact_summary_of : (added_impacts : List String) → Option String
impact_summary_of [] = none
impact_summary_of (key ∷ keys) =
    some (template ("新增影响事实：" ∷ (joined "；" (map impact_label (key ∷ keys)) ++ "。" ∷ [])))
