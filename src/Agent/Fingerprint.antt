-- ===== src/Agent/Fingerprint.antt =====
-- apps/agent/src/fingerprint.ts: the identity of an incident, by the event that begins it.
--
-- RECOVERY_TYPE_MAP is a plain object, so a type that has the name of a member of Object.prototype
-- finds that member: a function, which JSON.stringify writes as null, or the prototype, written as {}.
pub mod Laws
use text.Mathlib.TextBridge.{of_list}
use pi_ops.Base.Text.{chars}
use pi_ops.Base.{
  String, str_eq, Bool, true, false, ◌&&◌, ◌||◌, Option, none, some, List, [], ◌∷◌, ◌++◌, map, any,
  if◌then◌else◌,
}
use pi_ops.Base.JsonText.{Element, plain_text, unwritable, empty_object, stringify}
use pi_ops.Protocol.{OpsEvent}
use pi_ops.Protocol.JsonValue.{Json, Fields, lookup}
use pi_ops.Agent.Events.{source_text}
use pi_ops.Agent.NotificationConfig.{
  CriticalOperation, NotificationPolicyConfig, service_notification_policy, critical_operation_for,
  until_char, either_text,
}

-- What RECOVERY_TYPE_MAP[type] is.
pub data Mapped : Type 0 where
  absent inherited prototype : Mapped
  mapped : String → Mapped

abbrev pub inherited_names : List String
inherited_names =
    "constructor" ∷ "hasOwnProperty" ∷ "isPrototypeOf" ∷ "propertyIsEnumerable" ∷ "toLocaleString"
    ∷ "toString" ∷ "valueOf" ∷ "__defineGetter__" ∷ "__defineSetter__" ∷ "__lookupGetter__"
    ∷ "__lookupSetter__" ∷ []

unfoldable pub recovery_type : String → Mapped
recovery_type type =
    if str_eq type "health.recovered"
    then mapped "health.failure"
    else if str_eq type "host.memory_recovered"
    then mapped "host.memory_pressure"
    else if str_eq type "host.disk_recovered"
    then mapped "host.disk_pressure"
    else if str_eq type "application.slow_sql_recovered"
    then mapped "application.slow_sql"
    else if str_eq type "__proto__"
    then prototype
    else if any (str_eq type) inherited_names
    then inherited
    else absent

-- RECOVERY_TYPE_MAP[event.type] !== undefined
abbrev pub is_mapped : Mapped → Bool
is_mapped absent = false
is_mapped _ = true

-- RECOVERY_TYPE_MAP[type] ?? type
abbrev pub canonical_type : (type : String) → Mapped → Element
canonical_type type absent = plain_text type
canonical_type type (mapped t) = plain_text t
canonical_type type inherited = unwritable
canonical_type type prototype = empty_object

abbrev pub is_type : String → Element → Bool
is_type t (plain_text s) = str_eq s t
is_type t _ = false

abbrev pub type_of : OpsEvent → Element
type_of event = canonical_type event.type (recovery_type event.type)

unfoldable pub canonical_source : OpsEvent → String
unfolding recovery_type
canonical_source event =
    if is_type "jvm.oom" (type_of event) || is_type "jvm.stack_overflow" (type_of event)
    then "application"
    else source_text event.source

abbrev pub non_empty : Option Json → Option String
non_empty (some (Json.text s)) = if str_eq s "" then none else some s
non_empty _ = none

abbrev pub field_of : String → Json → Option Json
field_of key (Json.object fields) = lookup key fields
field_of key _ = none

unfoldable pub string_attribute : OpsEvent → (key : String) → Option String
string_attribute event key = non_empty (field_of key event.attributes)

abbrev pub or_empty : Option String → String
or_empty none = ""
or_empty (some s) = s

pub data Version : Type 0 where
  legacy current : Version

abbrev pub is_current : Version → Bool
is_current legacy = false
is_current current = true

abbrev pub module_dimension : (code : String) → Option String → List String
module_dimension code none = code ∷ []
module_dimension code (some m) = code ∷ m ∷ []

abbrev pub unbound_dimensions :
    Version → (code : String) (module_ operation : Option String) → List String
unbound_dimensions current code module_ (some operation) =
    module_dimension code module_ ++ of_list (until_char 63 (chars operation)) ∷ []
unbound_dimensions _ code module_ _ = module_dimension code module_

abbrev pub bound_dimensions :
    Version
    → (code : String) (module_ : Option String) (operation : String) → Option CriticalOperation
    → List String
bound_dimensions version code module_ operation none =
    unbound_dimensions version code module_ (some operation)
bound_dimensions version code module_ operation (some rule) =
    code ∷ or_empty (either_text (either_text rule.operation rule.path) (some operation)) ∷ []

abbrev pub error_dimensions :
    Version
    → NotificationPolicyConfig
    → (service code : String) (module_ operation : Option String) → List String
error_dimensions current policy service code module_ (some operation) =
    bound_dimensions current code module_ operation
      (critical_operation_for (service_notification_policy policy service) operation)
error_dimensions version policy service code module_ operation =
    unbound_dimensions version code module_ operation

abbrev pub dimensions_of : Version → NotificationPolicyConfig → Element → OpsEvent → List String
dimensions_of version policy type event =
    if is_type "application.slow_sql" type
    then or_empty (
        either_text (string_attribute event "sqlFingerprint")
          (string_attribute event "statementId"))
      ∷ []
    else if is_type "business.error" type
    then error_dimensions version policy event.service
        (or_empty (
          either_text (string_attribute event "businessCode") (string_attribute event "errorCode")))
        (string_attribute event "module") (string_attribute event "operation")
    else if is_type "health.failure" type && is_current version
    then map (λ key. or_empty (string_attribute event key))
        ("target" ∷ "url" ∷ "method" ∷ "containerName" ∷ [])
    else []

unfoldable pub type_specific_dimensions :
    OpsEvent → Version → NotificationPolicyConfig → List String
unfolding recovery_type
type_specific_dimensions event version policy = dimensions_of version policy (type_of event) event

unfoldable pub compute_fingerprint : Version → NotificationPolicyConfig → OpsEvent → String
unfolding recovery_type
compute_fingerprint version policy event = stringify (
    plain_text (canonical_source event)
    ∷ plain_text event.node_id
    ∷ plain_text event.service
    ∷ type_of event
    ∷ map plain_text (type_specific_dimensions event version policy))
