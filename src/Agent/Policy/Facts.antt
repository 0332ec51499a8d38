-- ===== src/Agent/Policy/Facts.antt =====
-- The normalized facts of apps/agent/src/notification-policy.ts, and the decision's data.
use pi_ops.Base.{ℕ, String, Bool, Option, List}

pub data SourceKind : Type 0 where
  event evidence : SourceKind

pub record SourceRef : Type 0 where
  pub kind : SourceKind
  pub id : String

pub data CountFact : Type 0 where
  known : (value : ℕ) → CountFact
  unknown : CountFact

pub data MissingFact : Type 0 where
  failure_count request_count persistence impact health_binding : MissingFact
  critical_task_binding critical_task_result : MissingFact
  unsupported_source invalid_event operation_binding : MissingFact

pub data Persistence : Type 0 where
  brief sustained unknown_persistence : Persistence

pub data Impact : Type 0 where
  no_impact unknown_impact : Impact

pub data ExitCode : Type 0 where
  exited : (value : ℕ) → ExitCode
  absent : ExitCode

-- The object, a health target or a task's object key, with the rule that binds it.
pub data Binding : Type 0 where
  bound : (object rule_id : String) → Binding
  missing : Binding

pub data HealthTransition : Type 0 where
  failure recovered : HealthTransition
  status : (code : ℕ) → HealthTransition

pub data TaskResult : Type 0 where
  failed succeeded unknown_result : TaskResult

pub data NotificationObservation : Type 0 where
  expected_rejection short_peak :
      (failures requests : CountFact) (source : SourceRef) → NotificationObservation
  ordinary_error :
      (persistence : Persistence) (impact : Impact) (failures requests log_lines : CountFact)
      (source : SourceRef)
      → NotificationObservation
  jvm_exception :
      (exception_class exception_message stack_trace : String) (source : SourceRef)
      → NotificationObservation
  docker :
      (docker_action : String) (oom_killed : Bool) (exit_code : ExitCode) (source : SourceRef)
      → NotificationObservation
  health :
      (binding : Binding) (transition : HealthTransition) (source : SourceRef)
      → NotificationObservation
  critical_operation :
      (rule_id operation workflow : String) (source : SourceRef) → NotificationObservation
  critical_task :
      (result : TaskResult) (binding : Binding) (source : SourceRef) → NotificationObservation

pub data FirstNotificationReason : Type 0 where
  jvm_oome jvm_stack_overflow critical_operation_failed docker_oom : FirstNotificationReason
  health_unavailable critical_task_impact sustained_impact_unknown : FirstNotificationReason
  expected_rejection_recorded short_peak_recorded : FirstNotificationReason
  ordinary_without_major_fact exception_not_oome : FirstNotificationReason
  container_exit_without_oom health_binding_missing : FirstNotificationReason
  health_not_unavailable critical_task_binding_missing : FirstNotificationReason
  critical_task_result_unknown critical_task_succeeded no_observation : FirstNotificationReason

pub data Action : Type 0 where
  record_only analyze alert : Action

pub record FirstNotificationDecision : Type 0 where
  pub action : Action
  pub reason : FirstNotificationReason
  pub gaps : List MissingFact
  pub failures : CountFact
  pub requests : CountFact
  pub sources : List SourceRef

pub record Gap : Type 0 where
  pub event_id : String
  pub reason : MissingFact

pub record FirstNotificationFacts : Type 0 where
  pub observations : List NotificationObservation
  pub gaps : List Gap
  pub unknown_impact_due_at : Option String
