-- ===== src/Agent/Policy/Major.antt =====
-- The facts that call for an alert, and the tests of the source for them.
use pi_ops.Base.{String, Bool, true, ◌≡◌, ◌⊎◌, arith, eq_iff}
use pi_ops.Base.Text.{non_blank, has_stack_frame}
use pi_ops.Agent.Policy.{
  NotificationObservation, jvm_exception, docker, health, critical_operation, critical_task,
  SourceRef, bound, failure, failed, recognized_oome, recognized_overflow, is_critical_operation,
  docker_oom_killed, bound_health_failure, bound_critical_task,
}

-- The facts that call for an alert, by what they say: an OutOfMemoryError with a message or a
-- stack, a StackOverflowError with a stack frame, a failed critical operation, a container that
-- was killed for memory, and a failed health check or critical task that a rule binds.
pub data MajorFact : NotificationObservation → Type 0 where
  out_of_memory :
      {clazz message stack : String} {source : SourceRef}
      → clazz ≡ "java.lang.OutOfMemoryError"
      → (non_blank message ≡ true) ⊎ (non_blank stack ≡ true)
      → MajorFact (jvm_exception clazz message stack source)
  stack_overflow :
      {clazz message stack : String} {source : SourceRef}
      → clazz ≡ "java.lang.StackOverflowError"
      → has_stack_frame stack ≡ true
      → MajorFact (jvm_exception clazz message stack source)
  operation_failed :
      {rule_id operation workflow : String} {source : SourceRef}
      → MajorFact (critical_operation rule_id operation workflow source)
  killed_for_memory :
      {action : String} {oom_killed : Bool} {exit : _} {source : SourceRef}
      → (action ≡ "oom") ⊎ (oom_killed ≡ true)
      → MajorFact (docker action oom_killed exit source)
  target_down :
      {target rule_id : String} {source : SourceRef}
      → non_blank target ≡ true
      → non_blank rule_id ≡ true
      → MajorFact (health (bound target rule_id) failure source)
  task_failed :
      {object rule_id : String} {source : SourceRef}
      → non_blank object ≡ true
      → non_blank rule_id ≡ true
      → MajorFact (critical_task failed (bound object rule_id) source)

pub oome-MajorFact : (o : NotificationObservation) → recognized_oome o ≡ true → MajorFact o
unfolding recognized_oome
oome-MajorFact (jvm_exception clazz message stack source) h =
    out_of_memory ((eq_iff clazz _).0 (ground arith)) (ground arith)
oome-MajorFact _ h = cc

pub overflow-MajorFact : (o : NotificationObservation) → recognized_overflow o ≡ true → MajorFact o
unfolding recognized_overflow
overflow-MajorFact (jvm_exception clazz message stack source) h =
    stack_overflow ((eq_iff clazz _).0 (ground arith)) (ground arith)
overflow-MajorFact _ h = cc

pub operation-MajorFact :
    (o : NotificationObservation) → is_critical_operation o ≡ true → MajorFact o
unfolding is_critical_operation
operation-MajorFact (critical_operation rule_id operation workflow source) h = operation_failed
operation-MajorFact _ h = cc

pub docker-MajorFact : (o : NotificationObservation) → docker_oom_killed o ≡ true → MajorFact o
unfolding docker_oom_killed
docker-MajorFact (docker action oom_killed exit source) h =
    killed_for_memory (ground (arith, eq_iff action "oom"))
docker-MajorFact _ h = cc

pub health-MajorFact : (o : NotificationObservation) → bound_health_failure o ≡ true → MajorFact o
unfolding bound_health_failure
health-MajorFact (health (bound target rule_id) failure source) h =
    target_down (ground arith) (ground arith)
health-MajorFact _ h = cc

pub task-MajorFact : (o : NotificationObservation) → bound_critical_task o ≡ true → MajorFact o
unfolding bound_critical_task
task-MajorFact (critical_task failed (bound object rule_id) source) h =
    task_failed (ground arith) (ground arith)
task-MajorFact _ h = cc
