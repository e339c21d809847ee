-- ===== src/Types/Execution.antt =====
-- services/runservice/types/executortask.go, executor.go and runevent.go: what the scheduler hands to
-- an executor, what it reports back, and the events of a run.
use agola.Prelude.{ℕ, String, Bool, true, false, List, Option, Map}
use agola.Types.Meta.{ObjectMeta}
use agola.Types.State.{RunPhase, RunResult, ExecutorTaskPhase}

-- ExecutorTaskPhase.IsFinished
abbrev pub et_phase_is_finished : ExecutorTaskPhase → Bool
et_phase_is_finished ExecutorTaskPhase.not_started = false
et_phase_is_finished ExecutorTaskPhase.cancelled = true
et_phase_is_finished ExecutorTaskPhase.running = false
et_phase_is_finished ExecutorTaskPhase.stopped = true
et_phase_is_finished ExecutorTaskPhase.success = true
et_phase_is_finished ExecutorTaskPhase.failed = true

abbrev pub et_phase_is_running : ExecutorTaskPhase → Bool
et_phase_is_running ExecutorTaskPhase.running = true
et_phase_is_running _ = false

-- ExecutorTaskSpecData is not stored: it is generated when a task is sent.
pub record ExecutorTaskSpec : Type 0 where
  pub executor_id : String
  pub run_id : String
  pub run_task_id : String
  pub stop : Bool

pub record ExecutorTaskStepStatus : Type 0 where
  pub phase : ExecutorTaskPhase
  pub start_time : Option ℕ
  pub end_time : Option ℕ
  pub exit_status : Option ℕ

pub record ExecutorTaskStatus : Type 0 where
  pub id : String
  pub phase : ExecutorTaskPhase
  pub fail_error : String
  pub setup_step : ExecutorTaskStepStatus
  pub steps : List ExecutorTaskStepStatus
  pub start_time : Option ℕ
  pub end_time : Option ℕ

pub record ExecutorTask : Type 0 where
  pub meta : ObjectMeta
  pub open meta use *
  pub spec : ExecutorTaskSpec
  pub status : ExecutorTaskStatus

pub record Executor : Type 0 where
  pub meta : ObjectMeta
  pub open meta use *
  pub executor_id : String
  pub listen_url : String
  pub archs : List String
  pub labels : Map String
  pub allow_privileged_containers : Bool
  pub active_tasks_limit : ℕ
  pub active_tasks : ℕ
  pub dynamic : Bool
  pub executor_group : String
  pub siblings_executors : List String

pub record RunEvent : Type 0 where
  pub meta : ObjectMeta
  pub open meta use *
  pub sequence : ℕ
  pub run_id : String
  pub phase : RunPhase
  pub result : RunResult
