-- ===== src/Types/State.antt =====
-- services/runservice/types/run.go: the state of a run and of its tasks.
use agola.Prelude.{
  ℕ, String, Bool, true, false, ◌&&◌, List, [], ◌∷◌, Option, none, some, Map, values, all, filter,
  map, if◌then◌else◌,
}
use agola.Types.Meta.{ObjectMeta, new_meta}

pub data RunPhase : Type 0 where
  setup_error queued cancelled running finished : RunPhase

pub data RunResult : Type 0 where
  unknown stopped success failed : RunResult

pub data RunTaskStatus : Type 0 where
  not_started skipped cancelled running stopped success failed : RunTaskStatus

pub data RunTaskFetchPhase : Type 0 where
  not_started finished : RunTaskFetchPhase

pub data ExecutorTaskPhase : Type 0 where
  not_started cancelled running stopped success failed : ExecutorTaskPhase

-- RunPhase.IsFinished
abbrev pub phase_is_finished : RunPhase → Bool
phase_is_finished RunPhase.setup_error = true
phase_is_finished RunPhase.queued = false
phase_is_finished RunPhase.cancelled = true
phase_is_finished RunPhase.running = false
phase_is_finished RunPhase.finished = true

abbrev pub phase_is_running : RunPhase → Bool
phase_is_running RunPhase.running = true
phase_is_running _ = false

abbrev pub phase_is_queued : RunPhase → Bool
phase_is_queued RunPhase.queued = true
phase_is_queued _ = false

abbrev pub phase_is_setup_error : RunPhase → Bool
phase_is_setup_error RunPhase.setup_error = true
phase_is_setup_error _ = false

-- RunResult.IsSet
abbrev pub is_set : RunResult → Bool
is_set RunResult.unknown = false
is_set RunResult.stopped = true
is_set RunResult.success = true
is_set RunResult.failed = true

abbrev pub result_is_success : RunResult → Bool
result_is_success RunResult.success = true
result_is_success _ = false

-- RunTaskStatus.IsFinished
abbrev pub status_is_finished : RunTaskStatus → Bool
status_is_finished RunTaskStatus.not_started = false
status_is_finished RunTaskStatus.skipped = true
status_is_finished RunTaskStatus.cancelled = true
status_is_finished RunTaskStatus.running = false
status_is_finished RunTaskStatus.stopped = true
status_is_finished RunTaskStatus.success = true
status_is_finished RunTaskStatus.failed = true

abbrev pub is_not_started : RunTaskStatus → Bool
is_not_started RunTaskStatus.not_started = true
is_not_started _ = false

abbrev pub is_success : RunTaskStatus → Bool
is_success RunTaskStatus.success = true
is_success _ = false

abbrev pub is_failed : RunTaskStatus → Bool
is_failed RunTaskStatus.failed = true
is_failed _ = false

abbrev pub is_skipped : RunTaskStatus → Bool
is_skipped RunTaskStatus.skipped = true
is_skipped _ = false

-- `p == RunTaskFetchPhaseFinished`
abbrev pub is_fetched : RunTaskFetchPhase → Bool
is_fetched RunTaskFetchPhase.finished = true
is_fetched RunTaskFetchPhase.not_started = false

pub record RunTaskStep : Type 0 where
  pub phase : ExecutorTaskPhase
  pub log_phase : RunTaskFetchPhase
  pub exit_status : Option ℕ
  pub start_time : Option ℕ
  pub end_time : Option ℕ

pub record RunTask : Type 0 where
  pub id : String
  pub status : RunTaskStatus
  pub annotations : Map String
  pub skip : Bool
  pub waiting_approval : Bool
  pub approved : Bool
  pub setup_step : RunTaskStep
  pub steps : List RunTaskStep
  pub workspace_archives : List ℕ
  pub workspace_archives_phase : List RunTaskFetchPhase
  pub start_time : Option ℕ
  pub end_time : Option ℕ

pub record Run : Type 0 where
  pub meta : ObjectMeta
  pub open meta use *
  pub sequence : ℕ
  pub name : String
  pub run_config_id : String
  pub counter : ℕ
  pub group : String
  pub annotations : Map String
  pub phase : RunPhase
  pub result : RunResult
  pub stop : Bool
  pub tasks : Map RunTask
  pub enqueue_time : Option ℕ
  pub start_time : Option ℕ
  pub end_time : Option ℕ
  pub archived : Bool

-- The loops return at the first phase that is not finished.
unfoldable pub logs_fetch_finished : RunTask → Bool
logs_fetch_finished rt =
    is_fetched rt.setup_step.log_phase && all (λ s. is_fetched s.log_phase) rt.steps

unfoldable pub archives_fetch_finished : RunTask → Bool
archives_fetch_finished rt = all is_fetched rt.workspace_archives_phase

-- `now` is the value of time.Now().
unfoldable pub change_phase : ℕ → RunPhase → Run → Run
change_phase now RunPhase.running r = record r { phase = RunPhase.running; start_time = some now }
change_phase now RunPhase.setup_error r = record r {
  phase = RunPhase.setup_error;
  end_time = some now;
}
change_phase now RunPhase.cancelled r = record r { phase = RunPhase.cancelled; end_time = some now }
change_phase now RunPhase.finished r = record r { phase = RunPhase.finished; end_time = some now }
change_phase now RunPhase.queued r = record r { phase = RunPhase.queued }

unfoldable pub tasks_waiting_approval : Run → List String
tasks_waiting_approval r = map (λ rt. rt.id) (filter (λ rt. rt.waiting_approval) (values r.tasks))

-- Why a run cannot be restarted.
pub data NoRestart : Type 0 where
  setup_errors : NoRestart
  not_finished : RunPhase → NoRestart
  success_result : String → NoRestart
  not_archived : String → String → NoRestart

-- `none` is `true, ""`.
unfoldable pub can_restart_from_scratch : Run → Option NoRestart
can_restart_from_scratch r =
    if phase_is_setup_error r.phase
    then some NoRestart.setup_errors
    else if phase_is_finished r.phase
    then none
    else some (NoRestart.not_finished r.phase)

-- The first successful task that is not archived.
unfoldable pub not_fully_archived : List RunTask → Option RunTask
unfolding logs_fetch_finished archives_fetch_finished
not_fully_archived [] = none
not_fully_archived (rt ∷ rts) = elim (is_success rt.status) [
  | true ↦ elim (logs_fetch_finished rt && archives_fetch_finished rt) [
    | true ↦ not_fully_archived rts
    | false ↦ some rt
  ]
  | false ↦ not_fully_archived rts
]

unfoldable pub can_restart_from_failed_tasks : Run → Option NoRestart
unfolding not_fully_archived
can_restart_from_failed_tasks r =
    if phase_is_setup_error r.phase
    then some NoRestart.setup_errors
    else if phase_is_finished r.phase
    then if result_is_success r.result
      then some (NoRestart.success_result r.id)
      else elim (not_fully_archived (values r.tasks)) [
        | none ↦ none
        | some rt ↦ some (NoRestart.not_archived r.id rt.id)
      ]
    else some (NoRestart.not_finished r.phase)

-- `id` is a fresh uuid; every field that Go leaves out is its zero value. The zero values of `Phase`
-- and `Result` are empty texts, which `gen_run` overwrites at once: they are arguments here.
abbrev pub new_run : String → RunPhase → RunResult → Run
new_run id phase result = record {
  meta = new_meta id;
  sequence = 0;
  name = "";
  run_config_id = "";
  counter = 0;
  group = "";
  annotations = [];
  phase = phase;
  result = result;
  stop = false;
  tasks = [];
  enqueue_time = none;
  start_time = none;
  end_time = none;
  archived = false;
}
