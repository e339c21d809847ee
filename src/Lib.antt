-- ===== src/Lib.antt =====
-- agola's runservice: how the tasks of a run are ordered, scheduled, reported and stored.
--
-- The program. A client creates a run from the tasks of a run config. The runservice keeps runs, run
-- configs and executor tasks in a database. Its scheduler goes over the runs: it advances the run and
-- its tasks, picks the tasks that may run, chooses an executor for each and hands it an executor task;
-- the executor reports back, and the report changes the run task. The logs and workspace archives of
-- finished tasks are fetched, and a finished run is archived once all are. The API changes a run at any
-- time: it starts, cancels or stops it, and approves or annotates a task. Each of these is a transaction
-- that reads the run, changes it, and writes it back if its revision is still the one that was read.
-- The scheduler service starts the queued runs of each group, one at a time, by requests to that API; a
-- change group token, which a query returns, ties such a request to what the query has seen. The
-- gateway checks who may do what, and the config store keeps projects and their secrets.
--
-- The files, with the code that each models (paths from the root of the repository):
--   Prelude: maps with string keys, results (value, error or panic), tests on numbers, list lemmas.
--   Types: services/runservice/types and services/types/object.go. A pointer that may be nil is an
--     Option, a time is a number, and a level of -1 is `unset`.
--   RunConfig: internal/runconfig/runconfig.go. Graph has GetParents, GetAllParents and
--     GetParentDependConditions, Check has CheckRunConfigTasks, Levels has GenTasksLevels. Ancestors
--     and AllAncestors are about GetAllParents. Generate has GenRunConfigTasks, from the types of Config.
--     Levels/Round tells one round without its loop, Levels/Settled what the rounds end with.
--   Config: the types of internal/config/config.go, and the lookups of a run and of a task.
--   Scheduler: internal/services/runservice/scheduler.go. Tasks has advanceRunTasks and
--     getTasksToRun, Phase has advanceRun, Report has updateRunTaskStatus, Executors has
--     chooseExecutor. Parents, Runnable, Advance and Choice describe these without their loops.
--   Action: internal/services/runservice/action/action.go. Create has genRunTask and genRun, and
--     GenExecutorTask of internal/services/runservice/common/common.go; Change has the parts of
--     ChangeRunPhase, StopRun, RunTaskSetAnnotations and ApproveRunTask that change the run; Fetch
--     has those of finishSetupLogPhase, finishStepLogPhase, finishArchivePhase and
--     finishedRunArchiver of the scheduler. Request has newRun, Recreate the function recreateRun, and
--     SpecData has GenExecutorTaskSpecData of common.go.
--   Lifecycle: the life of one run. Steps has the writes as a step relation: `schedule` is what
--     scheduleRun does to the run; the others are the operations of Action and Scheduler. Status,
--     Writes, Stop and Invariant are about what each does to the statuses, Reach puts them together,
--     Identity and Progress are about what a run keeps.
--   Store: Rows and Db model internal/services/runservice/db with its optimistic locking by
--     revisions, and NewRunEvent of internal/services/runservice/common/events.go; Transactions has
--     those of action.go and scheduler.go around the operations above, Attempts has the second
--     transaction of scheduleRun with its repeats, Scheduling has scheduleRun, submitRunTasks and the
--     cleaners, Creation has CreateRun, and ExecutorApi has the handlers of
--     internal/services/runservice/api/executor.go. Revisions, Actions, PhaseChange, Submission and
--     Reports are about what they leave.
--     Tables is about tables with ids, Tokens has GetChangeGroupsUpdateTokens, with Values, RoundTrip,
--     Once and Exclusion about what becomes of a token.
--   System: the processes of the runservice on one database. Steps has every transaction as a step, the
--     runs that schedulers hold between their two transactions, and what they keep between attempts;
--     Changes, Others, Effects, Creations, Commits, Refinement and Retries are about single
--     transactions, Snapshots, Invariant and Progress about all.
--   Api: internal/services/runservice/api/api.go. Queries has the queries for runs of db.go, Handlers
--     the handlers for runs, tokens and actions, Limit is about their limit, and Client the requests of
--     services/runservice/client/client.go.
--   Dispatch: internal/services/scheduler/scheduler.go, the service that starts the queued runs. Schedule
--     has schedule and scheduleRun, Approve has approve and approveRunTasks. Ordering, Paging and Pages
--     are about the pages of a query, Start, Fifo and Liveness about scheduleRun, and OneApproval about
--     approveRunTasks.
--   ConfigStore: internal/services/configstore. Refs has ResolveObjectID with the reads of db/db.go, and
--     Secrets the actions of action/secret.go. Names, Kept and Unique are about the names of secrets.
--   Gateway: internal/services/gateway/action/auth.go, with Access about what its checks grant.
--   Paths, Variables: internal/util/path.go and internal/services/common/variables.go.
--   When: services/types/when.go, the conditions on branch, tag and ref.
--   Tests: a run of three tasks, tests of the code on it, and the theorems at concrete inputs.
--
-- Choices. A Go map is the list of its entries in the order of one iteration; what is proved holds for
-- every such list. Numbers do not overflow: counts, revisions, levels and times are small. The time,
-- fresh ids and random values are arguments. A nil dereference or an index out of range is `panicked`.
-- GenTasksLevels runs on fuel, one round more than there are tasks, which is enough since each round
-- but the last sets a level. GetAllParents runs on two rounds more than there are tasks, since each
-- round but the last two adds a task to its map. The loops of PathHierarchy and PathList run on fuel,
-- two rounds more than the path has characters, since each round but the last makes the path shorter.
-- The pages of queued runs need one more than the number of queued runs, since each page but the last
-- has a run. The calls of one round of the scheduler service come one after the other, without other
-- transactions between them; what the tokens do between two services is told apart from that.
--
-- Parameters. The function ValidateName, a regular expression and the parser of uuids, is
-- `valid_name`, and PathUnescape is `unescape`. The package regexp is the argument `compile` of When:
-- an expression either does not compile, or is a test on strings. The HTTP request that sends an
-- executor task is `post`. The operator LIKE of the database is `like`, SHA256 is `sha`, and the JSON
-- of a list of texts is read by `parse`. The client of the config store is a record of functions that
-- answer an object or an error.
--
-- Not modelled: the encoding of HTTP requests and answers, the executor with its drivers, the
-- gateway's handlers, the other objects of the config store, the git server and sources, the object
-- storage, the SQL text and locks, the parser of the configuration, notifications and migrations,
-- which are mostly I/O or calls of other services; of the runservice, the cleaners of caches and
-- workspaces, and the copies of logs and archives; the checks of a parsed configuration.
--
-- Transactions. One that fails changes nothing in the database, as internal/sql/db.go rolls it back.
-- After a serialization error `Do` repeats the function of the transaction with the variables that it
-- has captured, as the failed attempt has left them. Where the function reads anew all that it changes,
-- a repeat is like a first attempt. Where it inserts a captured object, as in saveRun, a repeat after
-- the insert finds the object's revision not 0 any more and is refused. Two functions use again a flag
-- that they have set, those of submitRunTasks and executorTaskCleaner: it is their argument
-- `should_send`. The second transaction of scheduleRun uses again all that it has changed: its repeats
-- are steps of System, by `run_attempt` on what `after_failure` leaves. A success of it after a failure
-- past its UpdateRun overwrites what was written in between, which System.Retries is about, and which
-- the theorems of System exclude by the hypothesis `AllTimely`. The functions schedule_run,
-- submit_run_tasks and executor_task_cleaner of Scheduling put first attempts together.
pub mod Prelude
pub mod Types
pub mod RunConfig
pub mod Scheduler
pub mod Action
pub mod Lifecycle
pub mod Store
pub mod Api
pub mod Dispatch
pub mod When
pub mod System
pub mod Paths
pub mod Variables
pub mod Config
pub mod ConfigStore
pub mod Gateway
pub mod Tests
