-- ===== src/Dispatch/Fifo.antt =====
-- scheduleRun of internal/services/scheduler/scheduler.go: what it leaves in the database.
use agola.Prelude.{
  ℕ, ◌≡◌, refl, ap, sym, ◌∙◌, subst, String, Bool, List, [], ◌∷◌, Memᴰ, some, Map, values, lookup,
  insert, ◌⊎◌, inl, inr, arith, ok, err, panicked, Result, Error,
}
use agola.Types.{Run, RunPhase, ChangeGroupsUpdateToken, change_phase}
use agola.Store.Rows.{next_meta}
use agola.Store.Tables.{IsTable, mem-Found, found}
use agola.Store.Db.{Db}
use agola.Store.Tokens.{get_change_groups_update_tokens}
use agola.Store.Tokens.Values.{get_change_groups_update_tokens-others}
use agola.Store.Transactions.{change_run_phase_action}
use agola.Store.PhaseChange.{PhaseChanged, phase_changed, change_run_phase_action-PhaseChanged}
use agola.Api.Handlers.{Answer, runs_handler, read_limit, read_start, run_actions_handler}
use agola.Api.Client.{group_running_runs}
use agola.Dispatch.Schedule.{StartIds, change_group_of, start_or_log, start_if_free, schedule_run}
use agola.Dispatch.Start.{
  IsNext, NoneRunning, first_queued, one_running, first_queued-IsNext, one_running-NoneRunning,
  running_query, schedule_run-none, schedule_run-some,
}

module _ (like : String → String → Bool) (group : String) (now : ℕ)
    (new_id new_value sha : String → String) where
  -- What the query for running runs answers.
  pub data Queried (db : Db) : Type 0 where
    refused :
        (e : Error)
        → get_change_groups_update_tokens now new_id new_value (change_group_of sha group ∷ []) db
          ≡ err e
        → running_query like group db now new_id new_value sha ≡ (db, err e)
        → Queried db
    gone :
        get_change_groups_update_tokens now new_id new_value (change_group_of sha group ∷ []) db
          ≡ panicked
        → running_query like group db now new_id new_value sha ≡ (db, panicked)
        → Queried db
    replied :
        (db₁ : Db) (t : ChangeGroupsUpdateToken)
        → get_change_groups_update_tokens now new_id new_value (change_group_of sha group ∷ []) db
          ≡ ok (db₁, t)
        → running_query like group db now new_id new_value sha
          ≡ (db₁, ok (record { runs = one_running like group db; change_groups_update_token = t }))
        → Queried db

  pub queried : (db : Db) → Queried db
  unfolding runs_handler read_limit read_start group_running_runs
  queried db =
      by_token
        (get_change_groups_update_tokens now new_id new_value (change_group_of sha group ∷ []) db)
        refl
    where
      by_token :
          (m : Result (Db × ChangeGroupsUpdateToken))
          → get_change_groups_update_tokens now new_id new_value (change_group_of sha group ∷ []) db
            ≡ m
          → Queried db
      by_token panicked q = gone q (rw q refl)
      by_token (err e) q = refused e q (rw q refl)
      by_token (ok (db₁, t)) q = replied db₁ t q (rw q refl)

abbrev pub RunTable : Map Run → Type 0
RunTable rows = IsTable (λ (r : Run). r.meta) rows

-- A run as StartRun stores it.
abbrev pub started_run : ℕ → Run → Run
started_run now r = record (change_phase now RunPhase.running r) { meta = next_meta now r.meta }

pub stored_under_id :
    (rows : Map Run) (r : Run) → RunTable rows → Memᴰ r (values rows) → lookup r.id rows ≡ some r
stored_under_id rows r (d, keyed) i = elim (mem-Found rows d i) [
  | found k l ↦ subst (λ j. lookup j rows ≡ some r) (sym (keyed k r l).0) l
]

module _ (like : String → String → Bool) (group : String) (now : ℕ)
    (new_id new_value sha fresh : String → String) (ids : String → StartIds) where
  -- What StartRun leaves of the runs.
  start_or_log-runs :
      (t : ChangeGroupsUpdateToken) (r : Run) (db : Db)
      → RunTable db.runs
      → Memᴰ r (values db.runs)
      → ((start_or_log like now new_id new_value sha fresh ids t r db).runs ≡ db.runs)
        ⊎ ((start_or_log like now new_id new_value sha fresh ids t r db).runs
            ≡ insert r.id (started_run now r) db.runs)
  unfolding start_or_log run_actions_handler
  start_or_log-runs t r db table i =
      by_result
        (change_run_phase_action now fresh (some t) (ids r.id).event_id (ids r.id).seq_id
          RunPhase.running r.id db)
        refl
    where
      changed :
          (db' : Db)
          → PhaseChanged now (ids r.id).event_id RunPhase.running r.id db db'
          → db'.runs ≡ insert r.id (started_run now r) db.runs
      changed db' (phase_changed r' l q w rows ev) =
          let same : r' ≡ r = ground (arith, l, stored_under_id db.runs r table i) in
          rows ∙ ap (λ (x : Run). insert x.id (started_run now x) db.runs) same

      by_result :
          (m : Result Db)
          → change_run_phase_action now fresh
              (some t)
              (ids r.id).event_id
              (ids r.id).seq_id
              RunPhase.running
              r.id
              db
            ≡ m
          → ((start_or_log like now new_id new_value sha fresh ids t r db).runs ≡ db.runs)
            ⊎ ((start_or_log like now new_id new_value sha fresh ids t r db).runs
                ≡ insert r.id (started_run now r) db.runs)
      by_result panicked q = inl (rw (start_or_log, run_actions_handler, q) refl)
      by_result (err e) q = inl (rw (start_or_log, run_actions_handler, q) refl)
      by_result (ok db') q =
          let p =
            change_run_phase_action-PhaseChanged now fresh (some t) (ids r.id).event_id
              (ids r.id).seq_id RunPhase.running r.id db db' q in
          inr (rw (start_or_log, run_actions_handler, q) (changed db' p))

  -- What scheduleRun leaves of the runs: all as they are, or the first in the queue of the group
  -- started while no run of the group was running.
  pub data Scheduled (db db' : Db) : Type 0 where
    not_started : db'.runs ≡ db.runs → Scheduled db db'
    started :
        (r : Run)
        → IsNext like group db r
        → NoneRunning like group db
        → db'.runs ≡ insert r.id (started_run now r) db.runs
        → Scheduled db db'

  abbrev pub scheduled_db : Db → Db
  scheduled_db db = (schedule_run like now new_id new_value sha fresh ids group db).0

  -- If the runs are a table and no other transaction comes between its calls, scheduleRun changes at
  -- most one run of the database: it starts a queued run of the group, behind which each other queued
  -- run of the group stands in the order of the sequences, and only if no run of the group is running.
  pub schedule_run-Scheduled : (db : Db) → RunTable db.runs → Scheduled db (scheduled_db db)
  schedule_run-Scheduled db table = by_first (first_queued like group db) refl
    where
      by_running :
          (r : Run)
          → IsNext like group db r
          → (db₁ : Db) (t : ChangeGroupsUpdateToken) → db₁.runs ≡ db.runs
          → (running : List Run) → one_running like group db ≡ running
          → Scheduled db
              (start_if_free like now new_id new_value sha fresh ids r
                (db₁, ok (record { runs = running; change_groups_update_token = t }))).0
      by_running r next db₁ t same [] q =
          elim (start_or_log-runs t r db₁ (subst RunTable (sym same) table)
            (subst (λ x. Memᴰ r (values x)) (sym same) next.stored)) [
              | inl e ↦ not_started (e ∙ same)
              | inr e ↦
                  started r next (one_running-NoneRunning like group db q)
                    (e ∙ ap (insert r.id (started_run now r)) same)
            ]
      by_running r next db₁ t same (s ∷ ss) q = not_started same

      by_query :
          (r : Run)
          → IsNext like group db r
          → Queried like group now new_id new_value sha db
          → Scheduled db
              (start_if_free like now new_id new_value sha fresh ids r
                (running_query like group db now new_id new_value sha)).0
      by_query r next (refused e g q) =
          subst (λ a. Scheduled db (start_if_free like now new_id new_value sha fresh ids r a).0)
            (sym q) (not_started refl)
      by_query r next (gone g q) =
          subst (λ a. Scheduled db (start_if_free like now new_id new_value sha fresh ids r a).0)
            (sym q) (not_started refl)
      by_query r next (replied db₁ t g q) =
          subst (λ a. Scheduled db (start_if_free like now new_id new_value sha fresh ids r a).0)
            (sym q)
            (by_running r next db₁ t
              (ap (λ (x : Db). x.runs)
                (get_change_groups_update_tokens-others now new_id new_value
                  (change_group_of sha group ∷ []) db db₁ t g))
              (one_running like group db) refl)

      by_first : (rs : List Run) → first_queued like group db ≡ rs → Scheduled db (scheduled_db db)
      by_first [] e =
          subst (λ (a : Answer (Unit {0})). Scheduled db a.0)
            (sym (schedule_run-none like group db now new_id new_value sha fresh ids e))
            (not_started refl)
      by_first (r ∷ rs) e =
          subst (λ (a : Answer (Unit {0})). Scheduled db a.0)
            (sym (schedule_run-some like group db now new_id new_value sha fresh ids r rs e))
            (by_query r (first_queued-IsNext like group db r rs e)
              (queried like group now new_id new_value sha db))
