-- ===== src/Dispatch/Liveness.antt =====
-- scheduleRun of internal/services/scheduler/scheduler.go where nothing stands in its way.
use agola.Prelude.{
  ℕ, ◌≤◌, ◌≡◌, refl, ap, sym, ◌∙◌, subst, String, Bool, true, List, [], ◌∷◌, Memᴰ, none, some,
  values, lookup, insert, arith, ok, leb, eqb, ◌>>=◌,
}
use agola.Types.{Run, RunPhase, RunEvent, ChangeGroupsUpdateToken, change_phase}
use agola.Action.Change.{change_run_phase}
use agola.Store.Rows.{insert_row, update_row, next_meta, first_meta}
use agola.Store.Db.{Db, update_run, insert_run_event, new_run_event, next_sequence}
use agola.Store.Tokens.Values.{get_change_groups_update_tokens-others}
use agola.Store.Tokens.Once.{GroupTable}
use agola.Store.Tokens.RoundTrip.{Accepted, accepted, get_change_groups_update_tokens-Accepted}
use agola.Store.Transactions.{update_change_groups, change_run_phase_action}
use agola.Store.Actions.{update_change_groups-others}
use agola.Api.Queries.{in_group}
use agola.Api.Handlers.{Answer, RunsResponse, run_actions_handler}
use agola.Dispatch.Schedule.{StartIds, change_group_of, start_or_log, start_if_free, schedule_run}
use agola.Dispatch.Start.{
  IsNext, NoneRunning, first_queued, one_running, first_queued-IsNext, first_queued-some,
  one_running-none, running_query, schedule_run-some,
}
use agola.Dispatch.Fifo.{
  RunTable, started_run, stored_under_id, Queried, queried, refused, gone, replied,
}

update_run_ok :
    (now : ℕ) (r row : Run) (db : Db)
    → lookup r.id db.runs ≡ some row
    → row.revision ≡ r.revision
    → 1 ≤ r.revision
    → update_run now r db
      ≡ ok (record db { runs = insert r.id (record r { meta = next_meta now r.meta }) db.runs })
unfolding update_run update_row
update_run_ok now r row db l e p =
    let enough : leb 1 r.revision ≡ true = ground arith in
    let same : eqb row.revision r.revision ≡ true = ground arith in
    rw (update_run, update_row, enough, l, same) refl

insert_run_event_ok :
    (now : ℕ) (e : RunEvent) (db : Db)
    → e.revision ≡ 0
    → lookup e.id db.run_events ≡ none
    → insert_run_event now e db
      ≡ ok (record db {
        run_events = insert e.id (record e { meta = first_meta now e.meta }) db.run_events;
      })
unfolding insert_run_event insert_row
insert_run_event_ok now e db z l =
    let none_yet : eqb e.revision 0 ≡ true = ground arith in
    rw (insert_run_event, insert_row, none_yet, l) refl

-- ChangeRunPhase succeeds in starting a queued run.
data Starts (now : ℕ) (fresh : String → String) (t : ChangeGroupsUpdateToken) (ids : StartIds)
    (r : Run) (db : Db) : Type 0 where
  starts :
      (db' : Db)
      → change_run_phase_action now fresh (some t) ids.event_id ids.seq_id RunPhase.running r.id db
        ≡ ok db'
      → db'.runs ≡ insert r.id (started_run now r) db.runs
      → Starts now fresh t ids r db

change_run_phase_action-Starts :
    (now : ℕ) (fresh : String → String) (t : ChangeGroupsUpdateToken) (ids : StartIds) (r : Run)
    (db db₁ : Db)
    → lookup r.id db.runs ≡ some r
    → r.phase ≡ RunPhase.queued
    → 1 ≤ r.revision
    → lookup ids.event_id db.run_events ≡ none
    → update_change_groups now fresh (some t) db ≡ ok db₁
    → Starts now fresh t ids r db
unfolding change_run_phase_action change_run_phase change_phase new_run_event next_sequence
change_run_phase_action-Starts now fresh t ids r db db₁ l q p ev u =
    let o = update_change_groups-others now fresh (some t) db db₁ u in
    let runs : db₁.runs ≡ db.runs = ap (λ (x : Db). x.runs) o in
    let events : db₁.run_events ≡ db.run_events = ap (λ (x : Db). x.run_events) o in
    let step = new_run_event now ids.event_id ids.seq_id r.id RunPhase.running r.result db₁ in
    let db₂ : Db = record step.0 { runs = insert r.id (started_run now r) db₁.runs } in
    let a =
      update_run_ok now (change_phase now RunPhase.running r) r step.0
        (subst (λ x. lookup r.id x ≡ some r) (sym runs) l) refl p in
    let b =
      insert_run_event_ok now step.1 db₂ refl
        (subst (λ x. lookup ids.event_id x ≡ none) (sym events) ev) in
    starts
      (record db₂ {
        run_events =
            insert ids.event_id (record step.1 { meta = first_meta now step.1.meta })
              db₁.run_events;
      })
      (rw (change_run_phase_action, l, u, change_run_phase, q, change_phase)
        (ap (λ m. m >>= λ db₃. insert_run_event now step.1 db₃) a ∙ b))
      (ap (insert r.id (started_run now r)) runs)

module _ (like : String → String → Bool) (group : String) (now : ℕ)
    (new_id new_value sha fresh : String → String) (ids : String → StartIds) where
  -- The first in the queue of the group is started.
  pub data StartsNext (db : Db) : Type 0 where
    starts_next :
        (r : Run)
        → IsNext like group db r
        → (schedule_run like now new_id new_value sha fresh ids group db).0.runs
          ≡ insert r.id (started_run now r) db.runs
        → StartsNext db

  starts_after :
      (db : Db) (r : Run)
      → RunTable db.runs
      → IsNext like group db r
      → NoneRunning like group db
      → lookup (ids r.id).event_id db.run_events ≡ none
      → Accepted now new_id new_value (change_group_of sha group ∷ []) now fresh db
      → Queried like group now new_id new_value sha db
      → (start_if_free like now new_id new_value sha fresh ids r
          (running_query like group db now new_id new_value sha)).0.runs
        ≡ insert r.id (started_run now r) db.runs
  unfolding start_or_log run_actions_handler
  starts_after db r table next free ev (accepted db' db'' t g u k w) q = by_query q
    where
      runs : db'.runs ≡ db.runs
      runs =
          ap (λ (x : Db). x.runs)
            (get_change_groups_update_tokens-others now new_id new_value
              (change_group_of sha group ∷ []) db db' t g)

      evs : db'.run_events ≡ db.run_events
      evs =
          ap (λ (x : Db). x.run_events)
            (get_change_groups_update_tokens-others now new_id new_value
              (change_group_of sha group ∷ []) db db' t g)

      l : lookup r.id db'.runs ≡ some r
      l =
          subst (λ x. lookup r.id x ≡ some r) (sym runs)
            (stored_under_id db.runs r table next.stored)

      empty : one_running like group db ≡ []
      empty = one_running-none like group db (one_running like group db) refl free

      at_token :
          (start_if_free like now new_id new_value sha fresh ids r (
            db',
            ok (record { runs = one_running like group db; change_groups_update_token = t }),
          )).0.runs
          ≡ insert r.id (started_run now r) db.runs
      at_token =
          elim (change_run_phase_action-Starts now fresh t (ids r.id) r db' db'' l next.queued
            (table.1 r.id r (stored_under_id db.runs r table next.stored)).1
            (subst (λ x. lookup (ids r.id).event_id x ≡ none) (sym evs) ev) u) [
              | starts d p q ↦
                  rw (empty, start_or_log, run_actions_handler, p)
                    (q ∙ ap (insert r.id (started_run now r)) runs)
            ]

      by_query :
          Queried like group now new_id new_value sha db
          → (start_if_free like now new_id new_value sha fresh ids r
              (running_query like group db now new_id new_value sha)).0.runs
            ≡ insert r.id (started_run now r) db.runs
      by_query (refused e b a) = ground (arith, g, b)
      by_query (gone b a) = ground (arith, g, b)
      by_query (replied db₁ t₁ b a) =
          let same = ◌≡◌ {A = Db × ChangeGroupsUpdateToken} (db', t) (db₁, t₁) in
          let e : same = ground (arith, g, b) in
          ap
            (λ (x : Answer RunsResponse).
              (start_if_free like now new_id new_value sha fresh ids r x).0.runs)
            a
          ∙ subst
              (λ (x : Db × ChangeGroupsUpdateToken).
                (start_if_free like now new_id new_value sha fresh ids r (
                  x.0,
                  ok (record {
                    runs = one_running like group db;
                    change_groups_update_token = x.1;
                  }),
                )).0.runs
                ≡ insert r.id (started_run now r) db.runs)
              e at_token

  -- scheduleRun starts the first in the queue of a group that has a queued run and no running run, if
  -- the tables are well formed, the ids that it draws are not in use, and no other transaction comes
  -- between its calls.
  pub schedule_run-StartsNext :
      (db : Db) (s : Run)
      → RunTable db.runs
      → GroupTable db.change_groups
      → ((n m : String) → new_id n ≡ new_id m → n ≡ m)
      → lookup (new_id (change_group_of sha group)) db.change_groups ≡ none
      → ((id : String) → lookup (ids id).event_id db.run_events ≡ none)
      → Memᴰ s (values db.runs)
      → s.phase ≡ RunPhase.queued
      → in_group like group s ≡ true
      → NoneRunning like group db
      → StartsNext db
  schedule_run-StartsNext db s table groups inj unused events i ph g free =
      by_first (first_queued like group db) refl
    where
      by_first : (rs : List Run) → first_queued like group db ≡ rs → StartsNext db
      by_first [] e = elim (first_queued-some like group db s i ph g e) [ ]
      by_first (r ∷ rs) e =
          let next = first_queued-IsNext like group db r rs e in
          let token =
            get_change_groups_update_tokens-Accepted now new_id new_value
              (change_group_of sha group ∷ []) now fresh db groups inj
              (λ n m. elim m [
                | Memᴰ.head q ↦
                    subst (λ x. lookup (new_id x) db.change_groups ≡ none) (sym q) unused
                | Memᴰ.tail m ↦ elim m [ ]
              ]) in
          starts_next r next (
            ap (λ (a : Answer (Unit {0})). a.0.runs)
              (schedule_run-some like group db now new_id new_value sha fresh ids r rs e)
            ∙ starts_after db r table next free (events r.id) token
                (queried like group now new_id new_value sha db))
