-- ===== src/Dispatch/Start.antt =====
-- scheduleRun of internal/services/scheduler/scheduler.go: which run of a group it starts.
use agola.Prelude.{
  ℕ, ◌≤◌, ◌≡◌, refl, ap, sym, ◌∙◌, subst, String, Bool, true, false, List, [], ◌∷◌, Memᴰ, values,
  filter, filter-mem, mem-filter, arith, ok,
}
use agola.Types.{Run, RunPhase}
use agola.Store.Db.{Db}
use agola.Store.Tokens.{get_change_groups_update_tokens, add_missing_groups}
use agola.Api.Queries.{get_runs, in_group, is_selected, take, order_by, sort_order}
use agola.Api.Handlers.{RunsResponse, Answer, runs_handler, read_limit, read_start}
use agola.Api.Client.{group_first_queued_runs, group_running_runs}
use agola.Dispatch.Schedule.{StartIds, change_group_of, start_if_free, start_first, schedule_run}
use agola.Store.Attempts.{same_phase}
use agola.Dispatch.Ordering.{ordered, ordered-least, order_by-nil, mem-order_by}

same_phase-queued : (p : RunPhase) → same_phase RunPhase.queued p ≡ true → p ≡ RunPhase.queued
same_phase-queued RunPhase.setup_error h = ground arith
same_phase-queued RunPhase.queued h = refl
same_phase-queued RunPhase.cancelled h = ground arith
same_phase-queued RunPhase.running h = ground arith
same_phase-queued RunPhase.finished h = ground arith

same_phase-running : (p : RunPhase) → same_phase RunPhase.running p ≡ true → p ≡ RunPhase.running
same_phase-running RunPhase.setup_error h = ground arith
same_phase-running RunPhase.queued h = ground arith
same_phase-running RunPhase.cancelled h = ground arith
same_phase-running RunPhase.running h = refl
same_phase-running RunPhase.finished h = ground arith

head_of_take :
    (rs : List Run) {r : Run} {t : List Run} → take 1 rs ≡ r ∷ t → (u : List Run) × (rs ≡ r ∷ u)
unfolding take
head_of_take [] h = ground arith
head_of_take (x ∷ rs) h = (rs, ground arith)

nil_of_take : (rs : List Run) → take 1 rs ≡ [] → rs ≡ []
unfolding take
nil_of_take [] h = refl
nil_of_take (x ∷ rs) h = ground arith

module _ (like : String → String → Bool) (group : String) (db : Db) where
  -- A run that is queued, in the group, and behind no other such run.
  pub record IsNext (r : Run) : Type 0 where
    pub stored : Memᴰ r (values db.runs)
    pub queued : r.phase ≡ RunPhase.queued
    pub inside : in_group like group r ≡ true
    pub least :
        (s : Run)
        → Memᴰ s (values db.runs)
        → s.phase ≡ RunPhase.queued
        → in_group like group s ≡ true
        → r.sequence ≤ s.sequence

  -- No run of the group is running.
  abbrev pub NoneRunning : Type 0
  NoneRunning =
      (s : Run)
      → Memᴰ s (values db.runs)
      → in_group like group s ≡ true
      → ¬ (s.phase ≡ RunPhase.running)

  abbrev pub first_queued : List Run
  first_queued = get_runs like (group ∷ []) (RunPhase.queued ∷ []) [] 0 1 true db

  abbrev pub one_running : List Run
  one_running = get_runs like (group ∷ []) (RunPhase.running ∷ []) [] 0 1 false db

  pub first_queued-IsNext : (r : Run) (rs : List Run) → first_queued ≡ r ∷ rs → IsNext r
  unfolding get_runs order_by
  first_queued-IsNext r rs e =
      let p = is_selected like (RunPhase.queued ∷ []) [] (group ∷ []) true 0 (λ r. r.sequence) in
      let (t, q) = head_of_take (ordered (filter p (values db.runs))) e in
      let i =
        mem-order_by (sort_order true) (λ r. r.sequence) r (filter p (values db.runs))
          (subst (λ l. Memᴰ r l) (sym q) (Memᴰ.head refl)) in
      let (j, sel) = filter-mem p (values db.runs) i in
      record {
        stored = j;
        queued = same_phase-queued r.phase (ground arith);
        inside = ground arith;
        least = λ s k ph g. ordered-least r (filter p (values db.runs)) t q s (
            mem-filter p (values db.runs) k
              (ground (arith, subst (λ x. same_phase RunPhase.queued x ≡ true) (sym ph) refl, g)));
      }

  pub one_running-NoneRunning : one_running ≡ [] → NoneRunning
  unfolding get_runs order_by
  one_running-NoneRunning e s i g h =
      let p = is_selected like (RunPhase.running ∷ []) [] (group ∷ []) false 0 (λ r. r.sequence) in
      let none =
        order_by-nil (sort_order false) (λ r. r.sequence) (filter p (values db.runs))
          (nil_of_take (order_by (sort_order false) (λ r. r.sequence) (filter p (values db.runs)))
            e) in
      elim (subst (λ l. Memᴰ s l) none
        (mem-filter p (values db.runs) i
          (ground (arith, subst (λ x. same_phase RunPhase.running x ≡ true) (sym h) refl, g)))) [ ]

  pub first_queued-some :
      (s : Run)
      → Memᴰ s (values db.runs)
      → s.phase ≡ RunPhase.queued
      → in_group like group s ≡ true
      → ¬ (first_queued ≡ [])
  unfolding get_runs order_by
  first_queued-some s i ph g e =
      let p = is_selected like (RunPhase.queued ∷ []) [] (group ∷ []) true 0 (λ r. r.sequence) in
      let none =
        order_by-nil (sort_order true) (λ r. r.sequence) (filter p (values db.runs))
          (nil_of_take (ordered (filter p (values db.runs))) e) in
      elim (subst (λ l. Memᴰ s l) none
        (mem-filter p (values db.runs) i
          (ground (arith, subst (λ x. same_phase RunPhase.queued x ≡ true) (sym ph) refl, g)))) [ ]

  pub one_running-none : (rs : List Run) → one_running ≡ rs → NoneRunning → rs ≡ []
  unfolding get_runs order_by
  one_running-none [] e h = refl
  one_running-none (r ∷ rs) e h =
      let p = is_selected like (RunPhase.running ∷ []) [] (group ∷ []) false 0 (λ r. r.sequence) in
      let (t, q) =
        head_of_take (order_by (sort_order false) (λ r. r.sequence) (filter p (values db.runs)))
          e in
      let i =
        mem-order_by (sort_order false) (λ r. r.sequence) r (filter p (values db.runs))
          (subst (λ l. Memᴰ r l) (sym q) (Memᴰ.head refl)) in
      let (j, sel) = filter-mem p (values db.runs) i in
      elim (h r j (ground arith) (same_phase-running r.phase (ground arith))) [ ]

  module _ (now : ℕ) (new_id new_value : String → String) where
    data FirstAnswer : Type 0 where
      first_answer :
          (resp : RunsResponse)
          → runs_handler like now new_id new_value (group_first_queued_runs group []) db
            ≡ (db, ok resp)
          → resp.runs ≡ first_queued
          → FirstAnswer

    answered : FirstAnswer
    unfolding runs_handler read_limit read_start get_change_groups_update_tokens add_missing_groups
        group_first_queued_runs
    answered = first_answer _ refl refl

    abbrev pub running_query : (String → String) → Answer RunsResponse
    running_query sha =
        runs_handler like now new_id new_value
          (group_running_runs group 1 (change_group_of sha group ∷ [])) db

    module _ (sha fresh : String → String) (ids : String → StartIds) where
      abbrev pub run_it : Answer (Unit {0})
      run_it = schedule_run like now new_id new_value sha fresh ids group db

      pub schedule_run-none : first_queued ≡ [] → run_it ≡ (db, ok tt)
      unfolding schedule_run start_first
      schedule_run-none e = elim answered [
        | first_answer resp a b ↦
            ap (start_first like now new_id new_value sha fresh ids group) a
            ∙ rw (start_first, b, e) refl
      ]

      pub schedule_run-some :
          (r : Run) (rs : List Run)
          → first_queued ≡ r ∷ rs
          → run_it ≡ start_if_free like now new_id new_value sha fresh ids r (running_query sha)
      unfolding schedule_run start_first
      schedule_run-some r rs e = elim answered [
        | first_answer resp a b ↦
            ap (start_first like now new_id new_value sha fresh ids group) a
            ∙ rw (start_first, b, e) refl
      ]
