-- ===== src/Dispatch/Pages.antt =====
-- The loop of `schedule` of internal/services/scheduler/scheduler.go over the pages of queued runs.
use agola.Prelude.{
  ℕ, zero, suc, ◌<◌, ◌≤◌, ◌≡◌, refl, ap, sym, ◌∙◌, subst, String, Bool, true, List, [], ◌∷◌, ◌++◌,
  Memᴰ, some, values, filter, filter-mem, length, Bool-cases, inl, inr, arith, ◌&&◌, ok,
}
use agola.Types.{Run, RunPhase}
use agola.Store.Db.{Db}
use agola.Store.Tokens.{get_change_groups_update_tokens, add_missing_groups}
use agola.Api.Queries.{get_runs, is_selected, is_after, take, order_by, sort_order}
use agola.Api.Handlers.{RunsResponse, runs_handler, read_limit, read_start}
use agola.Api.Client.{queued_runs}
use agola.Dispatch.Schedule.{last_sequence, all_queued_runs}
use agola.Dispatch.Ordering.{ordered, mem-order_by}
use agola.Dispatch.Paging.{
  ordered-filter, ordered-Rising, Rising, DistinctSequences, after, after_page, drop, take-drop,
  length-drop, last_sequence-bound, filter_all,
}

filter_both :
    (s p q : Run → Bool) (rs : List Run)
    → ((r : Run) → s r ≡ (p r && q r))
    → filter s rs ≡ filter q (filter p rs)
filter_both s p q [] h = refl
filter_both s p q (r ∷ rs) h = ground (arith, h r, filter_both s p q rs h)

filter-DistinctSequences :
    (p : Run → Bool) (rs : List Run) → DistinctSequences rs → DistinctSequences (filter p rs)
filter-DistinctSequences p [] d = tt
filter-DistinctSequences p (r ∷ rs) (n, d) = elim (Bool-cases (p r)) [
  | inl e ↦ rw (e, filter) (λ s i. n s (filter-mem p rs i).0, filter-DistinctSequences p rs d)
  | inr e ↦ rw (e, filter) (filter-DistinctSequences p rs d)
]

filter-Rising : (p : Run → Bool) (rs : List Run) → Rising rs → Rising (filter p rs)
filter-Rising p [] h = tt
filter-Rising p (r ∷ rs) (lt, h) = elim (Bool-cases (p r)) [
  | inl e ↦ rw (e, filter) (λ s i. lt s (filter-mem p rs i).0, filter-Rising p rs h)
  | inr e ↦ rw (e, filter) (filter-Rising p rs h)
]

module _ (like : String → String → Bool) where
  -- The queued runs by their sequence, in one query without a limit.
  abbrev pub queue : Db → List Run
  queue db = get_runs like [] (RunPhase.queued ∷ []) [] 0 0 true db

  page_of_queue :
      (start : ℕ) (db : Db)
      → DistinctSequences (values db.runs)
      → get_runs like [] (RunPhase.queued ∷ []) [] start 25 true db
        ≡ take 25 (filter (after start) (queue db))
  unfolding get_runs order_by
  page_of_queue start db d =
      let p = is_selected like (RunPhase.queued ∷ []) [] [] true 0 (λ r. r.sequence) in
      ap (take 25) (
        ap ordered (
          filter_both (is_selected like (RunPhase.queued ∷ []) [] [] true start (λ r. r.sequence)) p
            (after start) (values db.runs) (λ r. ground arith))
        ∙ ordered-filter (after start) (filter p (values db.runs))
            (filter-DistinctSequences p (values db.runs) d))

  -- An answer to a request for queued runs.
  data Page (now : ℕ) (new_id new_value : String → String) (start : ℕ) (db : Db) : Type 0 where
    page :
        (resp : RunsResponse)
        → (runs_handler like now new_id new_value (queued_runs start 0 []) db).1 ≡ ok resp
        → resp.runs ≡ get_runs like [] (RunPhase.queued ∷ []) [] start 25 true db
        → Page now new_id new_value start db

  answered :
      (now : ℕ) (new_id new_value : String → String) (start : ℕ) (db : Db)
      → Page now new_id new_value start db
  unfolding runs_handler read_limit read_start get_change_groups_update_tokens add_missing_groups
      queued_runs
  answered now new_id new_value zero db = page _ refl refl
  answered now new_id new_value (suc start) db = page _ refl refl

  module _ (now : ℕ) (new_id new_value : String → String) (db : Db) where
    page_runs :
        (fuel start : ℕ) (r : Run) (rs more : List Run)
        → get_runs like [] (RunPhase.queued ∷ []) [] start 25 true db ≡ r ∷ rs
        → all_queued_runs like now new_id new_value fuel (last_sequence r rs) db ≡ some (ok more)
        → all_queued_runs like now new_id new_value (suc fuel) start db ≡ some (ok (r ∷ rs ++ more))
    unfolding all_queued_runs
    page_runs fuel start r rs more p e = elim (answered now new_id new_value start db) [
      | page resp a b ↦ rw (all_queued_runs, a, b, p, e) refl
    ]

    last_page :
        (fuel start : ℕ)
        → get_runs like [] (RunPhase.queued ∷ []) [] start 25 true db ≡ []
        → all_queued_runs like now new_id new_value (suc fuel) start db ≡ some (ok [])
    unfolding all_queued_runs
    last_page fuel start p = elim (answered now new_id new_value start db) [
      | page resp a b ↦ rw (all_queued_runs, a, b, p) refl
    ]

  is_after-narrow :
      (start m key : ℕ)
      → start ≤ m
      → is_after true m key ≡ (is_after true start key && is_after true m key)
  is_after-narrow zero m key h = refl
  is_after-narrow (suc start) zero key h = ground arith
  is_after-narrow (suc start) (suc m) key h = ground arith

  is_after-bound : (start key : ℕ) → is_after true start key ≡ true → start ≤ key
  is_after-bound zero key h = omega arith
  is_after-bound (suc start) key h = ground arith

  module _ (now : ℕ) (new_id new_value : String → String) (db : Db)
      (distinct : DistinctSequences (values db.runs))
      (positive : (r : Run) → Memᴰ r (values db.runs) → 1 ≤ r.sequence) where
    queue-Rising : Rising (queue db)
    unfolding get_runs order_by
    queue-Rising =
        let p = is_selected like (RunPhase.queued ∷ []) [] [] true 0 (λ r. r.sequence) in
        ordered-Rising (filter p (values db.runs))
          (filter-DistinctSequences p (values db.runs) distinct)

    queue-mem : (r : Run) → Memᴰ r (queue db) → Memᴰ r (values db.runs)
    unfolding get_runs order_by
    queue-mem r i =
        let p = is_selected like (RunPhase.queued ∷ []) [] [] true 0 (λ r. r.sequence) in
        (filter-mem p (values db.runs)
          (mem-order_by (sort_order true) (λ r. r.sequence) r (filter p (values db.runs)) i)).0

    -- What is left of the queue after a page.
    next_start :
        (start : ℕ) (r : Run) (rs : List Run)
        → filter (after start) (queue db) ≡ r ∷ rs
        → filter (after (last_sequence r (take 24 rs))) (queue db) ≡ drop 24 rs
    next_start start r rs e =
        let m = last_sequence r (take 24 rs) in
        let rising = subst Rising e (filter-Rising (after start) (queue db) queue-Rising) in
        let i : Memᴰ r (filter (after start) (queue db)) =
          subst (λ x. Memᴰ r x) (sym e) (Memᴰ.head refl) in
        let (j, a) = filter-mem (after start) (queue db) i in
        let le : start ≤ m =
          omega (arith, is_after-bound start r.sequence a, last_sequence-bound 24 r rs rising) in
        filter_both (after m) (after start) (after m) (queue db)
          (λ s. is_after-narrow start m s.sequence le)
        ∙ ap (filter (after m)) e
        ∙ after_page 24 r rs rising (positive r (queue-mem r j))

    pages_from :
        (fuel start : ℕ) (rest : List Run)
        → filter (after start) (queue db) ≡ rest
        → length rest < fuel
        → all_queued_runs like now new_id new_value fuel start db ≡ some (ok rest)
    unfolding take
    pages_from zero start rest e lt = ground arith
    pages_from (suc fuel) start [] e lt =
        last_page now new_id new_value db fuel start
          (page_of_queue start db distinct ∙ ap (take 25) e)
    pages_from (suc fuel) start (r ∷ rs) e lt =
        page_runs now new_id new_value db fuel start r (take 24 rs) (drop 24 rs)
          (page_of_queue start db distinct ∙ ap (take 25) e)
          (pages_from fuel (last_sequence r (take 24 rs)) (drop 24 rs) (next_start start r rs e)
            (omega (arith, length-drop 24 rs)))
        ∙ ap (λ x. some (ok (r ∷ x))) (take-drop 24 rs)

    -- The loop of `schedule` over the pages of queued runs ends, and has seen the queued runs that one
    -- query without a limit gives, in the same order, if no two runs have the same sequence, none has
    -- the sequence 0, the runs stay as they are meanwhile, and the fuel is above the number of queued
    -- runs.
    pub all_queued_runs-whole :
        (fuel : ℕ)
        → length (queue db) < fuel
        → all_queued_runs like now new_id new_value fuel 0 db ≡ some (ok (queue db))
    all_queued_runs-whole fuel lt =
        pages_from fuel 0 (queue db) (filter_all (after 0) (queue db) (λ s i. refl)) lt
