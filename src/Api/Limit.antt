-- ===== src/Api/Limit.antt =====
-- How many runs the handlers of internal/services/runservice/api/api.go for lists of runs answer.
use agola.Prelude.{
  ℕ, zero, suc, ◌≤◌, ◌≡◌, refl, subst, String, Bool, List, [], ◌∷◌, Option, none, some, length,
  Result, ok, err, panicked, bound, >>=-Bound, ◌>>=◌, arith,
}
use agola.Types.{Run, ChangeGroupsUpdateToken}
use agola.Store.Db.{Db}
use agola.Store.Tokens.{get_change_groups_update_tokens}
use agola.Api.Queries.{take, limit_to, get_runs}
use agola.Api.Handlers.{
  Number, read_limit, read_start, RunsQuery, RunsResponse, answer_of, runs_handler, max_runs_limit,
}

length-take : (n : ℕ) (rs : List Run) → length (take n rs) ≤ n
unfolding take
length-take zero rs = omega arith
length-take (suc n) [] = omega arith
length-take (suc n) (r ∷ rs) = omega (arith, length-take n rs)

length-limit_to : (n : ℕ) (rs : List Run) → 1 ≤ n → length (limit_to n rs) ≤ n
length-limit_to zero rs h = omega arith
length-limit_to (suc n) rs h = length-take (suc n) rs

-- A limit that is given is not 0.
abbrev pub NotZero : Option Number → Type 0
NotZero l = ¬ (l ≡ some (Number.number 0))

read_limit-bound :
    (l : Option Number) (n : ℕ) → NotZero l → read_limit l ≡ ok n → (1 ≤ n) × (n ≤ max_runs_limit)
unfolding read_limit
read_limit-bound none n z h = ground arith
read_limit-bound (some Number.no_number) n z h = ground arith
read_limit-bound (some Number.negative) n z h = ground arith
read_limit-bound (some (Number.number zero)) n z h = elim (z refl) [ ]
read_limit-bound (some (Number.number (suc m))) n z h = ground arith

data Done {A B : Type 0} (m : Result (Db × A)) (f : A → Result B) (b : B) : Type 0 where
  done : (db : Db) (a : A) → m ≡ ok (db, a) → f a ≡ ok b → Done m f b

answer_of-Done :
    {A B : Type 0} (db : Db) (m : Result (Db × A)) (f : A → Result B) (b : B)
    → (answer_of db m f).1 ≡ ok b
    → Done m f b
answer_of-Done db panicked f b h = ground arith
answer_of-Done db (err e) f b h = ground arith
answer_of-Done db (ok (db', a)) f b h = done db' a refl h

module _ (like : String → String → Bool) (now : ℕ) (new_id new_value : String → String)
    (q : RunsQuery) (db : Db) where
  abbrev found_runs : Result (List Run)
  found_runs = do
    limit ← read_limit q.limit
    start ← read_start q.start
    ok (get_runs like q.groups q.phases q.results start limit q.asc db)

  abbrev with_token : Result (Db × (List Run × ChangeGroupsUpdateToken))
  with_token = do
    rs ← found_runs
    (db', t) ← get_change_groups_update_tokens now new_id new_value q.change_groups db
    ok (db', (rs, t))

  length-get_runs :
      (limit start : ℕ)
      → 1 ≤ limit
      → length (get_runs like q.groups q.phases q.results start limit q.asc db) ≤ limit
  unfolding get_runs
  length-get_runs limit start h = length-limit_to limit _ h

  found_runs-bound :
      (rs : List Run) → NotZero q.limit → found_runs ≡ ok rs → length rs ≤ max_runs_limit
  found_runs-bound rs z h = elim (>>=-Bound (read_limit q.limit) _ h) [
    | bound n e k ↦ elim (>>=-Bound (read_start q.start) _ k) [
      | bound s f l ↦
          let same : get_runs like q.groups q.phases q.results s n q.asc db ≡ rs = ground arith in
          let (pos, le) = read_limit-bound q.limit n z e in
          subst (λ x. length x ≤ max_runs_limit) same (omega (arith, length-get_runs n s pos))
    ]
  ]

  -- RunsHandler answers at most MaxRunsLimit runs to a request whose limit is not 0, given or not.
  pub runs_handler-bound :
      (resp : RunsResponse)
      → NotZero q.limit
      → (runs_handler like now new_id new_value q db).1 ≡ ok resp
      → length resp.runs ≤ max_runs_limit
  unfolding runs_handler
  runs_handler-bound resp z h =
      elim (answer_of-Done db with_token
        (λ (rs, t). ok (record { runs = rs; change_groups_update_token = t })) resp h) [
          | done db' (rs, t) e f ↦ elim (>>=-Bound found_runs _ e) [
            | bound rs' g k ↦
                elim (>>=-Bound
                  (get_change_groups_update_tokens now new_id new_value q.change_groups db) _ k) [
                    | bound (db'', t') l m ↦
                        let same : rs' ≡ resp.runs = ground arith in
                        subst (λ x. length x ≤ max_runs_limit) same (found_runs-bound rs' z g)
                  ]
          ]
        ]
