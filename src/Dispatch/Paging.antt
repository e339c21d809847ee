-- ===== src/Dispatch/Paging.antt =====
-- The pages of the queued runs that `schedule` of internal/services/scheduler/scheduler.go asks for,
-- against the query without a limit: lemmas on sorted lists of runs.
use agola.Prelude.{
  ℕ, zero, suc, ◌<◌, ◌≤◌, ◌≡◌, refl, ap, sym, ◌∙◌, subst, Bool, true, false, List, [], ◌∷◌, ◌++◌,
  Memᴰ, filter, filter-mem, length, leb, ltb, Bool-cases, inl, inr, arith,
}
use agola.Types.{Run}
use agola.Api.Queries.{insert_ordered, order_by, sort_order, is_after, take}
use agola.Dispatch.Schedule.{last_sequence}
use agola.Dispatch.Ordering.{ordered, insert_run_ordered, mem-insert_ordered, mem-order_by}

-- Each run has a lower sequence than those after it.
abbrev pub Rising : List Run → Type 0
Rising [] = Unit
Rising (r ∷ rs) = ((s : Run) → Memᴰ s rs → r.sequence < s.sequence) × Rising rs

-- No two runs of a list have the same sequence.
abbrev pub DistinctSequences : List Run → Type 0
DistinctSequences [] = Unit
DistinctSequences (r ∷ rs) =
    ((s : Run) → Memᴰ s rs → ¬ (r.sequence ≡ s.sequence)) × DistinctSequences rs

insert_ordered-Rising :
    (r : Run) (rs : List Run)
    → Rising rs
    → ((s : Run) → Memᴰ s rs → ¬ (r.sequence ≡ s.sequence))
    → Rising (insert_run_ordered r rs)
unfolding insert_ordered
insert_ordered-Rising r [] h d = (λ s i. elim i [ ], tt)
insert_ordered-Rising r (x ∷ rs) (lt, h) d = elim (Bool-cases (leb r.sequence x.sequence)) [
  | inl e ↦ rw (insert_ordered, e) (below e, (lt, h))
  | inr e ↦
      rw (insert_ordered, e)
        (
          λ s i. above e s (mem-insert_ordered (sort_order true) (λ r. r.sequence) r s rs i),
          insert_ordered-Rising r rs h (λ s i. d s (Memᴰ.tail i)),
        )
]
  where
    differs : ¬ (r.sequence ≡ x.sequence)
    differs = d x (Memᴰ.head refl)

    below : leb r.sequence x.sequence ≡ true → (s : Run) → Memᴰ s (x ∷ rs) → r.sequence < s.sequence
    below e s (Memᴰ.head q) =
        subst (λ (y : Run). r.sequence < y.sequence) (sym q) (ground (arith, differs))
    below e s (Memᴰ.tail i) = ground (arith, lt s i, differs)

    above :
        leb r.sequence x.sequence ≡ false → (s : Run) → Memᴰ s (r ∷ rs) → x.sequence < s.sequence
    above e s (Memᴰ.head q) = subst (λ (y : Run). x.sequence < y.sequence) (sym q) (ground arith)
    above e s (Memᴰ.tail i) = lt s i

pub ordered-Rising : (rs : List Run) → DistinctSequences rs → Rising (ordered rs)
unfolding order_by
ordered-Rising [] d = tt
ordered-Rising (r ∷ rs) (n, d) =
    insert_ordered-Rising r (ordered rs) (ordered-Rising rs d)
      (λ s i. n s (mem-order_by (sort_order true) (λ r. r.sequence) s rs i))

insert_ordered-first :
    (r : Run) (rs : List Run)
    → ((s : Run) → Memᴰ s rs → r.sequence ≤ s.sequence)
    → insert_run_ordered r rs ≡ r ∷ rs
unfolding insert_ordered
insert_ordered-first r [] h = refl
insert_ordered-first r (x ∷ rs) h =
    let e : leb r.sequence x.sequence ≡ true = ground (arith, h x (Memᴰ.head refl)) in
    rw (insert_ordered, e) refl

module _ (p : Run → Bool) where
  insert_ordered-kept :
      (r : Run) (rs : List Run)
      → p r ≡ true
      → Rising rs
      → filter p (insert_run_ordered r rs) ≡ insert_run_ordered r (filter p rs)
  unfolding insert_ordered
  insert_ordered-kept r [] e h = rw (e, filter) refl
  insert_ordered-kept r (x ∷ rs) e (lt, h) = elim (Bool-cases (leb r.sequence x.sequence)) [
    | inl f ↦
        let g =
          insert_ordered-first r (filter p (x ∷ rs))
            (λ s i. before f s (filter-mem p (x ∷ rs) i).0) in
        subst (λ y. filter p (insert_run_ordered r (x ∷ rs)) ≡ y) (sym g)
          (rw (insert_ordered, f, e) refl)
    | inr f ↦ ground (arith, insert_ordered-kept r rs e h)
  ]
    where
      before :
          leb r.sequence x.sequence ≡ true → (s : Run) → Memᴰ s (x ∷ rs) → r.sequence ≤ s.sequence
      before f s (Memᴰ.head q) = subst (λ (y : Run). r.sequence ≤ y.sequence) (sym q) (ground arith)
      before f s (Memᴰ.tail i) = ground (arith, lt s i)

  insert_ordered-dropped :
      (r : Run) (rs : List Run) → p r ≡ false → filter p (insert_run_ordered r rs) ≡ filter p rs
  unfolding insert_ordered
  insert_ordered-dropped r [] e = rw (e, filter) refl
  insert_ordered-dropped r (x ∷ rs) e = ground (arith, insert_ordered-dropped r rs e)

  -- The order of a query and its conditions can be taken in any order.
  pub ordered-filter :
      (rs : List Run) → DistinctSequences rs → ordered (filter p rs) ≡ filter p (ordered rs)
  unfolding order_by
  ordered-filter [] d = refl
  ordered-filter (r ∷ rs) (n, d) = elim (Bool-cases (p r)) [
    | inl e ↦
        rw (e, filter)
          (ap (insert_run_ordered r) (ordered-filter rs d)
            ∙ sym (insert_ordered-kept r (ordered rs) e (ordered-Rising rs d)))
    | inr e ↦ rw (e, filter) (ordered-filter rs d ∙ sym (insert_ordered-dropped r (ordered rs) e))
  ]

-- What is left of a list after its first `n` elements.
unfoldable pub drop : ℕ → List Run → List Run
drop zero rs = rs
drop (suc n) [] = []
drop (suc n) (r ∷ rs) = drop n rs

pub take-drop : (n : ℕ) (rs : List Run) → take n rs ++ drop n rs ≡ rs
unfolding take drop
take-drop zero rs = refl
take-drop (suc n) [] = refl
take-drop (suc n) (r ∷ rs) = ap (λ x. r ∷ x) (take-drop n rs)

pub length-drop : (n : ℕ) (rs : List Run) → length (drop n rs) ≤ length rs
unfolding drop
length-drop zero rs = omega arith
length-drop (suc n) [] = omega arith
length-drop (suc n) (r ∷ rs) = omega (arith, length-drop n rs)

abbrev pub after : ℕ → Run → Bool
after start r = is_after true start r.sequence

pub filter_all :
    (p : Run → Bool) (rs : List Run) → ((s : Run) → Memᴰ s rs → p s ≡ true) → filter p rs ≡ rs
filter_all p [] h = refl
filter_all p (r ∷ rs) h =
    rw (h r (Memᴰ.head refl), filter) (ap (λ x. r ∷ x) (filter_all p rs (λ s i. h s (Memᴰ.tail i))))

is_after-ltb : (start key : ℕ) → 1 ≤ start → is_after true start key ≡ ltb start key
is_after-ltb zero key h = ground arith
is_after-ltb (suc start) key h = refl

pub last_sequence-bound :
    (n : ℕ) (r : Run) (rs : List Run) → Rising (r ∷ rs) → r.sequence ≤ last_sequence r (take n rs)
unfolding take last_sequence
last_sequence-bound zero r rs h = omega arith
last_sequence-bound (suc n) r [] h = omega arith
last_sequence-bound (suc n) r (s ∷ rs) (lt, h) =
    omega (arith, last_sequence-bound n s rs h, lt s (Memᴰ.head refl))

-- After the last sequence of a page come the runs that the page has left out.
pub after_page :
    (n : ℕ) (r : Run) (rs : List Run)
    → Rising (r ∷ rs)
    → 1 ≤ r.sequence
    → filter (after (last_sequence r (take n rs))) (r ∷ rs) ≡ drop n rs
unfolding take drop last_sequence
after_page zero r rs (lt, h) pos =
    let own : after r.sequence r ≡ false = ground (arith, is_after-ltb r.sequence r.sequence pos) in
    rw (own, filter)
      (filter_all (after r.sequence) rs
        (λ s i. ground (arith, is_after-ltb r.sequence s.sequence pos, lt s i)))
after_page (suc n) r [] (lt, h) pos =
    let own : after r.sequence r ≡ false = ground (arith, is_after-ltb r.sequence r.sequence pos) in
    rw (own, filter) refl
after_page (suc n) r (s ∷ rs) (lt, h) pos =
    let next = lt s (Memᴰ.head refl) in
    let bound = last_sequence-bound n s rs h in
    let own : after (last_sequence s (take n rs)) r ≡ false =
      ground (arith, is_after-ltb (last_sequence s (take n rs)) r.sequence, bound, next) in
    rw (own, filter) (after_page n s rs h (omega (arith, next)))
