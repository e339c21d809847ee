-- ===== src/Dispatch/Ordering.antt =====
-- The order of the answers of internal/services/runservice/db/db.go, as `insert_ordered` and `order_by`
-- of Api/Queries.antt make it.
use agola.Prelude.{
  ℕ, ◌≤◌, ◌≡◌, refl, sym, subst, Bool, true, List, [], ◌∷◌, Memᴰ, leb, Bool-cases, inl, inr, arith,
}
use agola.Types.{Run}
use agola.Api.Queries.{insert_ordered, order_by, sort_order}

module _ (before : ℕ → ℕ → Bool) (key : Run → ℕ) where
  pub order_by-nil : (rs : List Run) → order_by before key rs ≡ [] → rs ≡ []
  unfolding order_by
  order_by-nil [] h = refl
  order_by-nil (r ∷ rs) h = not_nil (order_by before key rs) h
    where
      not_nil : (xs : List Run) → insert_ordered before key r xs ≡ [] → r ∷ rs ≡ []
      not_nil [] h = ground arith
      not_nil (x ∷ xs) h = ground arith

  pub mem-insert_ordered :
      (r s : Run) (rs : List Run) → Memᴰ s (insert_ordered before key r rs) → Memᴰ s (r ∷ rs)
  unfolding insert_ordered
  mem-insert_ordered r s [] i = i
  mem-insert_ordered r s (x ∷ rs) i = elim (Bool-cases (before (key r) (key x))) [
    | inl e ↦ rw (insert_ordered, e) at i
    | inr e ↦ later (rw (insert_ordered, e) at i) (mem-insert_ordered r s rs)
  ]
    where
      later :
          Memᴰ s (x ∷ insert_ordered before key r rs)
          → (Memᴰ s (insert_ordered before key r rs) → Memᴰ s (r ∷ rs))
          → Memᴰ s (r ∷ x ∷ rs)
      later (Memᴰ.head q) ih = Memᴰ.tail (Memᴰ.head q)
      later (Memᴰ.tail j) ih = elim (ih j) [
        | Memᴰ.head q ↦ Memᴰ.head q
        | Memᴰ.tail k ↦ Memᴰ.tail (Memᴰ.tail k)
      ]

  pub mem-order_by : (s : Run) (rs : List Run) → Memᴰ s (order_by before key rs) → Memᴰ s rs
  unfolding order_by
  mem-order_by s [] i = i
  mem-order_by s (r ∷ rs) i = elim (mem-insert_ordered r s (order_by before key rs) i) [
    | Memᴰ.head q ↦ Memᴰ.head q
    | Memᴰ.tail j ↦ Memᴰ.tail (mem-order_by s rs j)
  ]

abbrev pub ordered : List Run → List Run
unfolding order_by
ordered rs = order_by (sort_order true) (λ r. r.sequence) rs

abbrev pub insert_run_ordered : Run → List Run → List Run
unfolding insert_ordered
insert_run_ordered r rs = insert_ordered (sort_order true) (λ r. r.sequence) r rs

insert_ordered-least :
    (r h : Run) (rs t : List Run)
    → insert_run_ordered r rs ≡ h ∷ t
    → (h.sequence ≤ r.sequence)
      × ((x : Run) (xs : List Run) → rs ≡ x ∷ xs → h.sequence ≤ x.sequence)
unfolding insert_ordered
insert_ordered-least r h [] t e = (ground arith, λ x xs q. ground arith)
insert_ordered-least r h (y ∷ rs) t e = elim (Bool-cases (leb r.sequence y.sequence)) [
  | inl f ↦ (ground arith, λ x xs q. ground arith)
  | inr f ↦ (ground arith, λ x xs q. ground arith)
]

-- The head of a list in order is a least element.
pub ordered-least :
    (h : Run) (rs t : List Run)
    → ordered rs ≡ h ∷ t
    → (s : Run) → Memᴰ s rs
    → h.sequence ≤ s.sequence
unfolding order_by
ordered-least h [] t e s i = elim i [ ]
ordered-least h (r ∷ rs) t e s (Memᴰ.head q) =
    subst (λ (y : Run). h.sequence ≤ y.sequence) (sym q)
      (insert_ordered-least r h (ordered rs) t e).0
ordered-least h (r ∷ rs) t e s (Memᴰ.tail i) =
    by_head (ordered rs) refl (λ x xs q. ordered-least x rs xs q s i)
  where
    by_head :
        (l : List Run)
        → ordered rs ≡ l
        → ((x : Run) (xs : List Run) → ordered rs ≡ x ∷ xs → x.sequence ≤ s.sequence)
        → h.sequence ≤ s.sequence
    by_head [] q ih =
        let none : rs ≡ [] = order_by-nil (sort_order true) (λ r. r.sequence) rs q in
        elim (subst (λ l. Memᴰ s l) none i) [ ]
    by_head (x ∷ xs) q ih =
        omega (arith, ih x xs q, (insert_ordered-least r h (ordered rs) t e).1 x xs q)
