-- ===== src/RunConfig/Ancestors.antt =====
-- The search of GetAllParents of internal/runconfig/runconfig.go and the ancestors of a task.
use agola.Prelude.{
  mem-append, ℕ, zero, suc, ◌+◌, ◌≤◌, ◌<◌, String, ◌==◌, eq_iff, ◌≡◌, refl, sym, ap, subst, false,
  ◌||◌, List, [], ◌∷◌, ◌++◌, some, Map, values, has_key, insert, length, Memᴰ, filter-mem,
  Bool-cases, ◌⊎◌, inl, inr, arith, if◌then◌else◌,
}
use agola.Types.{RunConfigTask}
use agola.RunConfig.Graph.{
  depends_on, get_parents, collect_parents, all_parents_loop, get_all_parents?, Ancestor, direct,
  above,
}

-- The tasks of `ts` whose id is not in the map yet.
abbrev unseen : List RunConfigTask → Map RunConfigTask → ℕ
unseen [] m = 0
unseen (t ∷ ts) m = let rest = unseen ts m in if has_key t.id m then rest else suc rest

pub has_key-insert :
    (k j : String) (v : RunConfigTask) (m : Map RunConfigTask)
    → has_key j (insert k v m) ≡ (k == j || has_key j m)
unfolding has_key insert
has_key-insert k j v [] = ground arith
has_key-insert k j v ((i, w) ∷ m) =
    ground (arith, has_key-insert k j v m, eq_iff i k, eq_iff i j, eq_iff k j)

unseen-le :
    (ts : List RunConfigTask) (k : String) (v : RunConfigTask) (m : Map RunConfigTask)
    → unseen ts (insert k v m) ≤ unseen ts m
unseen-le [] k v m = omega arith
unseen-le (t ∷ ts) k v m = ground (arith, unseen-le ts k v m, has_key-insert k t.id v m)

unseen-less :
    (ts : List RunConfigTask) (p v : RunConfigTask) (m : Map RunConfigTask)
    → Memᴰ p ts
    → has_key p.id m ≡ false
    → unseen ts (insert p.id v m) < unseen ts m
unseen-less [] p v m i h = elim i [ ]
unseen-less (t ∷ ts) p v m (Memᴰ.head e) h =
    let same : p.id ≡ t.id = ap (λ (x : RunConfigTask). x.id) e in
    ground (
      arith,
      unseen-le ts p.id v m,
      has_key-insert p.id t.id v m,
      (eq_iff p.id t.id).1 same,
      h,
      same,
    )
unseen-less (t ∷ ts) p v m (Memᴰ.tail i) h =
    ground (arith, unseen-less ts p v m i h, has_key-insert p.id t.id v m)

unseen-length : (ts : List RunConfigTask) → unseen ts [] ≤ length ts
unseen-length [] = omega arith
unseen-length (t ∷ ts) = ground (arith, unseen-length ts)

pub values-insert :
    (k : String) (v : RunConfigTask) (m : Map RunConfigTask) (x : RunConfigTask)
    → Memᴰ x (values (insert k v m))
    → (x ≡ v) ⊎ Memᴰ x (values m)
unfolding insert
values-insert k v [] x (Memᴰ.head e) = inl e
values-insert k v [] x (Memᴰ.tail i) = elim i [ ]
values-insert k v ((j, w) ∷ m) x h = elim (Bool-cases (j == k)) [
  | inl hit ↦ replaced (rw (hit, insert) at h)
  | inr miss ↦ later (values-insert k v m x) (rw (miss, insert) at h)
]
  where
    replaced : Memᴰ x (v ∷ values m) → (x ≡ v) ⊎ Memᴰ x (w ∷ values m)
    replaced (Memᴰ.head e) = inl e
    replaced (Memᴰ.tail i) = inr (Memᴰ.tail i)

    later :
        (Memᴰ x (values (insert k v m)) → (x ≡ v) ⊎ Memᴰ x (values m))
        → Memᴰ x (w ∷ values (insert k v m))
        → (x ≡ v) ⊎ Memᴰ x (w ∷ values m)
    later ih (Memᴰ.head e) = inr (Memᴰ.head e)
    later ih (Memᴰ.tail i) = elim (ih i) [ inl e ↦ inl e | inr t ↦ inr (Memᴰ.tail t) ]

-- All are ancestors of `t` and tasks of `rcts`.
abbrev AreAncestors : Map RunConfigTask → RunConfigTask → List RunConfigTask → Type 0
AreAncestors rcts t ps = (p : RunConfigTask) → Memᴰ p ps → Ancestor rcts t p × Memᴰ p (values rcts)

-- A round that starts with `m` and `next`: what it has found are ancestors, and if it has changed
-- anything then some task was not in the map before.
data Collected (rcts : Map RunConfigTask) (t : RunConfigTask) (m : Map RunConfigTask)
    (next : List RunConfigTask) (o : Map RunConfigTask × List RunConfigTask) : Type 0 where
  collected :
      AreAncestors rcts t (values o.0)
      → AreAncestors rcts t o.1
      → (o ≡ (m, next)) ⊎ (unseen (values rcts) o.0 < unseen (values rcts) m)
      → Collected rcts t m next o

module _ (rcts : Map RunConfigTask) (t : RunConfigTask) where
  grown-ancestors :
      (p : RunConfigTask) (m : Map RunConfigTask)
      → Ancestor rcts t p × Memᴰ p (values rcts)
      → AreAncestors rcts t (values m)
      → AreAncestors rcts t (values (insert p.id p m))
  grown-ancestors p m a am x i = elim (values-insert p.id p m x i) [
    | inl e ↦ subst (λ y. Ancestor rcts t y × Memᴰ y (values rcts)) (sym e) a
    | inr l ↦ am x l
  ]

  parents-ancestors :
      (p : RunConfigTask) (next : List RunConfigTask)
      → Ancestor rcts t p × Memᴰ p (values rcts)
      → AreAncestors rcts t next
      → AreAncestors rcts t (next ++ get_parents rcts p)
  unfolding get_parents
  parents-ancestors p next a an x i = elim (mem-append next (get_parents rcts p) i) [
    | inl l ↦ an x l
    | inr r ↦ (above a.0 r, (filter-mem (depends_on p) (values rcts) r).0)
  ]

  added :
      (p : RunConfigTask) (m : Map RunConfigTask) {ps : List RunConfigTask}
      → AreAncestors rcts t (p ∷ ps)
      → has_key p.id m ≡ false
      → unseen (values rcts) (insert p.id p m) < unseen (values rcts) m
  added p m aps fresh = unseen-less (values rcts) p p m (aps p (Memᴰ.head refl)).1 fresh

  collect_parents-Collected :
      (ps : List RunConfigTask) (m : Map RunConfigTask) (next : List RunConfigTask)
      → AreAncestors rcts t ps
      → AreAncestors rcts t (values m)
      → AreAncestors rcts t next
      → Collected rcts t m next (collect_parents rcts ps m next)
  unfolding collect_parents
  collect_parents-Collected [] m next aps am an = collected am an (inl refl)
  collect_parents-Collected (p ∷ ps) m next aps am an = elim (Bool-cases (has_key p.id m)) [
    | inl seen ↦
        rw (seen, collect_parents)
          (collect_parents-Collected ps m next (λ x i. aps x (Memᴰ.tail i)) am an)
    | inr fresh ↦
        rw (fresh, collect_parents)
          (elim (collect_parents-Collected ps (insert p.id p m) (next ++ get_parents rcts p)
            (λ x i. aps x (Memᴰ.tail i)) (grown-ancestors p m (aps p (Memᴰ.head refl)) am)
            (parents-ancestors p next (aps p (Memᴰ.head refl)) an)) [
              | collected bm bn (inl e) ↦ collected bm bn (
                  inr (
                    subst (λ y. unseen (values rcts) y < unseen (values rcts) m)
                      (sym (ap (λ (z : Map RunConfigTask × List RunConfigTask). z.0) e))
                      (added p m aps fresh)))
              | collected bm bn (inr l) ↦
                  collected bm bn (inr (omega (arith, l, added p m aps fresh)))
            ])
  ]

  -- A round ends the loop or leaves fewer tasks out.
  all_parents_loop-ends :
      (fuel : ℕ) (m : Map RunConfigTask) (next : List RunConfigTask)
      → unseen (values rcts) m + 2 ≤ fuel
      → AreAncestors rcts t (values m)
      → AreAncestors rcts t next
      → (p_map : Map RunConfigTask) × (all_parents_loop fuel rcts m next ≡ some p_map)
        × AreAncestors rcts t (values p_map)
  unfolding all_parents_loop
  all_parents_loop-ends zero m next h am an = absurd (omega (arith, h))
  all_parents_loop-ends (suc fuel) m [] h am an = (m, refl, am)
  all_parents_loop-ends (suc fuel) m (p ∷ ps) h am an =
      elim (collect_parents-Collected (p ∷ ps) m [] an am (λ x i. elim i [ ])) [
        | collected bm bn (inr l) ↦
            all_parents_loop-ends fuel (collect_parents rcts (p ∷ ps) m []).0
              (collect_parents rcts (p ∷ ps) m []).1 (omega (arith, h, l)) bm bn
        | collected bm bn (inl e) ↦ last fuel (omega (arith, h)) e
      ]
    where
      last :
          (fuel : ℕ)
          → 1 ≤ fuel
          → collect_parents rcts (p ∷ ps) m [] ≡ (m, [])
          → (p_map : Map RunConfigTask) × (all_parents_loop (suc fuel) rcts m (p ∷ ps) ≡ some p_map)
            × AreAncestors rcts t (values p_map)
      last zero l e = absurd (omega (arith, l))
      last (suc n) l e = (
        m,
        rw (all_parents_loop, e)
            (ap some (ap (λ (z : Map RunConfigTask × List RunConfigTask). z.0) e)),
        am,
      )

length-values : (m : Map RunConfigTask) → length (values m) ≡ length m
length-values [] = refl
length-values ((k, t) ∷ m) = ap suc (length-values m)

-- The search of GetAllParents comes to an end on any tasks, circular ones included: with two more
-- rounds than there are tasks the fuel is never used up. All the tasks that it finds are ancestors
-- of the task: its parents, or parents of its ancestors.
pub get_all_parents_ends :
    (rcts : Map RunConfigTask) (t : RunConfigTask)
    → (p_map : Map RunConfigTask) × (get_all_parents? rcts t ≡ some p_map)
      × ((p : RunConfigTask) → Memᴰ p (values p_map) → Ancestor rcts t p)
unfolding get_all_parents? get_parents
get_all_parents_ends rcts t =
    let (m, e, a) =
      all_parents_loop-ends rcts t (length rcts + 2) [] (get_parents rcts t)
        (omega (arith, unseen-length (values rcts), length-values rcts)) (λ x i. elim i [ ])
        (λ x i. (direct i, (filter-mem (depends_on t) (values rcts) i).0)) in
    (m, e, λ p i. (a p i).0)
