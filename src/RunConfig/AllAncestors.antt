-- ===== src/RunConfig/AllAncestors.antt =====
-- That GetAllParents of internal/runconfig/runconfig.go misses no ancestor.
use agola.Prelude.{
  ℕ, zero, suc, ◌+◌, String, ◌==◌, eq_iff, ◌≡◌, ◌↔◌, refl, sym, ap, subst, true, false, List, [],
  ◌∷◌, ◌++◌, some, Map, values, has_key, insert, length, Memᴰ, filter-mem, Bool-cases, ◌⊎◌, inl,
  inr, arith,
}
use agola.Types.{RunConfigTask}
use agola.RunConfig.Graph.{
  depends_on, get_parents, collect_parents, all_parents_loop, get_all_parents?, get_all_parents,
  Ancestor, direct, above,
}
use agola.RunConfig.Ancestors.{has_key-insert, values-insert, get_all_parents_ends}

mem-left : {x : RunConfigTask} (xs ys : List RunConfigTask) → Memᴰ x xs → Memᴰ x (xs ++ ys)
mem-left [] ys i = elim i [ ]
mem-left (y ∷ xs) ys (Memᴰ.head e) = Memᴰ.head e
mem-left (y ∷ xs) ys (Memᴰ.tail i) = Memᴰ.tail (mem-left xs ys i)

mem-right : {x : RunConfigTask} (xs ys : List RunConfigTask) → Memᴰ x ys → Memᴰ x (xs ++ ys)
mem-right [] ys i = i
mem-right (y ∷ xs) ys i = Memᴰ.tail (mem-right xs ys i)

insert-mem :
    (k : String) (v : RunConfigTask) (m : Map RunConfigTask) → Memᴰ v (values (insert k v m))
unfolding insert
insert-mem k v [] = Memᴰ.head refl
insert-mem k v ((j, w) ∷ m) = elim (Bool-cases (j == k)) [
  | inl hit ↦ rw (insert, hit) (Memᴰ.head refl)
  | inr miss ↦ rw (insert, miss) (Memᴰ.tail (insert-mem k v m))
]

mem-insert :
    (k : String) (v : RunConfigTask) (m : Map RunConfigTask) {x : RunConfigTask}
    → has_key k m ≡ false
    → Memᴰ x (values m)
    → Memᴰ x (values (insert k v m))
unfolding insert has_key
mem-insert k v [] h i = elim i [ ]
mem-insert k v ((j, w) ∷ m) {x} h i = elim (Bool-cases (j == k)) [
  | inl hit ↦ absurd (ground arith)
  | inr miss ↦ rw (insert, miss) (put (mem-insert k v m {x = x} (rw miss at h)) i)
]
  where
    put :
        (Memᴰ x (values m) → Memᴰ x (values (insert k v m)))
        → Memᴰ x (w ∷ values m)
        → Memᴰ x (w ∷ values (insert k v m))
    put f (Memᴰ.head e) = Memᴰ.head e
    put f (Memᴰ.tail l) = Memᴰ.tail (f l)

-- In the map, or among those that are still to be looked at.
abbrev Known : Map RunConfigTask → List RunConfigTask → List RunConfigTask → RunConfigTask → Type 0
Known m ps next y = (has_key y.id m ≡ true) ⊎ (Memᴰ y ps ⊎ Memᴰ y next)

-- Between two looks: `ps` and `next` are the tasks still to be looked at.
record Search (rcts : Map RunConfigTask) (t : RunConfigTask) (m : Map RunConfigTask)
    (ps next : List RunConfigTask) : Type 0 where
  pub starts : (y : RunConfigTask) → Memᴰ y (get_parents rcts t) → Known m ps next y
  pub parents :
      (x y : RunConfigTask) → Memᴰ x (values m) → Memᴰ y (get_parents rcts x) → Known m ps next y
  pub stored :
      (k : String) → has_key k m ≡ true → (x : RunConfigTask) × Memᴰ x (values m) × (x.id ≡ k)

module _ (rcts : Map RunConfigTask) (t : RunConfigTask) where
  Search-map :
      (m : Map RunConfigTask) (ps next qs more : List RunConfigTask)
      → ((y : RunConfigTask) → Known m ps next y → Known m qs more y)
      → Search rcts t m ps next
      → Search rcts t m qs more
  Search-map m ps next qs more f s = record {
    starts = λ y i. f y (s.starts y i);
    parents = λ x y i j. f y (s.parents x y i j);
    stored = s.stored;
  }

  seen-Known :
      (p : RunConfigTask) (m : Map RunConfigTask) (ps next : List RunConfigTask) (y : RunConfigTask)
      → has_key p.id m ≡ true
      → Known m (p ∷ ps) next y
      → Known m ps next y
  seen-Known p m ps next y h (inl k) = inl k
  seen-Known p m ps next y h (inr (inl (Memᴰ.head e))) =
      inl (subst (λ (x : RunConfigTask). has_key x.id m ≡ true) (sym e) h)
  seen-Known p m ps next y h (inr (inl (Memᴰ.tail i))) = inr (inl i)
  seen-Known p m ps next y h (inr (inr i)) = inr (inr i)

  fresh-Known :
      (p : RunConfigTask) (m : Map RunConfigTask) (ps next : List RunConfigTask) (y : RunConfigTask)
      → Known m (p ∷ ps) next y
      → Known (insert p.id p m) ps (next ++ get_parents rcts p) y
  fresh-Known p m ps next y (inl k) = inl (ground (arith, has_key-insert p.id y.id p m))
  fresh-Known p m ps next y (inr (inl (Memᴰ.head e))) = inl (
      ground (
        arith,
        has_key-insert p.id y.id p m,
        (eq_iff p.id y.id).1 (sym (ap (λ (x : RunConfigTask). x.id) e)),
      ))
  fresh-Known p m ps next y (inr (inl (Memᴰ.tail i))) = inr (inl i)
  fresh-Known p m ps next y (inr (inr i)) = inr (inr (mem-left next (get_parents rcts p) i))

  fresh-Search :
      (p : RunConfigTask) (m : Map RunConfigTask) (ps next : List RunConfigTask)
      → has_key p.id m ≡ false
      → Search rcts t m (p ∷ ps) next
      → Search rcts t (insert p.id p m) ps (next ++ get_parents rcts p)
  fresh-Search p m ps next h s = record {
    starts = λ y i. fresh-Known p m ps next y (s.starts y i);
    parents = λ x y i j. elim (values-insert p.id p m x i) [
      | inl e ↦
          inr (
            inr
              (mem-right next (get_parents rcts p) (subst (λ z. Memᴰ y (get_parents rcts z)) e j)))
      | inr old ↦ fresh-Known p m ps next y (s.parents x y old j)
    ];
    stored = λ k q. elim (Bool-cases (p.id == k)) [
      | inl hit ↦ (p, insert-mem p.id p m, (eq_iff p.id k).0 hit)
      | inr miss ↦
          let (x, i, e) = s.stored k (ground (arith, has_key-insert p.id k p m)) in
          (x, mem-insert p.id p m h i, e)
    ];
  }

  collect_parents-Search :
      (ps : List RunConfigTask) (m : Map RunConfigTask) (next : List RunConfigTask)
      → Search rcts t m ps next
      → Search rcts t (collect_parents rcts ps m next).0 [] (collect_parents rcts ps m next).1
  unfolding collect_parents
  collect_parents-Search [] m next s = s
  collect_parents-Search (p ∷ ps) m next s = elim (Bool-cases (has_key p.id m)) [
    | inl seen ↦
        rw (seen, collect_parents)
          (collect_parents-Search ps m next
            (Search-map m (p ∷ ps) next ps next (λ y. seen-Known p m ps next y seen) s))
    | inr fresh ↦
        rw (fresh, collect_parents)
          (collect_parents-Search ps (insert p.id p m) (next ++ get_parents rcts p)
            (fresh-Search p m ps next fresh s))
  ]

  all_parents_loop-Search :
      (fuel : ℕ) (m : Map RunConfigTask) (next : List RunConfigTask) (p_map : Map RunConfigTask)
      → all_parents_loop fuel rcts m next ≡ some p_map
      → Search rcts t m next []
      → Search rcts t p_map [] []
  unfolding all_parents_loop
  all_parents_loop-Search zero m next p_map h s = absurd (ground arith)
  all_parents_loop-Search (suc fuel) m [] p_map h s =
      let e : m ≡ p_map = ground arith in subst (λ x. Search rcts t x [] []) e s
  all_parents_loop-Search (suc fuel) m (p ∷ ps) p_map h s =
      let o = collect_parents rcts (p ∷ ps) m [] in
      all_parents_loop-Search fuel o.0 o.1 p_map h
        (Search-map o.0 [] o.1 o.1 [] (swap o.0 o.1) (collect_parents-Search (p ∷ ps) m [] s))
    where
      swap :
          (m' : Map RunConfigTask) (more : List RunConfigTask) (y : RunConfigTask)
          → Known m' [] more y
          → Known m' more [] y
      swap m' more y (inl k) = inl k
      swap m' more y (inr (inl i)) = elim i [ ]
      swap m' more y (inr (inr i)) = inr (inl i)

-- Two tasks with one id are the same task.
abbrev pub UniqueIds : Map RunConfigTask → Type 0
UniqueIds rcts =
    (x y : RunConfigTask) → Memᴰ x (values rcts) → Memᴰ y (values rcts) → x.id ≡ y.id → x ≡ y

Ancestor-mem :
    {rcts : Map RunConfigTask} {t p : RunConfigTask} → Ancestor rcts t p → Memᴰ p (values rcts)
unfolding get_parents
Ancestor-mem {rcts} {t} (direct i) = (filter-mem (depends_on t) (values rcts) i).0
Ancestor-mem {rcts} (above {p = p} a i) = (filter-mem (depends_on p) (values rcts) i).0

module _ (rcts : Map RunConfigTask) (t : RunConfigTask) (p_map : Map RunConfigTask)
    (unique : UniqueIds rcts)
    (sound : (p : RunConfigTask) → Memᴰ p (values p_map) → Ancestor rcts t p)
    (s : Search rcts t p_map [] []) where
  found : {y : RunConfigTask} → Known p_map [] [] y → has_key y.id p_map ≡ true
  found (inl k) = k
  found (inr (inl i)) = elim i [ ]
  found (inr (inr i)) = elim i [ ]

  stored-mem :
      (p : RunConfigTask) → Ancestor rcts t p → has_key p.id p_map ≡ true → Memᴰ p (values p_map)
  stored-mem p a h =
      let (x, i, e) = s.stored p.id h in
      subst (λ z. Memᴰ z (values p_map)) (unique x p (Ancestor-mem (sound x i)) (Ancestor-mem a) e)
        i

  Ancestor-found : {p : RunConfigTask} → Ancestor rcts t p → has_key p.id p_map ≡ true
  Ancestor-found (direct {p = p} i) = found {y = p} (s.starts p i)
  Ancestor-found (above {p = p} {q = q} a i) =
      found {y = q} (s.parents p q (stored-mem p a (Ancestor-found a)) i)

-- If no two tasks have one id, GetAllParents returns exactly the ancestors of a task: its parents, and
-- the parents of its ancestors, in a graph with circular dependencies too.
pub get_all_parents-Ancestor :
    (rcts : Map RunConfigTask) (t p : RunConfigTask)
    → UniqueIds rcts
    → Memᴰ p (get_all_parents rcts t) ↔ Ancestor rcts t p
unfolding get_all_parents get_all_parents? has_key
get_all_parents-Ancestor rcts t p unique =
    let (p_map, e, sound) = get_all_parents_ends rcts t in
    let s =
      all_parents_loop-Search rcts t (length rcts + 2) [] (get_parents rcts t) p_map e record {
        starts = λ y i. inr (inl i);
        parents = λ x y i j. elim i [ ];
        stored = λ k h. absurd (no_key k h);
      } in
    (
      λ m. sound p (rw (get_all_parents, e) at m),
      λ a.
          rw (get_all_parents, e)
            (stored-mem rcts t p_map unique sound s p a
              (Ancestor-found rcts t p_map unique sound s a)),
    )
  where
    no_key : (k : String) → has_key {V = RunConfigTask} k [] ≡ true → ⊥
    no_key k h = ground arith
