-- ===== src/RunConfig/Levels/Round.antt =====
-- One round of GenTasksLevels of internal/runconfig/runconfig.go, and the tasks as they were at its
-- start.
use mathlib.Core.List.{append_assoc, append-nil}
use agola.Prelude.{
  String, ℕ, suc, ◌+◌, ◌≤◌, ◌≡◌, refl, ◌∙◌, sym, ap, ap₂, has_key, subst, Bool, true, false, not,
  ◌&&◌, ◌||◌, List, [], ◌∷◌, ◌++◌, Map, values, map_values, filter, all, arith, Bool-cases, inl,
  inr, if◌then◌else◌,
}
use agola.Types.{RunConfigTask, Level}
use agola.RunConfig.Graph.{depends_on, get_parents}
use agola.RunConfig.Levels.{is_below, is_unset, level_ready, level_round}

abbrev pub ready : ℕ → Map RunConfigTask → RunConfigTask → Bool
ready lvl rcts t = all (λ p. not (depends_on t p) || is_below lvl p.level) (values rcts)

all-filter {ℓ} :
    {A : Type ℓ} (p q : A → Bool) (xs : List A)
    → all p (filter q xs) ≡ all (λ x. not (q x) || p x) xs
all-filter p q [] = refl
all-filter p q (x ∷ xs) = ground (arith, all-filter p q xs)

pub level_ready-ready :
    (lvl : ℕ) (rcts : Map RunConfigTask) (t : RunConfigTask)
    → level_ready lvl rcts t ≡ ready lvl rcts t
unfolding level_ready get_parents
level_ready-ready lvl rcts t = all-filter (λ p. is_below lvl p.level) (depends_on t) (values rcts)

-- The task after the round that starts with `rcts`.
abbrev pub mark : ℕ → Map RunConfigTask → RunConfigTask → RunConfigTask
mark lvl rcts t =
    if is_unset t.level && ready lvl rcts t then record t { level = Level.level lvl } else t

is_unset-eq : (l : Level) → is_unset l ≡ true → l ≡ Level.unset
is_unset-eq Level.unset h = refl
is_unset-eq (Level.level n) h = cc

-- A level that the round sets is below no level that is tested in the round or before.
pub is_below-mark :
    (n lvl : ℕ) (rcts : Map RunConfigTask) (p : RunConfigTask)
    → n ≤ lvl
    → is_below n (mark lvl rcts p).level ≡ is_below n p.level
is_below-mark n lvl rcts p h = elim (Bool-cases (is_unset p.level && ready lvl rcts p)) [
  | inl hit ↦ let e = is_unset-eq p.level (ground arith) in rw (hit, e) (ground arith)
  | inr miss ↦ rw miss
]

pub mark-id : (lvl : ℕ) (rcts : Map RunConfigTask) (p : RunConfigTask) → (mark lvl rcts p).id ≡ p.id
mark-id lvl rcts p = elim (Bool-cases (is_unset p.level && ready lvl rcts p)) [
  | inl hit ↦ rw hit
  | inr miss ↦ rw miss
]

pub ready-marked :
    (n lvl : ℕ) (rcts D : Map RunConfigTask) (t : RunConfigTask)
    → n ≤ lvl
    → ready n (map_values (mark lvl rcts) D) t ≡ ready n D t
ready-marked n lvl rcts [] t h = refl
ready-marked n lvl rcts ((k, p) ∷ D) t h =
    ap₂ ◌&&◌
      (ap₂ (λ i b. not (has_key i t.depends) || b) (mark-id lvl rcts p)
        (is_below-mark n lvl rcts p h))
      (ready-marked n lvl rcts D t h)

-- What is ready over two pieces of a map.
ready-append :
    (lvl : ℕ) (D E : Map RunConfigTask) (t : RunConfigTask)
    → ready lvl (D ++ E) t ≡ (ready lvl D t && ready lvl E t)
ready-append lvl [] E t = refl
ready-append lvl ((k, p) ∷ D) E t = ground (arith, ready-append lvl D E t)

map_values-append :
    (f : RunConfigTask → RunConfigTask) (D E : Map RunConfigTask)
    → map_values f (D ++ E) ≡ map_values f D ++ map_values f E
map_values-append f [] E = refl
map_values-append f ((k, p) ∷ D) E = ap (◌∷◌ (k, f p)) (map_values-append f D E)

-- The tasks that the round gives a level to.
abbrev pub new_levels : ℕ → Map RunConfigTask → Map RunConfigTask → ℕ
new_levels lvl rcts [] = 0
new_levels lvl rcts ((k, t) ∷ E) =
    let rest = new_levels lvl rcts E in
    if is_unset t.level && ready lvl rcts t then suc rest else rest

ready_now :
    (lvl : ℕ) (D E : Map RunConfigTask) (t : RunConfigTask)
    → level_ready lvl (map_values (mark lvl (D ++ E)) D ++ E) t ≡ ready lvl (D ++ E) t
ready_now lvl D E t =
    level_ready-ready lvl (map_values (mark lvl (D ++ E)) D ++ E) t
    ∙ ready-append lvl (map_values (mark lvl (D ++ E)) D) E t
    ∙ ap (λ b. b && ready lvl E t) (ready-marked lvl lvl (D ++ E) D t (omega arith))
    ∙ sym (ready-append lvl D E t)

module _ (lvl : ℕ) (done E : Map RunConfigTask) (k : String) (t : RunConfigTask) (c : ℕ) where
  round_set :
      is_unset t.level ≡ false
      → level_round lvl done ((k, t) ∷ E) c ≡ level_round lvl (done ++ (k, t) ∷ []) E c
  unfolding level_round
  round_set h = rw (h, level_round)

  round_not_ready :
      is_unset t.level ≡ true
      → level_ready lvl (done ++ (k, t) ∷ E) t ≡ false
      → level_round lvl done ((k, t) ∷ E) c ≡ level_round lvl (done ++ (k, t) ∷ []) E c
  unfolding level_round
  round_not_ready h r = rw (h, level_round, r)

  round_ready :
      is_unset t.level ≡ true
      → level_ready lvl (done ++ (k, t) ∷ E) t ≡ true
      → level_round lvl done ((k, t) ∷ E) c
        ≡ level_round lvl (done ++ (k, record t { level = Level.level lvl }) ∷ []) E (suc c)
  unfolding level_round
  round_ready h r = rw (h, level_round, r)

mark_kept :
    (lvl : ℕ) (rcts : Map RunConfigTask) (t : RunConfigTask)
    → (is_unset t.level && ready lvl rcts t) ≡ false
    → mark lvl rcts t ≡ t
mark_kept lvl rcts t h = rw h

mark_set :
    (lvl : ℕ) (rcts : Map RunConfigTask) (t : RunConfigTask)
    → (is_unset t.level && ready lvl rcts t) ≡ true
    → mark lvl rcts t ≡ record t { level = Level.level lvl }
mark_set lvl rcts t h = rw h

-- What the round is to leave behind, from an entry on with the count `c`.
abbrev round_result : ℕ → Map RunConfigTask → Map RunConfigTask → ℕ → Map RunConfigTask × ℕ
round_result lvl rcts E c = (map_values (mark lvl rcts) rcts, c + new_levels lvl rcts E)

round_entry :
    (lvl : ℕ) (rcts D E : Map RunConfigTask) (k : String) (t : RunConfigTask) (c : ℕ)
    → rcts ≡ D ++ (k, t) ∷ E
    → ((c₁ : ℕ)
        → level_round lvl (map_values (mark lvl rcts) D ++ (k, mark lvl rcts t) ∷ []) E c₁
          ≡ round_result lvl rcts E c₁)
    → level_round lvl (map_values (mark lvl rcts) D) ((k, t) ∷ E) c
      ≡ round_result lvl rcts ((k, t) ∷ E) c
round_entry lvl rcts D E k t c e next = elim (Bool-cases (is_unset t.level && ready lvl rcts t)) [
  | inl hit ↦
      round_ready lvl done E k t c (ground arith) (now ∙ ground arith)
      ∙ after (suc c) (mark_set lvl rcts t hit)
      ∙ ap (λ n. (map_values (mark lvl rcts) rcts, n)) (rw hit (omega arith))
  | inr miss ↦
      kept miss
      ∙ after c (mark_kept lvl rcts t miss)
      ∙ ap (λ n. (map_values (mark lvl rcts) rcts, n)) (rw miss)
]
  where
    done : Map RunConfigTask
    done = map_values (mark lvl rcts) D

    now : level_ready lvl (done ++ (k, t) ∷ E) t ≡ ready lvl rcts t
    now =
        subst (λ x. level_ready lvl (map_values (mark lvl x) D ++ (k, t) ∷ E) t ≡ ready lvl x t)
          (sym e) (ready_now lvl D ((k, t) ∷ E) t)

    after :
        (c₁ : ℕ) {x : RunConfigTask}
        → mark lvl rcts t ≡ x
        → level_round lvl (done ++ (k, x) ∷ []) E c₁ ≡ round_result lvl rcts E c₁
    after c₁ q =
        subst (λ x. level_round lvl (done ++ (k, x) ∷ []) E c₁ ≡ round_result lvl rcts E c₁) q
          (next c₁)

    kept :
        (is_unset t.level && ready lvl rcts t) ≡ false
        → level_round lvl done ((k, t) ∷ E) c ≡ level_round lvl (done ++ (k, t) ∷ []) E c
    kept miss = elim (Bool-cases (is_unset t.level)) [
      | inl unset ↦ round_not_ready lvl done E k t c unset (now ∙ ground arith)
      | inr set ↦ round_set lvl done E k t c set
    ]

pub level_round-mark :
    (lvl : ℕ) (rcts D E : Map RunConfigTask) (c : ℕ)
    → rcts ≡ D ++ E
    → level_round lvl (map_values (mark lvl rcts) D) E c ≡ round_result lvl rcts E c
unfolding level_round
level_round-mark lvl rcts D [] c e =
    let whole : rcts ≡ D = e ∙ append-nil D in
    ap₂ (λ (m : Map RunConfigTask) (n : ℕ). (map_values (mark lvl rcts) m, n)) (sym whole)
      (omega arith)
level_round-mark lvl rcts D ((k, t) ∷ E) c e = round_entry lvl rcts D E k t c e (λ c₁.
    subst (λ m. level_round lvl m E c₁ ≡ round_result lvl rcts E c₁)
      (map_values-append (mark lvl rcts) D ((k, t) ∷ []))
      (level_round-mark lvl rcts (D ++ (k, t) ∷ []) E c₁
        (e ∙ sym (append_assoc D ((k, t) ∷ []) E))))
