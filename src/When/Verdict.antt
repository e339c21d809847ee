-- ===== src/When/Verdict.antt =====
-- MatchWhen of services/types/when.go against a description of its verdict.
use agola.Prelude.{
  String, ◌==◌, eq_iff, ◌≡◌, ◌≢◌, ◌↔◌, refl, sym, subst, Bool, true, false, not, ◌&&◌, List, [],
  ◌∷◌, Option, none, some, Result, ok, Memᴰ, Bool-cases, ◌⊎◌, inl, inr, arith,
}
use agola.When.Match.{
  WhenConditionType, WhenCondition, WhenConditions, When, RunRefType, is_branch, is_tag,
  condition_matches, match_condition, override_include, override_when, match_when,
}

module _ (compile : String → Option (String → Bool)) where
  -- The value of a condition: `simple` compares, and `regexp` needs an expression that compiles.
  pub data Holds (c : WhenCondition) (s : String) (b : Bool) : Type 0 where
    by_text : c.type ≡ WhenConditionType.simple → ((b ≡ true) ↔ (c.match ≡ s)) → Holds c s b
    by_regexp :
        (re : String → Bool)
        → c.type ≡ WhenConditionType.regexp
        → compile c.match ≡ some re
        → re s ≡ b
        → Holds c s b

  -- All expressions among the conditions compile.
  unfoldable pub Compiles : List WhenCondition → Type 0
  Compiles cs =
      (c : WhenCondition)
      → Memᴰ c cs
      → c.type ≡ WhenConditionType.regexp
      → (re : String → Bool) × (compile c.match ≡ some re)

  -- Is there a condition that holds?
  pub data Found (cs : List WhenCondition) (s : String) (b : Bool) : Type 0 where
    found : (c : WhenCondition) → Memᴰ c cs → Holds c s true → b ≡ true → Found cs s b
    missing : ((c : WhenCondition) → Memᴰ c cs → Holds c s false) → b ≡ false → Found cs s b

  type-cases :
      (t : WhenConditionType) → (t ≡ WhenConditionType.simple) ⊎ (t ≡ WhenConditionType.regexp)
  type-cases WhenConditionType.simple = inl refl
  type-cases WhenConditionType.regexp = inr refl

  condition_matches-Holds :
      (c : WhenCondition) (s : String)
      → (c.type ≡ WhenConditionType.regexp → (re : String → Bool) × (compile c.match ≡ some re))
      → (b : Bool) × (condition_matches compile c s ≡ ok b) × Holds c s b
  unfolding condition_matches
  condition_matches-Holds c s h = elim (type-cases c.type) [
    | inl e ↦ (c.match == s, rw (condition_matches, e), by_text e (eq_iff c.match s))
    | inr e ↦ let (re, q) = h e in (re s, rw (condition_matches, e, q), by_regexp re e q refl)
  ]

  match_condition-Found :
      (cs : List WhenCondition) (s : String)
      → Compiles cs
      → (b : Bool) × (match_condition compile cs s ≡ ok b) × Found cs s b
  unfolding match_condition Compiles
  match_condition-Found [] s h = (false, refl, missing (λ c i. elim i [ ]) refl)
  match_condition-Found (c ∷ cs) s h =
      let (b, e, k) = condition_matches-Holds c s (h c (Memᴰ.head refl)) in
      let (b', e', k') = match_condition-Found cs s (λ x i. h x (Memᴰ.tail i)) in
      first b e k b' e' k'
    where
      first :
          (b : Bool)
          → condition_matches compile c s ≡ ok b
          → Holds c s b
          → (b' : Bool) → match_condition compile cs s ≡ ok b'
          → Found cs s b'
          → (b : Bool) × (match_condition compile (c ∷ cs) s ≡ ok b) × Found (c ∷ cs) s b
      first true e k b' e' k' = (true, rw (match_condition, e), found c (Memᴰ.head refl) k refl)
      first false e k b' e' (found d i l q) =
          (b', rw (match_condition, e) e', found d (Memᴰ.tail i) l q)
      first false e k b' e' (missing l q) =
          (b', rw (match_condition, e) e', missing (all_miss k l) q)
        where
          all_miss :
              Holds c s false
              → ((d : WhenCondition) → Memᴰ d cs → Holds d s false)
              → (d : WhenCondition) → Memᴰ d (c ∷ cs)
              → Holds d s false
          all_miss k l d (Memᴰ.head q) = subst (λ x. Holds x s false) (sym q) k
          all_miss k l d (Memᴰ.tail i) = l d i

  -- How the conditions of a field turn the verdict `a` into `b`: the excludes go before the includes.
  pub data Turns (o : Option WhenConditions) (s : String) (a b : Bool) : Type 0 where
    absent : o ≡ none → b ≡ a → Turns o s a b
    excluded :
        (w : WhenConditions) → o ≡ some w → Found w.exclude s true → b ≡ false → Turns o s a b
    included :
        (w : WhenConditions)
        → o ≡ some w
        → Found w.exclude s false
        → Found w.include s true
        → b ≡ true
        → Turns o s a b
    silent :
        (w : WhenConditions)
        → o ≡ some w
        → Found w.exclude s false
        → Found w.include s false
        → b ≡ a
        → Turns o s a b

  -- The field is read only if `P`.
  pub data Reads (P : Type 0) (o : Option WhenConditions) (s : String) (a b : Bool) : Type 0 where
    reads : P → Turns o s a b → Reads P o s a b
    passes : ¬ P → b ≡ a → Reads P o s a b

  unfoldable pub AllCompile : Option WhenConditions → Type 0
  AllCompile o = (w : WhenConditions) → o ≡ some w → Compiles w.include × Compiles w.exclude

  override_include-Turns :
      (w : WhenConditions) (s : String) (a : Bool)
      → Compiles w.include
      → Compiles w.exclude
      → (b : Bool) × (override_include compile w s a ≡ ok b) × Turns (some w) s a b
  unfolding override_include
  override_include-Turns w s a ci ce =
      let (i, p, fi) = match_condition-Found w.include s ci in
      let (e, q, fe) = match_condition-Found w.exclude s ce in by_tests i p fi e q fe
    where
      by_tests :
          (i : Bool)
          → match_condition compile w.include s ≡ ok i
          → Found w.include s i
          → (e : Bool) → match_condition compile w.exclude s ≡ ok e
          → Found w.exclude s e
          → (b : Bool) × (override_include compile w s a ≡ ok b) × Turns (some w) s a b
      by_tests i p fi true q fe = (false, rw (override_include, p, q), excluded w refl fe refl)
      by_tests true p fi false q fe =
          (true, rw (override_include, p, q), included w refl fe fi refl)
      by_tests false p fi false q fe = (a, rw (override_include, p, q), silent w refl fe fi refl)

  turns :
      (o : Option WhenConditions) (s : String) (a : Bool)
      → AllCompile o
      → (b : Bool) × (override_when compile true o s a ≡ ok b) × Turns o s a b
  unfolding override_when AllCompile
  turns none s a h = (a, refl, absent refl refl)
  turns (some w) s a h = let (ci, ce) = h w refl in override_include-Turns w s a ci ce

  skips :
      (o : Option WhenConditions) (s : String) (a : Bool) → override_when compile false o s a ≡ ok a
  unfolding override_when
  skips none s a = refl
  skips (some w) s a = refl

  override_when-Reads :
      (P : Type 0) (t : Bool) (o : Option WhenConditions) (s : String) (a : Bool)
      → ((t ≡ true) ↔ P)
      → AllCompile o
      → (b : Bool) × (override_when compile t o s a ≡ ok b) × Reads P o s a b
  override_when-Reads P true o s a iff h =
      let (b, e, k) = turns o s a h in (b, e, reads (iff.0 refl) k)
  override_when-Reads P false o s a iff h =
      (a, skips o s a, passes (λ p. let q = iff.1 p in cc) refl)

  is_branch_iff :
      (t : RunRefType) (b : String)
      → ((is_branch t && not (b == "")) ≡ true) ↔ ((t ≡ RunRefType.branch) × (b ≢ ""))
  is_branch_iff RunRefType.branch b = (
    λ h. (refl, λ q. let z = (eq_iff b "").1 q in ground arith),
    λ p. elim (Bool-cases (b == "")) [
      | inl hit ↦ absurd (p.1 ((eq_iff b "").0 hit))
      | inr miss ↦ rw miss
    ],
  )
  is_branch_iff RunRefType.tag b = (λ h. cc, λ p. let q = p.0 in cc)
  is_branch_iff RunRefType.pull_request b = (λ h. cc, λ p. let q = p.0 in cc)

  is_tag_iff :
      (t : RunRefType) (b : String)
      → ((is_tag t && not (b == "")) ≡ true) ↔ ((t ≡ RunRefType.tag) × (b ≢ ""))
  is_tag_iff RunRefType.tag b = (
    λ h. (refl, λ q. let z = (eq_iff b "").1 q in ground arith),
    λ p. elim (Bool-cases (b == "")) [
      | inl hit ↦ absurd (p.1 ((eq_iff b "").0 hit))
      | inr miss ↦ rw miss
    ],
  )
  is_tag_iff RunRefType.branch b = (λ h. cc, λ p. let q = p.0 in cc)
  is_tag_iff RunRefType.pull_request b = (λ h. cc, λ p. let q = p.0 in cc)

  -- The verdict on a `when` that is not nil: from false, by the branch, the tag and then the ref.
  pub data Verdict (w : When) (t : RunRefType) (branch tag ref : String) (o : Result Bool)
      : Type 0 where
    verdict :
        (a b c : Bool)
        → Reads ((t ≡ RunRefType.branch) × (branch ≢ "")) w.branch branch false a
        → Reads ((t ≡ RunRefType.tag) × (tag ≢ "")) w.tag tag a b
        → Turns w.ref ref b c
        → o ≡ ok c
        → Verdict w t branch tag ref o

  -- If all regular expressions of a `when` compile, then MatchWhen does not panic, and its verdict
  -- is the one of the conditions for the ref if one of these holds, else the one of the conditions
  -- for the branch or the tag, which count only for that type of ref and a name that is not
  -- empty, else false; in each field an exclude goes before the includes.
  pub match_when-Verdict :
      (w : When) (t : RunRefType) (b g r : String)
      → AllCompile w.branch
      → AllCompile w.tag
      → AllCompile w.ref
      → Verdict w t b g r (match_when compile (some w) t b g r)
  unfolding match_when
  match_when-Verdict w t b g r hb hg hr =
      let (x, ex, kx) =
        override_when-Reads ((t ≡ RunRefType.branch) × (b ≢ "")) (is_branch t && not (b == ""))
          w.branch b false (is_branch_iff t b) hb in
      let (y, ey, ky) =
        override_when-Reads ((t ≡ RunRefType.tag) × (g ≢ "")) (is_tag t && not (g == "")) w.tag g x
          (is_tag_iff t g) hg in
      let (z, ez, kz) = turns w.ref r y hr in verdict x y z kx ky kz (rw (match_when, ex, ey) ez)
