-- ===== src/When/Match.antt =====
-- MatchWhen and matchCondition of services/types/when.go, and RunRefType of
-- internal/services/types/run.go. The package regexp is a parameter: `compile` gives what
-- regexp.Compile and then MatchString do with an expression, `none` for an error of Compile.
use agola.Prelude.{
  String, ◌==◌, Bool, true, false, not, ◌&&◌, List, [], ◌∷◌, Option, none, some, Result, ok, ◌>>=◌,
  deref, if◌then◌else◌,
}

pub data WhenConditionType : Type 0 where
  simple : WhenConditionType
  regexp : WhenConditionType

pub record WhenCondition : Type 0 where
  pub type : WhenConditionType
  pub match : String

pub record WhenConditions : Type 0 where
  pub include : List WhenCondition
  pub exclude : List WhenCondition

pub record When : Type 0 where
  pub branch : Option WhenConditions
  pub tag : Option WhenConditions
  pub ref : Option WhenConditions

pub data RunRefType : Type 0 where
  branch : RunRefType
  tag : RunRefType
  pull_request : RunRefType

abbrev pub is_branch : RunRefType → Bool
is_branch RunRefType.branch = true
is_branch RunRefType.tag = false
is_branch RunRefType.pull_request = false

abbrev pub is_tag : RunRefType → Bool
is_tag RunRefType.branch = false
is_tag RunRefType.tag = true
is_tag RunRefType.pull_request = false

module _ (compile : String → Option (String → Bool)) where
  -- The body of the `switch` on one condition.
  unfoldable pub condition_matches : WhenCondition → String → Result Bool
  condition_matches c s = elim c.type [
    | WhenConditionType.simple ↦ ok (c.match == s)
    | WhenConditionType.regexp ↦ do re ← deref (compile c.match); ok (re s)
  ]

  unfoldable pub match_condition : List WhenCondition → String → Result Bool
  unfolding condition_matches
  match_condition [] s = ok false
  match_condition (c ∷ cs) s =
      let rest = match_condition cs s in do b ← condition_matches c s; if b then ok true else rest

  -- The includes, overridden with the excludes; `include` is the variable of that name.
  unfoldable pub override_include : WhenConditions → String → Bool → Result Bool
  unfolding match_condition
  override_include w s include = do
    i ← match_condition w.include s
    e ← match_condition w.exclude s
    ok (if e then false else if i then true else include)

  -- The same for a field that may be nil, under the test `b`.
  unfoldable pub override_when : Bool → Option WhenConditions → String → Bool → Result Bool
  unfolding override_include
  override_when b none s include = ok include
  override_when b (some w) s include = if b then override_include w s include else ok include

  -- The arguments are `when`, `refType`, `branch`, `tag` and `ref`.
  unfoldable pub match_when : Option When → RunRefType → String → String → String → Result Bool
  unfolding override_when
  match_when none t b g r = ok true
  match_when (some w) t b g r = do
    x ← override_when (is_branch t && not (b == "")) w.branch b false
    y ← override_when (is_tag t && not (g == "")) w.tag g x
    override_when true w.ref r y
