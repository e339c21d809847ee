-- ===== src/Variables.antt =====
-- internal/services/common/variables.go: the variables of a project and its parents, and the secrets
-- that give their values. Of services/configstore/api/types/variable.go and secret.go there is what
-- these functions read.
use agola.Prelude.{
  String, ◌==◌, Bool, true, false, ◌&&◌, List, [], ◌∷◌, ◌++◌, Option, none, some, Map, lookup,
  has_key, insert, delete, if◌then◌else◌,
}
use agola.Paths.{is_same_or_parent_path}
pub mod Overridden
pub mod Filled

pub record VariableValue : Type 0 where
  pub secret_name : String
  pub secret_var : String

pub record Variable : Type 0 where
  pub name : String
  pub var_values : List VariableValue
  pub parent_path : String

pub record Secret : Type 0 where
  pub name : String
  pub secret_data : Map String
  pub parent_path : String

-- The first loop: the first variable of each name.
unfoldable pub first_variables : List Variable → Map Variable → Map Variable
unfolding has_key insert
first_variables [] m = m
first_variables (v ∷ vs) m = first_variables vs (if has_key v.name m then m else insert v.name v m)

-- The second loop: what it writes to the new slice, in order.
unfoldable pub keep_first : List Variable → Map Variable → List Variable
unfolding has_key delete
keep_first [] m = []
keep_first (v ∷ vs) m = elim (has_key v.name m) [
  | true ↦ v ∷ keep_first vs (delete v.name m)
  | false ↦ keep_first vs m
]

-- The slice is made with the length of the map, and the second loop writes from its start on.
unfoldable pub filter_overridden_variables : List Variable → List Variable
unfolding first_variables keep_first
filter_overridden_variables vs = keep_first vs (first_variables vs [])

unfoldable pub get_var_value_matching_secret : VariableValue → String → List Secret → Option Secret
unfolding is_same_or_parent_path
get_var_value_matching_secret varval var_parent_path [] = none
get_var_value_matching_secret varval var_parent_path (s ∷ secrets) =
    let rest = get_var_value_matching_secret varval var_parent_path secrets in
    if s.name == varval.secret_name && is_same_or_parent_path s.parent_path var_parent_path
    then some s
    else rest
