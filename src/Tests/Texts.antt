-- ===== src/Tests/Texts.antt =====
-- Concrete paths and variables.
use agola.Prelude.{◌≡◌, refl, String, true, List, [], ◌∷◌, some, length, insert, has_key}
use agola.Paths.{
  path_hierarchy, path_hierarchy_loop, path_list, path_list_loop, dir, base, clean, clean_names,
  split_path, join_path, contains, is_parent_path,
}
use agola.Variables.{Variable, first_variables, filter_overridden_variables}
use agola.Variables.Overridden.{firsts, filter_overridden_variables-firsts}
use agola.Variables.Filled.{filter_overridden_variables-length}

hierarchy_of_a_rooted_path :
    path_hierarchy "/path/to/file" ≡ some ("/" ∷ "/path" ∷ "/path/to" ∷ "/path/to/file" ∷ [])
unfolding path_hierarchy path_hierarchy_loop dir clean clean_names split_path join_path
hierarchy_of_a_rooted_path = refl

names_of_a_path : path_list "/path//to/../file/" ≡ some ("path" ∷ "file" ∷ [])
unfolding path_list path_list_loop dir base clean clean_names split_path join_path
names_of_a_path = refl

-- The parent stands inside the path.
parent_inside_a_path : is_parent_path "/b" "/a/b/c" ≡ true
unfolding is_parent_path contains
parent_inside_a_path = refl

abbrev variable : String → String → Variable
variable name parent_path = record { name = name; var_values = []; parent_path = parent_path }

abbrev variables : List Variable
variables =
    variable "REGION" "project/p1"
    ∷ variable "STAGE" "project/p1"
    ∷ variable "REGION" "projectgroup/g1"
    ∷ []

filter_overridden_variables-firsts_example :
    filter_overridden_variables variables
    ≡ variable "REGION" "project/p1" ∷ variable "STAGE" "project/p1" ∷ []
unfolding firsts
filter_overridden_variables-firsts_example = filter_overridden_variables-firsts variables

filter_overridden_variables-length_example : length (filter_overridden_variables variables) ≡ 2
unfolding first_variables has_key insert
filter_overridden_variables-length_example = filter_overridden_variables-length variables
