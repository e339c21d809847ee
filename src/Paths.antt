-- ===== src/Paths.antt =====
-- internal/util/path.go, and what it uses of the package path: Clean, Dir, Base and IsAbs. A path is cut
-- into the names between its slashes.
use Prim.Native.Char.{code}
use Prim.Native.String.{◌++◌ as ◌<>◌, count}
use text.Mathlib.Text.{starts_with}
use agola.Prelude.{
  ℕ, zero, suc, ◌+◌, String, ◌==◌, Bool, true, false, ◌||◌, List, [], ◌∷◌, Option, none, some, eqb,
  if◌then◌else◌,
}

abbrev pub is_abs : String → Bool
is_abs String.[] = false
is_abs (String.◌∷◌ c s) = eqb (code c) b'/'

abbrev add_char : String → List String → List String
add_char c [] = c ∷ []
add_char c (name ∷ names) = (c <> name) ∷ names

-- The names between the slashes, empty ones included.
unfoldable pub split_path : String → List String
split_path String.[] = "" ∷ []
split_path (String.◌∷◌ c s) =
    let rest = split_path s in
    if eqb (code c) b'/' then "" ∷ rest else add_char (String.◌∷◌ c String.[]) rest

unfoldable pub join_path : List String → String
join_path [] = ""
join_path (name ∷ []) = name
join_path (name ∷ name' ∷ names) = name <> ("/" <> join_path (name' ∷ names))

-- What path.Clean keeps of the names; `kept` are those before, the last one first.
abbrev clean_parent : Bool → List String → List String
clean_parent rooted [] = if rooted then [] else ".." ∷ []
clean_parent rooted (name ∷ kept) = if name == ".." then ".." ∷ name ∷ kept else kept

unfoldable pub clean_names : Bool → List String → List String → List String
clean_names rooted [] kept = kept
clean_names rooted (name ∷ names) kept = clean_names rooted names (
    if name == "" || name == "."
    then kept
    else if name == ".."
    then clean_parent rooted kept
    else name ∷ kept)

abbrev reverse_names : List String → List String → List String
reverse_names [] out = out
reverse_names (name ∷ names) out = reverse_names names (name ∷ out)

-- The text of a cleaned path; the root and the empty path are "/" and ".".
abbrev cleaned : Bool → List String → String
cleaned true names = "/" <> join_path names
cleaned false [] = "."
cleaned false (name ∷ names) = join_path (name ∷ names)

unfoldable pub clean : String → String
unfolding clean_names split_path join_path
clean p = cleaned (is_abs p) (reverse_names (clean_names (is_abs p) (split_path p) []) [])

-- The names before the last slash, which ends the list with an empty one.
abbrev without_last : List String → List String
without_last [] = []
without_last (name ∷ []) = "" ∷ []
without_last (name ∷ name' ∷ names) = name ∷ without_last (name' ∷ names)

unfoldable pub dir : String → String
unfolding clean join_path split_path
dir p = clean (join_path (without_last (split_path p)))

-- path.Base: the last name that is not empty.
abbrev last_name : Option String → List String → Option String
last_name found [] = found
last_name found (name ∷ names) = last_name (if name == "" then found else some name) names

abbrev base_of : String → Option String → String
base_of p (some name) = name
base_of p none = if p == "" then "." else "/"

unfoldable pub base : String → String
unfolding split_path
base p = base_of p (last_name none (split_path p))

-- The loop of PathHierarchy: `paths` ends with the path below `p`.
unfoldable pub path_hierarchy_loop : ℕ → String → List String → Option (List String)
unfolding dir
path_hierarchy_loop zero p paths = none
path_hierarchy_loop (suc fuel) p paths = elim (dir p == p) [
  | true ↦ some (p ∷ paths)
  | false ↦ path_hierarchy_loop fuel (dir p) (p ∷ paths)
]

-- Each round but the last makes the path shorter.
unfoldable pub path_hierarchy : String → Option (List String)
unfolding path_hierarchy_loop
path_hierarchy p = path_hierarchy_loop (count p + 2) p []

unfoldable pub path_list_loop : ℕ → String → List String → Option (List String)
unfolding dir base
path_list_loop zero p paths = none
path_list_loop (suc fuel) p paths = elim (dir p == "." || dir p == "/") [
  | true ↦ some (base p ∷ paths)
  | false ↦ path_list_loop fuel (dir p) (base p ∷ paths)
]

unfoldable pub path_list : String → Option (List String)
unfolding path_list_loop clean
path_list p = path_list_loop (count p + 2) (clean p) []

-- strings.Contains
unfoldable pub contains : String → String → Bool
contains String.[] t = t == ""
contains (String.◌∷◌ c s) t = starts_with (String.◌∷◌ c s) t || contains s t

-- strings.HasSuffix of a slash
abbrev pub ends_with_slash : String → Bool
ends_with_slash String.[] = false
ends_with_slash (String.◌∷◌ c String.[]) = eqb (code c) b'/'
ends_with_slash (String.◌∷◌ c (String.◌∷◌ d s)) = ends_with_slash (String.◌∷◌ d s)

unfoldable pub is_parent_path : String → String → Bool
unfolding contains
is_parent_path parent p = contains p (if ends_with_slash parent then parent else parent <> "/")

unfoldable pub is_same_or_parent_path : String → String → Bool
unfolding is_parent_path
is_same_or_parent_path parent p = if parent == p then true else is_parent_path parent p
