-- ===== src/Store/Tokens.antt =====
-- GetChangeGroupsUpdateTokens of internal/services/runservice/action/action.go. The base64 text of a
-- token, which MarshalChangeGroupsUpdateToken makes, is not modelled: a token is its map.
pub mod Values
pub mod RoundTrip
pub mod Once
pub mod Exclusion
use agola.Prelude.{
  ℕ, String, ◌==◌, ◌≡◌, refl, true, false, Bool, ◌&&◌, ◌||◌, List, [], ◌∷◌, ◌++◌, Map, values,
  filter, any, has_key, insert, lookup, some, none, Result, ok, ◌>>=◌, arith, Memᴰ, Bool-cases, inl,
  inr, ◌⊎◌, eq_iff, if◌then◌else◌, lookup-insert,
}
use agola.Types.{ObjectMeta, ChangeGroup, ChangeGroupsUpdateToken, new_change_group}
use agola.Store.Rows.{insert_row, first_meta}
use agola.Store.Db.{Db}
use agola.Store.Transactions.{gen_change_groups_values}
use agola.Variables.Overridden.{has_key-insert}

abbrev pub with_group_meta : ChangeGroup → ObjectMeta → ChangeGroup
with_group_meta g m = record g { meta = m }

abbrev pub is_named : List String → ChangeGroup → Bool
is_named names g = any (λ n. n == g.name) names

abbrev pub get_change_groups_by_names : List String → Db → List ChangeGroup
get_change_groups_by_names names db = filter (is_named names) (values db.change_groups)

module _ (now : ℕ) (new_id new_value : String → String) where
  -- The fresh id and value of the group of a name.
  abbrev pub new_group : String → ChangeGroup
  new_group n = record (new_change_group (new_id n)) { name = n; value = new_value n }

  -- The insert sets the metadata of the object that is in the list.
  abbrev pub inserted_group : String → ChangeGroup
  inserted_group n = record (new_group n) { meta = first_meta now (new_group n).meta }

  -- The loop over the names: the groups found and the table.
  unfoldable pub add_missing_groups :
      List String → List ChangeGroup → Map ChangeGroup → Result (List ChangeGroup × Map ChangeGroup)
  add_missing_groups [] gs rows = ok (gs, rows)
  add_missing_groups (n ∷ ns) gs rows = elim (any (λ g. g.name == n) gs) [
    | true ↦ add_missing_groups ns gs rows
    | false ↦ do
      rows' ← insert_row (λ (g : ChangeGroup). g.meta) with_group_meta now (new_group n) rows
      add_missing_groups ns (gs ++ inserted_group n ∷ []) rows'
  ]

  unfoldable pub get_change_groups_update_tokens :
      List String → Db → Result (Db × ChangeGroupsUpdateToken)
  get_change_groups_update_tokens names db = do
    (gs, rows) ← add_missing_groups names (get_change_groups_by_names names db) db.change_groups
    ok (
      record db { change_groups = rows },
      record { change_groups_values = gen_change_groups_values gs [] },
    )

-- What the map of the values of a list of groups has.
pub has_key-gen :
    (k : String) (gs : List ChangeGroup) (m : Map String)
    → has_key k (gen_change_groups_values gs m) ≡ (any (λ g. g.name == k) gs || has_key k m)
unfolding gen_change_groups_values
has_key-gen k [] m = refl
has_key-gen k (g ∷ gs) m =
    ground (arith, has_key-gen k gs (insert g.name g.value m), has_key-insert g.name k g.value m)

pub data HasValue (k v : String) (gs : List ChangeGroup) : Type 0 where
  has : (g : ChangeGroup) → Memᴰ g gs → g.name ≡ k → g.value ≡ v → HasValue k v gs

pub lookup-gen :
    (k v : String) (gs : List ChangeGroup) (m : Map String)
    → lookup k (gen_change_groups_values gs m) ≡ some v
    → HasValue k v gs ⊎ (lookup k m ≡ some v)
unfolding gen_change_groups_values
lookup-gen k v [] m h = inr h
lookup-gen k v (g ∷ gs) m h = elim (lookup-gen k v gs (insert g.name g.value m) h) [
  | inl (has g' i a b) ↦ inl (has g' (Memᴰ.tail i) a b)
  | inr l ↦ elim (Bool-cases (g.name == k)) [
    | inl e ↦ inl (
        has g (Memᴰ.head refl) ((eq_iff g.name k).0 e)
          (ground (arith, lookup-insert g.name k g.value m)))
    | inr e ↦ inr (ground (arith, lookup-insert g.name k g.value m))
  ]
]
