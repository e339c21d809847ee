-- ===== src/Tests/Tokens.antt =====
-- Change group tokens of a database that has one change group.
use agola.Prelude.{
  String, eq_iff, ◌≡◌, refl, sym, subst, [], ◌∷◌, List, none, some, lookup, insert, has_key, Memᴰ,
  ok, arith,
}
use agola.Types.{RunPhase, ChangeGroup, ChangeGroupsUpdateToken, change_phase}
use agola.Action.Change.{change_run_phase}
use agola.Store.Rows.{insert_row, update_row, insert_or_update_row}
use agola.Store.Tables.{IsTable, insert-IsTable}
use agola.Store.Db.{Db, update_run, insert_run_event, new_run_event, next_sequence}
use agola.Store.Transactions.{
  update_change_groups, renew_change_groups, gen_change_groups_values, change_run_phase_action,
}
use agola.Store.Tokens.Once.{GroupTable}
use agola.Store.Tokens.RoundTrip.{Accepted, get_change_groups_update_tokens-Accepted}
use agola.Store.Tokens.Exclusion.{change_run_phase_action_once}
use agola.Tests.Stored.{stored, stored_run}

abbrev pub group_c : ChangeGroup
group_c = record {
  meta = record { id = "g1"; creation_time = 1; update_time = 1; revision = 1 };
  name = "c";
  value = "v";
}

abbrev pub grouped_db : Db
grouped_db = record (stored stored_run) { change_groups = ("g1", group_c) ∷ [] }

pub groups_kept : GroupTable grouped_db.change_groups
unfolding insert lookup
groups_kept =
    insert-IsTable (λ (g : ChangeGroup). g.meta) "g1" group_c [] refl (omega arith) empty_table
  where
    empty_table : IsTable (λ (g : ChangeGroup). g.meta) []
    empty_table = (tt, λ k g h. ground arith)

abbrev pub same_text : String → String
same_text s = s

abbrev pub drawn : String → String
drawn id = "drawn"

abbrev two_names : List String
two_names = "c" ∷ "d" ∷ []

get_change_groups_update_tokens-Accepted_example :
    Accepted 5 same_text same_text two_names 6 drawn grouped_db
unfolding lookup
get_change_groups_update_tokens-Accepted_example =
    get_change_groups_update_tokens-Accepted 5 same_text same_text two_names 6 drawn grouped_db
      groups_kept (λ n m e. e)
      (λ n i. elim i [
        | Memᴰ.head q ↦ subst (λ x. lookup x grouped_db.change_groups ≡ none) (sym q) refl
        | Memᴰ.tail (Memᴰ.head q) ↦
            subst (λ x. lookup x grouped_db.change_groups ≡ none) (sym q) refl
        | Memᴰ.tail (Memᴰ.tail j) ↦ elim j [ ]
      ])

abbrev pub token_c : ChangeGroupsUpdateToken
token_c = record { change_groups_values = ("c", "v") ∷ [] }

-- The database after the start of the run under the token.
abbrev started_grouped : Db
unfolding change_run_phase_action update_change_groups renew_change_groups insert_or_update_row
    insert_row update_row change_run_phase change_phase new_run_event next_sequence insert_run_event
    update_run lookup insert has_key gen_change_groups_values
started_grouped =
    elim (change_run_phase_action 7 drawn (some token_c) "ev1" "s1" RunPhase.running "r1"
      grouped_db) [ ok db ↦ db | _ ↦ grouped_db ]

change_run_phase_action_once_example : ¬ (
    change_run_phase_action 8 same_text
      (some token_c)
      "ev2"
      "s2"
      RunPhase.cancelled
      "r1"
      started_grouped
    ≡ ok grouped_db)
unfolding change_run_phase_action update_change_groups renew_change_groups insert_or_update_row
    insert_row update_row change_run_phase change_phase new_run_event next_sequence insert_run_event
    update_run lookup insert has_key gen_change_groups_values started_grouped
change_run_phase_action_once_example =
    change_run_phase_action_once 7 8 drawn same_text token_c token_c "ev1" "s1" "ev2" "s2"
      RunPhase.running RunPhase.cancelled "r1" "r1" "c" "v" grouped_db started_grouped grouped_db
      groups_kept refl refl (λ id h. ground (arith, (eq_iff "drawn" "v").1 h)) refl
